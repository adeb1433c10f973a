-- ===== src/Common/Assoc.antt =====
-- A JavaScript `Map` (or plain object) with text keys: an association list in insertion order.
use Prim.Native.String.{String}
use mathlib.Core.Path.{◌≡◌, refl}
use mathlib.Core.Logic.{inl, inr}
use mathlib.Core.Bool.{Bool, false, ◌||◌}
use mathlib.Core.List.{List, [], ◌∷◌, map}
use mathlib.Core.Option.{Option, none, some}
use native.Mathlib.Omega.{arith}
use text.Mathlib.Text.{◌==◌}
use text.Mathlib.TextEquality.{eq_iff}
use text.Mathlib.TextPositions.{eq_refl}
use red_team_agent_orchestra.Common.Tests.{if◌then◌else◌, Bool-cases}
use red_team_agent_orchestra.Common.Lists.{Any}

module _ {ℓ} {Item : Type ℓ} where
  -- `map.get(key)`
  unfoldable pub lookup : String → List (String × Item) → Option Item
  lookup key [] = none
  lookup key (entry ∷ rest) = if entry.0 == key then some entry.1 else lookup key rest

  -- `map.has(key)`
  unfoldable pub has_key : String → List (String × Item) → Bool
  has_key key [] = false
  has_key key (entry ∷ rest) = entry.0 == key || has_key key rest

  unfoldable pub keys : List (String × Item) → List String
  keys entries = map (λ entry. entry.0) entries

  -- `map.set(key, item)`: an old key keeps its place
  unfoldable pub insert : String → Item → List (String × Item) → List (String × Item)
  insert key item [] = (key, item) ∷ []
  insert key item (entry ∷ rest) =
      if entry.0 == key then (entry.0, item) ∷ rest else entry ∷ insert key item rest

  pub has_key-insert :
      (key asked : String) (item : Item) (entries : List (String × Item))
      → has_key asked (insert key item entries) ≡ (key == asked || has_key asked entries)
  unfolding has_key insert
  has_key-insert key asked item [] = refl
  has_key-insert key asked item ((old, held) ∷ rest) = ground (
    arith,
    has_key-insert key asked item rest,
    eq_iff old key,
    eq_iff key asked,
    eq_iff old asked,
  )

  pub lookup-insert :
      (key asked : String) (item : Item) (entries : List (String × Item))
      → lookup asked (insert key item entries)
        ≡ (if key == asked then some item else lookup asked entries)
  unfolding insert lookup
  lookup-insert key asked item [] = refl
  lookup-insert key asked item ((old, held) ∷ rest) =
      ground (
        arith,
        lookup-insert key asked item rest,
        eq_iff old key,
        eq_iff key asked,
        eq_iff old asked,
      )

  pub lookup-insert_self :
      (key : String) (item : Item) (entries : List (String × Item))
      → lookup key (insert key item entries) ≡ some item
  lookup-insert_self key item entries =
      ground (arith, lookup-insert key key item entries, eq_refl key)

pub lookup-some-Any :
    {V : Type 0} (k : String) (m : List (String × V)) {v : V}
    → lookup k m ≡ some v
    → Any (λ e. e ≡ (k, v)) m
unfolding lookup
lookup-some-Any k [] h = cc
lookup-some-Any k ((j, w) ∷ m) h = elim (Bool-cases (j == k)) [
  | inl e ↦ inl (ground (arith, eq_iff j k))
  | inr e ↦ inr (lookup-some-Any k m (ground arith))
]

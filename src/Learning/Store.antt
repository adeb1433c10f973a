-- ===== src/Learning/Store.antt =====
-- `makeProceduralStore` of tools/graph/self-improve.mjs, in memory: `persist` and its file are left
-- out. The history is a stack, its newest snapshot first.
pub mod Laws
use Prim.Native.String
use red_team_agent_orchestra.Common.{
  ℕ, suc, map, String, Bool, true, false, Option, none, some, List, [], ◌∷◌, ◌++◌, lookup, insert,
  Result, ok, throw, ◌>>=◌,
}
use red_team_agent_orchestra.Learning.Firewall.{assert_methodology_namespace}
use red_team_agent_orchestra.Js.{Value, Items, nil, cons, Props, end, prop, str, arr, obj, decimal}

pub record Snapshot : Type 0 where
  pub ns : String
  pub entries : List Value

pub record Store : Type 0 where
  pub mem : List (String × List Value)
  pub history : List Snapshot

abbrev pub entries_or_nil : Option (List Value) → List Value
entries_or_nil none = []
entries_or_nil (some l) = l

-- `mem.get(ns) || { entries: [] }`
unfoldable pub held : String → Store → List Value
held ns s = entries_or_nil (lookup ns s.mem)

abbrev indexed_items : ℕ → Items → Props
indexed_items n nil = end
indexed_items n (cons v vs) = prop (decimal n) v (indexed_items (suc n) vs)

abbrev indexed_text : ℕ → String → Props
indexed_text n String.[] = end
indexed_text n (String.◌∷◌ c s) = prop (decimal n) (str (String.◌∷◌ c "")) (indexed_text (suc n) s)

-- `({ ...e })`: an array's items and a text's characters become properties, and a value of another
-- type has none.
unfoldable pub copied : Value → Value
copied (obj ps) = obj ps
copied (arr vs) = obj (indexed_items 0 vs)
copied (str s) = obj (indexed_text 0 s)
copied _ = obj end

unfoldable pub load : String → Store → Result (List Value)
load ns s = assert_methodology_namespace ns >>= λ _. ok (held ns s)

unfoldable pub append : String → Value → Store → Result Store
append ns entry s = assert_methodology_namespace ns >>= λ _. load ns s >>= λ before. ok (record {
  mem = insert ns (before ++ entry ∷ []) s.mem;
  history = record { ns = ns; entries = map copied before } ∷ s.history;
})

-- the seed of a store, one namespace after the other
unfoldable pub seeded : List (String × List Value) → Store → Result Store
seeded [] s = ok s
seeded ((ns, entries) ∷ rest) s = assert_methodology_namespace ns >>= λ _.
    seeded rest (record s { mem = insert ns entries s.mem })

abbrev pub restore : List Snapshot → Store → Store × Bool
restore [] s = (s, false)
restore (snap ∷ rest) s = (record { mem = insert snap.ns snap.entries s.mem; history = rest }, true)

unfoldable pub rollback_last : Store → Store × Bool
rollback_last s = restore s.history s

-- ===== src/Js/Data.antt =====
-- JavaScript values: what JSON.parse gives, and `undefined`.
-- A number is held in hundredths (`num 85` is 0.85, `num 100` is 1): the tools round every score to
-- two decimals, and their other numbers are counts. None of them is negative.
-- An object is its properties in insertion order. An array has a type of its own, with `items` and
-- `of_list` to and from lists.
use red_team_agent_orchestra.Common.{
  Bool-cases, inl, inr, ℕ, String, ◌≡◌, refl, ap, ◌≢◌, Bool, true, false, List, [], ◌∷◌, arith, eqb,
  ◌==◌, eq_iff, eq_refl, if◌then◌else◌,
}

mutual
  pub data Value : Type 0 where
    undefined null : Value
    bool : Bool → Value
    num : ℕ → Value
    str : String → Value
    arr : Items → Value
    obj : Props → Value

  pub data Items : Type 0 where
    nil : Items
    cons : Value → Items → Items

  pub data Props : Type 0 where
    end : Props
    prop : String → Value → Props → Props

unfoldable pub items : Items → List Value
items nil = []
items (cons v vs) = v ∷ items vs

unfoldable pub of_list : List Value → Items
of_list [] = nil
of_list (v ∷ vs) = cons v (of_list vs)

-- The items of an array; a value that is no array has none.
unfoldable pub elements : Value → List Value
unfolding items
elements (arr vs) = items vs
elements _ = []

-- `o[k]` of an object's properties
unfoldable pub read : Props → String → Value
read end k = undefined
read (prop j v ps) k = if j == k then v else read ps k

-- `o[k] = v`: an old property keeps its place
unfoldable pub write : Props → String → Value → Props
write end k v = prop k v end
write (prop j w ps) k v = if j == k then prop j v ps else prop j w (write ps k v)

-- `v?.[k]`; only objects have properties here
unfoldable pub get : Value → String → Value
unfolding read
get (obj ps) k = read ps k
get _ k = undefined

-- `{ ...v }`, of an object; a value of another type has no properties here
unfoldable pub spread : Value → Props
spread (obj ps) = ps
spread _ = end

unfoldable pub truthy : Value → Bool
truthy undefined = false
truthy null = false
truthy (bool b) = b
truthy (num n) = if eqb n 0 then false else true
truthy (str s) = if s == "" then false else true
truthy (arr vs) = true
truthy (obj ps) = true

-- `a || b`
unfoldable pub or_else : Value → Value → Value
unfolding truthy
or_else a b = if truthy a then a else b

-- Equality of `Map` keys. Two objects that were parsed apart are never the same key.
unfoldable pub same : Value → Value → Bool
same undefined undefined = true
same null null = true
same (bool true) (bool true) = true
same (bool false) (bool false) = true
same (num m) (num n) = eqb m n
same (str s) (str t) = s == t
same _ _ = false

-- `typeof v === 'string' ? v : d`
unfoldable pub text_or : String → Value → String
text_or d (str s) = s
text_or d _ = d

-- A text that is not empty, as a `||` chain of ids takes it.
abbrev pub IsText : Value → Type 0
IsText (str s) = s ≢ ""
IsText _ = ⊥

pub elements-of_list : (vs : List Value) → elements (arr (of_list vs)) ≡ vs
unfolding elements items of_list
elements-of_list [] = refl
elements-of_list (v ∷ vs) = ap (λ ws. v ∷ ws) (elements-of_list vs)

pub read-write :
    (ps : Props) (k j : String) (v : Value)
    → read (write ps k v) j ≡ (if k == j then v else read ps j)
unfolding read write
read-write end k j v = refl
read-write (prop i w ps) k j v =
    ground (arith, eq_iff k j, eq_iff i k, eq_iff i j, read-write ps k j v)

pub read-write_self : (ps : Props) (k : String) (v : Value) → read (write ps k v) k ≡ v
read-write_self ps k v = ground (arith, read-write ps k k v, eq_refl k)

-- Values that are the same key are equal.
pub same-true : (a b : Value) → same a b ≡ true → a ≡ b
unfolding same
same-true undefined undefined h = refl
same-true null null h = refl
same-true (bool true) (bool true) h = refl
same-true (bool false) (bool false) h = refl
same-true (num m) (num n) h = ground arith
same-true (str s) (str t) h = ap str ((eq_iff s t).0 h)
same-true _ _ h = cc

pub same-apart : (a b : Value) → same a b ≡ false → same b a ≡ false
same-apart a b e = elim (Bool-cases (same b a)) [
  | inr f ↦ f
  | inl f ↦ let alike : b ≡ a = same-true b a f in cc
]

pub same_refl_text : (a : Value) → IsText a → same a a ≡ true
unfolding same
same_refl_text (str s) h = eq_refl s
same_refl_text undefined h = elim h [ ]
same_refl_text null h = elim h [ ]
same_refl_text (bool b) h = elim h [ ]
same_refl_text (num n) h = elim h [ ]
same_refl_text (arr a) h = elim h [ ]
same_refl_text (obj o) h = elim h [ ]

pub truthy-or : (a b : Value) → truthy a ≡ true → or_else a b ≡ a
unfolding or_else
truthy-or a b h = rw h

-- ===== src/Common/Lists.antt =====
-- Lists measured by native numbers, Boolean searches, and predicates by recursion.
use Prim.Native.Nat.{ℕ, suc, ◌+◌, ◌≤◌}
use Prim.Native.String.{String}
use mathlib.Core.Path.{◌≡◌}
use mathlib.Core.Logic.{◌⊎◌, inl, inr}
use mathlib.Core.Bool.{Bool, true, false, ◌&&◌, ◌||◌, not}
use mathlib.Core.List.{List, [], ◌∷◌, ◌++◌}
use mathlib.Core.Option.{Option, none, some}
use native.Mathlib.Omega.{arith}
use text.Mathlib.Text.{◌==◌}
use text.Mathlib.TextEquality.{eq_iff}
use text.Mathlib.TextPositions.{eq_refl}
use red_team_agent_orchestra.Common.Tests.{if◌then◌else◌, Bool-cases, and-split, or-false}

module _ {ℓ} {A : Type ℓ} where
  abbrev pub length : List A → ℕ
  length [] = 0
  length (x ∷ xs) = suc (length xs)

  abbrev pub all : (A → Bool) → List A → Bool
  all p [] = true
  all p (x ∷ xs) = p x && all p xs

  abbrev pub any : (A → Bool) → List A → Bool
  any p [] = false
  any p (x ∷ xs) = p x || any p xs

  abbrev pub keep : (A → Bool) → List A → List A
  keep p [] = []
  keep p (x ∷ xs) = if p x then x ∷ keep p xs else keep p xs

  abbrev pub find : (A → Bool) → List A → Option A
  find p [] = none
  find p (x ∷ xs) = if p x then some x else find p xs

  pub length-append : (xs ys : List A) → length (xs ++ ys) ≡ length xs + length ys
  length-append [] ys = omega arith
  length-append (x ∷ xs) ys = omega (arith, length-append xs ys)

  pub length-keep : (p : A → Bool) (xs : List A) → length (keep p xs) ≤ length xs
  length-keep p [] = omega arith
  length-keep p (x ∷ xs) = ground (arith, length-keep p xs)

module _ {ℓ κ} {A : Type ℓ} (P : A → Type κ) where
  abbrev pub All : List A → Type κ
  All [] = Unit
  All (x ∷ xs) = P x × All xs

  pub All-append : (xs ys : List A) → All xs → All ys → All (xs ++ ys)
  All-append [] ys h k = k
  All-append (x ∷ xs) ys h k = (h.0, All-append xs ys h.1 k)

  pub All-append_left : (xs ys : List A) → All (xs ++ ys) → All xs
  All-append_left [] ys h = tt
  All-append_left (x ∷ xs) ys h = (h.0, All-append_left xs ys h.1)

  pub All-append_right : (xs ys : List A) → All (xs ++ ys) → All ys
  All-append_right [] ys h = h
  All-append_right (x ∷ xs) ys h = All-append_right xs ys h.1

-- There is an item of which `P` holds, with the item kept.
abbrev pub Any {ℓ} : {A : Type ℓ} → (A → Type 0) → List A → Type 0
Any P [] = ⊥
Any P (x ∷ xs) = P x ⊎ Any P xs

pub All-mono {ℓ} :
    {A : Type ℓ} {P Q : A → Type 0} (xs : List A) → ((x : A) → P x → Q x) → All P xs → All Q xs
All-mono [] f h = tt
All-mono (x ∷ xs) f h = (f x h.0, All-mono xs f h.1)

pub All-both {ℓ} :
    {A : Type ℓ} (P Q : A → Type 0) (xs : List A) → All P xs → All Q xs → All (λ x. P x × Q x) xs
All-both P Q [] h k = tt
All-both P Q (x ∷ xs) h k = ((h.0, k.0), All-both P Q xs h.1 k.1)

pub Any-mono {ℓ} :
    {A : Type ℓ} {P Q : A → Type 0} (xs : List A) → ((x : A) → P x → Q x) → Any P xs → Any Q xs
Any-mono [] f h = absurd h
Any-mono (x ∷ xs) f (inl p) = inl (f x p)
Any-mono (x ∷ xs) f (inr e) = inr (Any-mono xs f e)

-- There is one, so what holds of each, whichever it is, holds.
pub Any-out {ℓ} :
    {A : Type ℓ} {P : A → Type 0} {R : Type 0} (xs : List A) → ((x : A) → P x → R) → Any P xs → R
Any-out [] f h = absurd h
Any-out (x ∷ xs) f (inl p) = f x p
Any-out (x ∷ xs) f (inr e) = Any-out xs f e

-- What holds of each holds of the one that there is.
pub All-out {ℓ} :
    {A : Type ℓ} {P Q : A → Type 0} {R : Type 0} (xs : List A)
    → ((x : A) → P x → Q x → R)
    → All P xs
    → Any Q xs
    → R
All-out [] f h e = absurd e
All-out (x ∷ xs) f h (inl q) = f x h.0 q
All-out (x ∷ xs) f h (inr e) = All-out xs f h.1 e

pub Any-All {ℓ} :
    {A : Type ℓ} {P Q R : A → Type 0} (xs : List A)
    → Any P xs
    → All Q xs
    → ((x : A) → P x → Q x → R x)
    → Any R xs
Any-All [] e a f = absurd e
Any-All (x ∷ xs) (inl p) a f = inl (f x p a.0)
Any-All (x ∷ xs) (inr e) a f = inr (Any-All xs e a.1 f)

pub all-All {ℓ} :
    {A : Type ℓ} (p : A → Bool) (xs : List A) → all p xs ≡ true → All (λ x. p x ≡ true) xs
all-All p [] h = tt
all-All p (x ∷ xs) h = let (a, b) = and-split _ _ h in (a, all-All p xs b)

pub any-false {ℓ} :
    {A : Type ℓ} (p : A → Bool) (xs : List A) → any p xs ≡ false → All (λ x. p x ≡ false) xs
any-false p [] h = tt
any-false p (x ∷ xs) h = let (a, b) = or-false _ _ h in (a, any-false p xs b)

-- `list.includes(s)`, and `set.has(s)` of a set of texts.
abbrev pub includes : List String → String → Bool
includes xs s = any (λ x. x == s) xs

pub All-keep {ℓ} : {A : Type ℓ} (p : A → Bool) (xs : List A) → All (λ x. p x ≡ true) (keep p xs)
All-keep p [] = tt
All-keep p (x ∷ xs) = elim (Bool-cases (p x)) [
  | inl h ↦ let rest : All (λ y. p y ≡ true) (keep p xs) = All-keep p xs in ground (arith, rest)
  | inr h ↦ let rest : All (λ y. p y ≡ true) (keep p xs) = All-keep p xs in ground (arith, rest)
]

-- Where nothing is found that fails a test, everything passes it.
pub find-none {ℓ} :
    {A : Type ℓ} (p : A → Bool) (xs : List A)
    → find (λ x. not (p x)) xs ≡ none
    → All (λ x. p x ≡ true) xs
find-none p [] e = tt
find-none p (x ∷ xs) e = elim (Bool-cases (p x)) [
  | inl h ↦ (h, find-none p xs (rw h at e))
  | inr h ↦ absurd (cc (rw h at e))
]

-- What holds of each text that is there holds of all, and the other way round.
pub All-each :
    (P : String → Type 0) (xs : List String)
    → ((s : String) → includes xs s ≡ true → P s)
    → All P xs
All-each P [] f = tt
All-each P (x ∷ xs) f =
    (f x (ground (arith, eq_refl x)), All-each P xs (λ s h. f s (ground (arith, h))))

pub All-includes :
    (P : String → Type 0) (xs : List String) (s : String) → includes xs s ≡ true → All P xs → P s
All-includes P [] s h a = cc
All-includes P (x ∷ xs) s h (p, a) = elim (Bool-cases (x == s)) [
  | inl e ↦ rw (← ((eq_iff x s).0 e)) p
  | inr e ↦ All-includes P xs s (ground arith) a
]

-- What holds of each holds of those that are kept.
pub keep-All {ℓ} :
    {A : Type ℓ} (P : A → Type 0) (p : A → Bool) (xs : List A) → All P xs → All P (keep p xs)
keep-All P p [] h = tt
keep-All P p (x ∷ xs) h = elim (Bool-cases (p x)) [
  | inl e ↦ rw e (h.0, keep-All P p xs h.1)
  | inr e ↦ rw e (keep-All P p xs h.1)
]

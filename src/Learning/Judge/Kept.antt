-- ===== src/Learning/Judge/Kept.antt =====
-- The loop of `judgeFindings` of tools/graph/self-improve.mjs, and what it keeps.
use red_team_agent_orchestra.Common.{
  ◌≡◌, refl, sym, ap, ◌∙◌, Bool, true, false, Bool-cases, inl, inr, ◌&&◌, ◌||◌, List, [], ◌∷◌, ◌++◌,
  append_assoc, or-false, All, All-append, arith, ok, if◌then◌else◌,
}
use red_team_agent_orchestra.Js.{
  Value, undefined, null, bool, num, str, arr, obj, get, read, truthy, same, same-true,
}
use red_team_agent_orchestra.Learning.Firewall.{methodology}
use red_team_agent_orchestra.Learning.Store.{held}
use red_team_agent_orchestra.Learning.Store.Laws.{appended, append-methodology, held-appended}
use red_team_agent_orchestra.Learning.Params.{is_kind}
use red_team_agent_orchestra.Learning.Candidate.{is_text}
use red_team_agent_orchestra.Learning.Judge.{
  fp_signature, has, suppressions, is_marked, suppression, Gate, suppress, confirm, judge_one,
  judge_each, is_suppression,
}

-- What the steps give; none of them fails.
unfoldable pub next : Value → Gate → Gate
next f g =
    let sig = fp_signature f in
    if has g.suppressed sig
    then g
    else if is_marked f
    then suppress sig g (appended methodology (suppression f sig) g.store)
    else confirm f g

judge_one-next : (f : Value) (g : Gate) → judge_one f g ≡ ok (next f g)
unfolding judge_one next
judge_one-next f g =
    rw (append-methodology (suppression f (fp_signature f)) g.store)
      (if_ok _ _ _ (has g.suppressed (fp_signature f)) (is_marked f))
  where
    if_ok :
        (x y z : Gate) (a b : Bool)
        → (if a then ok x else if b then ok y else ok z) ≡ ok (if a then x else if b then y else z)
    if_ok x y z true b = refl
    if_ok x y z false true = refl
    if_ok x y z false false = refl

unfoldable pub nexts : List Value → Gate → Gate
nexts [] g = g
nexts (f ∷ fs) g = nexts fs (next f g)

pub judge_each-nexts : (fs : List Value) (g : Gate) → judge_each fs g ≡ ok (nexts fs g)
unfolding judge_each nexts
judge_each-nexts [] g = refl
judge_each-nexts (f ∷ fs) g = rw (judge_one-next f g) (judge_each-nexts fs (next f g))

pub has-append : (xs ys : List Value) (v : Value) → has (xs ++ ys) v ≡ (has xs v || has ys v)
unfolding has
has-append [] ys v = refl
has-append (x ∷ xs) ys v = ground (arith, has-append xs ys v)

suppressions-append :
    (xs ys : List Value) → suppressions (xs ++ ys) ≡ suppressions xs ++ suppressions ys
unfolding suppressions
suppressions-append [] ys = refl
suppressions-append (x ∷ xs) ys = elim (Bool-cases (is_suppression x)) [
  | inl e ↦ rw e (ap (λ z. get x "signature" ∷ z) (suppressions-append xs ys))
  | inr e ↦ rw e (suppressions-append xs ys)
]

same-text : (a b : Value) → same a b ≡ true → is_text b ≡ true → truthy a ≡ true
unfolding truthy is_text
same-text a b h k = let e : a ≡ b = same-true a b h in rw e (text-truthy b k)
  where
    text-truthy : (v : Value) → is_text v ≡ true → truthy v ≡ true
    text-truthy (str s) k = ground arith
    text-truthy undefined k = absurd (cc)
    text-truthy null k = absurd (cc)
    text-truthy (bool b) k = absurd (cc)
    text-truthy (num n) k = absurd (cc)
    text-truthy (arr vs) k = absurd (cc)
    text-truthy (obj ps) k = absurd (cc)

-- What holds of the loop's variables: of the texts, the set has those that the store's suppressions
-- have; it is the set at the start with the new ones; and no false positive is confirmed.
pub record IsKept (sigs : List Value) (g : Gate) : Type 0 where
  pub in_store :
      (q : Value)
      → (is_text q && has (suppressions (held methodology g.store)) q)
        ≡ (is_text q && has g.suppressed q)
  pub grown : g.suppressed ≡ sigs ++ g.newly
  pub unknown : All (λ f. (is_marked f ≡ false) × (has sigs (fp_signature f) ≡ false)) g.confirmed

single-suppression :
    (f sig q : Value)
    → (is_text q && has (suppressions (suppression f sig ∷ [])) q) ≡ (is_text q && has (sig ∷ []) q)
unfolding suppressions suppression is_kind get read same has
single-suppression f sig q = elim (Bool-cases (truthy sig)) [
  | inl t ↦ rw t refl
  | inr t ↦ rw t (ground (arith, same-text sig q, t))
]

suppress-in_store :
    (f sig : Value) (g : Gate) (q : Value)
    → (is_text q && has (suppressions (held methodology g.store)) q)
      ≡ (is_text q && has g.suppressed q)
    → (is_text q
        && has
            (suppressions (held methodology (appended methodology (suppression f sig) g.store)))
            q)
      ≡ (is_text q && has (g.suppressed ++ sig ∷ []) q)
suppress-in_store f sig g q h =
    rw
      (
        held-appended methodology (suppression f sig) g.store,
        suppressions-append (held methodology g.store) (suppression f sig ∷ []),
        has-append (suppressions (held methodology g.store)) (suppressions (suppression f sig ∷ []))
            q,
        has-append g.suppressed (sig ∷ []) q,
      )
      (ground (arith, h, single-suppression f sig q))

fresh :
    (sigs : List Value) (g : Gate) (q : Value)
    → g.suppressed ≡ sigs ++ g.newly
    → has g.suppressed q ≡ false
    → has sigs q ≡ false
fresh sigs g q e h =
    (or-false _ _ (sym (has-append sigs g.newly q) ∙ ap (λ z. has z q) (sym e) ∙ h)).0

next-IsKept : (sigs : List Value) (f : Value) (g : Gate) → IsKept sigs g → IsKept sigs (next f g)
unfolding next
next-IsKept sigs f g h = elim (Bool-cases (has g.suppressed (fp_signature f))) [
  | inl e ↦ rw e h
  | inr e ↦ elim (Bool-cases (is_marked f)) [
    | inl m ↦
        rw (e, m)
          (record {
            in_store = λ q. suppress-in_store f (fp_signature f) g q (h.in_store q);
            grown = rw h.grown (append_assoc sigs g.newly _);
            unknown = h.unknown;
          })
    | inr m ↦
        rw (e, m)
          (record {
            in_store = h.in_store;
            grown = h.grown;
            unknown =
                All-append _ g.confirmed (f ∷ []) h.unknown ((m, fresh sigs g _ h.grown e), tt);
          })
  ]
]

pub nexts-IsKept :
    (sigs : List Value) (fs : List Value) (g : Gate) → IsKept sigs g → IsKept sigs (nexts fs g)
unfolding nexts
nexts-IsKept sigs [] g h = h
nexts-IsKept sigs (f ∷ fs) g h = nexts-IsKept sigs fs (next f g) (next-IsKept sigs f g h)

-- ===== src/Learning/Promotion/Runs.antt =====
-- The distinct run ids of a promotion: `[...new Set(ids)].sort()` in tools/graph/self-improve.mjs.
use red_team_agent_orchestra.Common.{
  String, ◌≡◌, refl, ap, ◌∙◌, false, Bool-cases, inl, inr, ◌&&◌, ◌||◌, not, List, [], ◌∷◌, keep,
  includes, ◌==◌, eq_iff, eq_refl, arith,
}
use red_team_agent_orchestra.Learning.Candidate.{distinct}
use red_team_agent_orchestra.Learning.Promotion.{precedes, insort, sort}

-- no text of the list is there twice
abbrev pub IsOnce : List String → Type 0
IsOnce [] = Unit
IsOnce (s ∷ ss) = (includes ss s ≡ false) × IsOnce ss

includes-keep :
    (s t : String) (ss : List String)
    → includes (keep (λ u. not (u == t)) ss) s ≡ (includes ss s && not (s == t))
includes-keep s t [] = refl
includes-keep s t (u ∷ ss) =
    ground (arith, eq_iff u t, eq_iff u s, eq_iff s t, includes-keep s t ss)

keep-IsOnce : (t : String) (ss : List String) → IsOnce ss → IsOnce (keep (λ u. not (u == t)) ss)
keep-IsOnce t [] h = tt
keep-IsOnce t (s ∷ ss) h = elim (Bool-cases (s == t)) [
  | inl e ↦ rw e (keep-IsOnce t ss h.1)
  | inr e ↦ rw e (rw (includes-keep s t ss, h.0) refl, keep-IsOnce t ss h.1)
]

pub distinct-IsOnce : (ss : List String) → IsOnce (distinct ss)
unfolding distinct
distinct-IsOnce [] = tt
distinct-IsOnce (s ∷ ss) = (
  ground (arith, includes-keep s s (distinct ss), eq_refl s),
  keep-IsOnce s (distinct ss) (distinct-IsOnce ss),
)

includes-insort :
    (s t : String) (ss : List String) → includes (insort t ss) s ≡ (t == s || includes ss s)
unfolding insort
includes-insort s t [] = refl
includes-insort s t (u ∷ ss) = ground (arith, includes-insort s t ss)

insort-IsOnce :
    (s : String) (ss : List String) → includes ss s ≡ false → IsOnce ss → IsOnce (insort s ss)
unfolding insort
insort-IsOnce s [] h k = (refl, tt)
insort-IsOnce s (t ∷ ss) h k = elim (Bool-cases (precedes s t)) [
  | inl e ↦ rw e (h, k)
  | inr e ↦ rw e (
    ground (arith, includes-insort t s ss, eq_iff s t, eq_iff t s, k.0),
    insort-IsOnce s ss (ground arith) k.1,
  )
]

pub includes-sort : (s : String) (ss : List String) → includes (sort ss) s ≡ includes ss s
unfolding sort
includes-sort s [] = refl
includes-sort s (t ∷ ss) =
    includes-insort s t (sort ss) ∙ ap (λ b. t == s || b) (includes-sort s ss)

pub sort-IsOnce : (ss : List String) → IsOnce ss → IsOnce (sort ss)
unfolding sort
sort-IsOnce [] h = tt
sort-IsOnce (s ∷ ss) h = insort-IsOnce s (sort ss) (includes-sort s ss ∙ h.0) (sort-IsOnce ss h.1)

keep-absent :
    (t : String) (ss : List String) → includes ss t ≡ false → keep (λ u. not (u == t)) ss ≡ ss
keep-absent t [] h = refl
keep-absent t (s ∷ ss) h =
    let e : (s == t) ≡ false = ground arith in
    rw e (ap (λ r. s ∷ r) (keep-absent t ss (ground arith)))

pub distinct-once : (ss : List String) → IsOnce ss → distinct ss ≡ ss
unfolding distinct
distinct-once [] h = refl
distinct-once (s ∷ ss) h = rw (distinct-once ss h.1) (ap (λ r. s ∷ r) (keep-absent s ss h.0))

pub includes-distinct : (s : String) (ss : List String) → includes (distinct ss) s ≡ includes ss s
unfolding distinct
includes-distinct s [] = refl
includes-distinct s (t ∷ ss) =
    ground (arith, includes-keep s t (distinct ss), includes-distinct s ss, eq_iff s t, eq_iff t s)

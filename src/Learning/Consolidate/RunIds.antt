-- ===== src/Learning/Consolidate/RunIds.antt =====
-- The runs of a group, as `consolidateMethodology` of tools/graph/self-improve.mjs names them.
use red_team_agent_orchestra.Common.{
  keep-All, ◌≡◌, Bool, false, Bool-cases, not, inl, inr, List, [], ◌∷◌, All, All-mono, keep,
  All-keep, not-true,
}
use red_team_agent_orchestra.Js.{Value, same, same-apart}
use red_team_agent_orchestra.Learning.Promotion.{precedes}
use red_team_agent_orchestra.Learning.Consolidate.{Locale, distinct_runs, insert_run, sort_runs}

-- No run is there twice.
abbrev pub HasNoRepeat : List Value → Type 0
HasNoRepeat [] = Unit
HasNoRepeat (v ∷ vs) = All (λ w. same v w ≡ false) vs × HasNoRepeat vs

keep-HasNoRepeat : (p : Value → Bool) (vs : List Value) → HasNoRepeat vs → HasNoRepeat (keep p vs)
keep-HasNoRepeat p [] h = tt
keep-HasNoRepeat p (v ∷ vs) h = elim (Bool-cases (p v)) [
  | inl e ↦ rw e (keep-All _ p vs h.0, keep-HasNoRepeat p vs h.1)
  | inr e ↦ rw e (keep-HasNoRepeat p vs h.1)
]

distinct_runs-HasNoRepeat : (vs : List Value) → HasNoRepeat (distinct_runs vs)
unfolding distinct_runs
distinct_runs-HasNoRepeat [] = tt
distinct_runs-HasNoRepeat (v ∷ vs) = (
  All-mono (keep (λ w. not (same v w)) (distinct_runs vs)) (λ w h. not-true (same v w) h)
      (All-keep (λ w. not (same v w)) (distinct_runs vs)),
  keep-HasNoRepeat (λ w. not (same v w)) (distinct_runs vs) (distinct_runs-HasNoRepeat vs),
)

distinct_runs-All : (P : Value → Type 0) (vs : List Value) → All P vs → All P (distinct_runs vs)
unfolding distinct_runs
distinct_runs-All P [] h = tt
distinct_runs-All P (v ∷ vs) h =
    (h.0, keep-All P (λ w. not (same v w)) (distinct_runs vs) (distinct_runs-All P vs h.1))

module _ (locale : Locale) where
  insert_run-All :
      (P : Value → Type 0) (v : Value) (vs : List Value)
      → P v
      → All P vs
      → All P (insert_run locale v vs)
  unfolding insert_run
  insert_run-All P v [] p ps = (p, tt)
  insert_run-All P v (w ∷ ws) p ps =
      elim (Bool-cases (precedes (locale.shown v) (locale.shown w))) [
        | inl e ↦ rw e (p, ps)
        | inr e ↦ rw e (ps.0, insert_run-All P v ws p ps.1)
      ]

  sort_runs-All : (P : Value → Type 0) (vs : List Value) → All P vs → All P (sort_runs locale vs)
  unfolding sort_runs
  sort_runs-All P [] ps = tt
  sort_runs-All P (v ∷ vs) ps =
      insert_run-All P v (sort_runs locale vs) ps.0 (sort_runs-All P vs ps.1)

  insert_run-HasNoRepeat :
      (v : Value) (vs : List Value)
      → All (λ w. same v w ≡ false) vs
      → HasNoRepeat vs
      → HasNoRepeat (insert_run locale v vs)
  unfolding insert_run
  insert_run-HasNoRepeat v [] new h = (tt, tt)
  insert_run-HasNoRepeat v (w ∷ ws) new h =
      elim (Bool-cases (precedes (locale.shown v) (locale.shown w))) [
        | inl e ↦ rw e (new, h)
        | inr e ↦ rw e (
          insert_run-All (λ x. same w x ≡ false) v ws (same-apart v w new.0) h.0,
          insert_run-HasNoRepeat v ws new.1 h.1,
        )
      ]

  sort_runs-HasNoRepeat : (vs : List Value) → HasNoRepeat vs → HasNoRepeat (sort_runs locale vs)
  unfolding sort_runs
  sort_runs-HasNoRepeat [] h = tt
  sort_runs-HasNoRepeat (v ∷ vs) h =
      insert_run-HasNoRepeat v (sort_runs locale vs) (sort_runs-All _ vs h.0)
        (sort_runs-HasNoRepeat vs h.1)

  -- The runs of a group, once each and in order, have what its runs have.
  pub runs-All :
      (P : Value → Type 0) (vs : List Value)
      → All P vs
      → All P (sort_runs locale (distinct_runs vs))
  runs-All P vs h = sort_runs-All P (distinct_runs vs) (distinct_runs-All P vs h)

  pub runs-HasNoRepeat : (vs : List Value) → HasNoRepeat (sort_runs locale (distinct_runs vs))
  runs-HasNoRepeat vs = sort_runs-HasNoRepeat (distinct_runs vs) (distinct_runs-HasNoRepeat vs)

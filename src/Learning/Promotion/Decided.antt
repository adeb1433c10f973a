-- ===== src/Learning/Promotion/Decided.antt =====
-- The whole of `promoteLearningCandidate` of tools/graph/self-improve.mjs.
use red_team_agent_orchestra.Common.{
  ℕ, ◌≤◌, String, ◌≡◌, refl, true, false, Bool-cases, ◌⊎◌, inl, inr, List, [], ◌∷◌, length, any,
  All, Any, ltb, arith, Result, ok,
}
use red_team_agent_orchestra.Js.{Value, str, obj, end, get, read}
use red_team_agent_orchestra.Learning.Firewall.{methodology}
use red_team_agent_orchestra.Learning.Store.{Store, held}
use red_team_agent_orchestra.Learning.Store.Laws.{appended, append-methodology, load-methodology}
use red_team_agent_orchestra.Learning.Params.{normalize_learned_params, is_kind, numbers}
use red_team_agent_orchestra.Learning.Candidate.{
  is_valid_learning_candidate, is_valid_promoted_tuning, is_attributed,
}
use red_team_agent_orchestra.Learning.Promotion.{
  Promotion, average, pluck, peers_of, runs_of, tuning, promote, weigh, is_already, required_runs,
  refused, promote_learning_candidate,
}
use red_team_agent_orchestra.Learning.Promotion.Runs.{IsOnce}
use red_team_agent_orchestra.Learning.Promotion.Earned.{
  Supports, runs-supported, runs-IsOnce, Supports-attributed,
}
use red_team_agent_orchestra.Learning.Promotion.Applied.{tuning-valid}

params-tuning :
    (c : Value) (runs : List String) (quality : Value)
    → get (tuning c runs quality) "params" ≡ normalize_learned_params (obj end) (get c "params")
unfolding tuning get read
params-tuning c runs quality = refl

module _ (sha256 : String → String) (c : Value) (least : ℕ) (s : Store) where
  -- The evidence on which a promotion stands, and what it did to the store.
  pub record IsEarned (p : Promotion) : Type 0 where
    pub valid : is_valid_learning_candidate sha256 c ≡ true
    pub at_least_two : 2 ≤ length p.run_ids
    pub at_least_asked : least ≤ length p.run_ids
    pub once : IsOnce p.run_ids
    pub supported : All (λ r. Any (Supports sha256 c r) (held methodology s)) p.run_ids
    pub written : Value
    pub stored : p.store ≡ appended methodology written s
    pub accepted : is_valid_promoted_tuning sha256 written ≡ true
    pub proposed : get written "params" ≡ normalize_learned_params (obj end) (get c "params")

  -- There is an answer, and it is a promotion on evidence or leaves the store.
  abbrev pub IsAnswered : Result Promotion → Type 0
  IsAnswered m =
      (p : Promotion) × (m ≡ ok p)
      × (((p.promoted ≡ true) × IsEarned p) ⊎ ((p.promoted ≡ false) × (p.store ≡ s)))

  refused-answer : (why : String) (runs : List String) → IsAnswered (ok (refused why runs s))
  refused-answer why runs = (refused why runs s, refl, inr (refl, refl))

  All-attributed :
      (entries : List Value) (rs : List String)
      → All (λ r. Any (Supports sha256 c r) entries) rs
      → All (λ r. is_attributed (str r) ≡ true) rs
  All-attributed entries [] h = tt
  All-attributed entries (r ∷ rs) h =
      (Supports-attributed sha256 c entries r h.0, All-attributed entries rs h.1)

  promote-answer :
      is_valid_learning_candidate sha256 c ≡ true
      → required_runs least ≤ length (runs_of (peers_of sha256 c (held methodology s)))
      → IsAnswered (
          promote sha256 c
            (peers_of sha256 c (held methodology s))
            (runs_of (peers_of sha256 c (held methodology s)))
            s)
  unfolding promote
  promote-answer h enough =
      let entries = held methodology s in
      let runs = runs_of (peers_of sha256 c entries) in
      let quality : Value = average (numbers (pluck "quality" (peers_of sha256 c entries))) in
      let backed = runs-supported sha256 c entries in
      (
        record {
          promoted = true;
          reason = "";
          run_ids = runs;
          params = normalize_learned_params (obj end) (get c "params");
          store = appended methodology (tuning c runs quality) s;
        },
        rw (append-methodology (tuning c runs quality) s) refl,
        inl (
          refl,
          record {
            valid = h;
            at_least_two = ground arith;
            at_least_asked = ground arith;
            once = runs-IsOnce sha256 c entries;
            supported = backed;
            written = tuning c runs quality;
            stored = refl;
            accepted =
                tuning-valid sha256 c runs quality h (runs-IsOnce sha256 c entries)
                  (All-attributed entries runs backed) (ground arith);
            proposed = params-tuning c runs quality;
          },
        ),
      )

  weigh-answer :
      is_valid_learning_candidate sha256 c ≡ true
      → IsAnswered (weigh sha256 c least s (held methodology s))
  unfolding weigh
  weigh-answer h =
      let entries = held methodology s in
      let runs = runs_of (peers_of sha256 c entries) in
      elim (Bool-cases (ltb (length runs) (required_runs least))) [
        | inl e ↦ rw e (refused-answer _ _)
        | inr e ↦ elim (Bool-cases (any (is_already sha256 c runs) entries)) [
          | inl a ↦ rw (e, a) (refused-answer _ _)
          | inr a ↦ rw (e, a) (promote-answer h (ground arith))
        ]
      ]

  pub promote-IsEarned :
      (p : Promotion) × (promote_learning_candidate sha256 c least s ≡ ok p)
      × (((p.promoted ≡ true) × IsEarned p) ⊎ ((p.promoted ≡ false) × (p.store ≡ s)))
  unfolding promote_learning_candidate
  promote-IsEarned = elim (Bool-cases (is_kind "learning_candidate" c)) [
    | inl e ↦ elim (Bool-cases (is_valid_learning_candidate sha256 c)) [
      | inl v ↦ rw (e, v, load-methodology s) (weigh-answer v)
      | inr v ↦ rw (e, v) (refused-answer _ _)
    ]
    | inr e ↦ rw e (refused-answer _ _)
  ]

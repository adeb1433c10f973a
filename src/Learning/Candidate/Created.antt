-- ===== src/Learning/Candidate/Created.antt =====
-- The candidates that `createLearningCandidate` of tools/graph/self-improve.mjs makes, at the gate of
-- `isValidLearningCandidate`.
use red_team_agent_orchestra.Common.{
  ℕ, ◌%◌, ◌≤◌, String, ◌≡◌, refl, true, false, Bool-cases, inl, inr, ◌==◌, eq_refl, arith,
  if◌then◌else◌,
}
use red_team_agent_orchestra.Js.{Value, obj, end, get, read, same}
use red_team_agent_orchestra.Graph.Routing.{num_or}
use red_team_agent_orchestra.Learning.Params.{
  clamp, revisions_min, revisions_max, threshold_min, threshold_max, params_of,
  normalize_learned_params, has_valid_learned_params, is_kind,
}
use red_team_agent_orchestra.Learning.Params.Bounds.{params_of-valid, clamp-bounds, clamp-inside}
use red_team_agent_orchestra.Learning.Candidate.{
  create_learning_candidate, is_valid_learning_candidate, candidate_fingerprint, is_text, text_of,
  text_or_default, unattributed,
}

pub normalize-params_of :
    (base : Value) (m q : ℕ)
    → m ≤ revisions_max
    → threshold_min ≤ q
    → q ≤ threshold_max
    → normalize_learned_params base (params_of m q) ≡ params_of m q
unfolding normalize_learned_params get read num_or
normalize-params_of base m q hm ql qh =
    rw
      (
        clamp-inside m revisions_min revisions_max (omega arith) hm,
        clamp-inside q threshold_min threshold_max ql qh,
      )
      refl

pub normalize-again :
    (other base proposed : Value)
    → normalize_learned_params other (normalize_learned_params base proposed)
      ≡ normalize_learned_params base proposed
normalize-again other base proposed =
    let m = num_or (num_or 200 (get base "max_revisions")) (get proposed "max_revisions") in
    let q = num_or (num_or 85 (get base "quality_threshold")) (get proposed "quality_threshold") in
    let ms = clamp-bounds m revisions_min revisions_max (omega arith) in
    let qs = clamp-bounds q threshold_min threshold_max (omega arith) in
    unfold normalize_learned_params in normalize-params_of other _ _ ms.1 qs.0 qs.1

clamp-whole : (m : ℕ) → m % 100 ≡ 0 → clamp m revisions_min revisions_max % 100 ≡ 0
unfolding clamp
clamp-whole m h = ground (arith, h)

pub normalize-valid :
    (base proposed : Value)
    → num_or (num_or 200 (get base "max_revisions")) (get proposed "max_revisions") % 100 ≡ 0
    → has_valid_learned_params (normalize_learned_params base proposed) ≡ true
unfolding normalize_learned_params
normalize-valid base proposed h =
    let m = num_or (num_or 200 (get base "max_revisions")) (get proposed "max_revisions") in
    let q = num_or (num_or 85 (get base "quality_threshold")) (get proposed "quality_threshold") in
    let ms = clamp-bounds m revisions_min revisions_max (omega arith) in
    let qs = clamp-bounds q threshold_min threshold_max (omega arith) in
    params_of-valid _ _ ms.1 (clamp-whole m h) qs.0 qs.1

default-text : (a d : String) → (d == "") ≡ false → ((if a == "" then d else a) == "") ≡ false
default-text a d h = elim (Bool-cases (a == "")) [ inl e ↦ rw e h | inr e ↦ rw (e, e) refl ]

-- A candidate made of any base and any proposal, for any run and agent, is valid if the number of
-- revisions that the proposal, or else the base, asks for is whole.
pub create-valid :
    (sha256 : String → String) (base proposed : Value) (run agent : String)
    (quality signals : Value)
    → num_or (num_or 200 (get base "max_revisions")) (get proposed "max_revisions") % 100 ≡ 0
    → is_valid_learning_candidate sha256
        (create_learning_candidate sha256 base proposed run agent quality signals)
      ≡ true
unfolding is_valid_learning_candidate create_learning_candidate get read is_kind same is_text
    text_of
create-valid sha256 base proposed run agent quality signals h =
    let valid : has_valid_learned_params (normalize_learned_params base proposed) ≡ true =
      normalize-valid base proposed h in
    rw (valid, normalize-again (obj end) base proposed)
      (ground (
        arith,
        default-text agent "orchestrator" refl,
        default-text run unattributed refl,
        eq_refl (
            candidate_fingerprint sha256 (text_or_default agent "orchestrator")
              (normalize_learned_params base proposed)),
      ))

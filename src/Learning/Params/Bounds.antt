-- ===== src/Learning/Params/Bounds.antt =====
-- `tuneParams` and `normalizeLearnedParams` of tools/graph/self-improve.mjs, against PARAM_BOUNDS.
use red_team_agent_orchestra.Common.{ℕ, ◌%◌, ◌≤◌, ◌≡◌, refl, ◌∙◌, true, List, eq_refl, arith}
use red_team_agent_orchestra.Js.{Value, num, get, read, spread, read-write, stringify}
use red_team_agent_orchestra.Graph.Routing.{num_or}
use red_team_agent_orchestra.Learning.Params.{
  clamp, revisions_min, revisions_max, threshold_min, threshold_max, params_of,
  normalize_learned_params, has_valid_learned_params, has_bounds_keys, tune_params, tuned_revisions,
  tuned_threshold, recent,
}

-- The two numbers of a parameter object, within their bounds.
pub record IsBounded (params : Value) : Type 0 where
  pub revisions : ℕ
  pub threshold : ℕ
  pub revisions_eq : get params "max_revisions" ≡ num revisions
  pub threshold_eq : get params "quality_threshold" ≡ num threshold
  pub revisions_le : revisions ≤ revisions_max
  pub threshold_ge : threshold_min ≤ threshold
  pub threshold_le : threshold ≤ threshold_max

pub clamp-bounds : (v lo hi : ℕ) → lo ≤ hi → (lo ≤ clamp v lo hi) × (clamp v lo hi ≤ hi)
unfolding clamp
clamp-bounds v lo hi h = (ground arith, ground arith)

pub clamp-inside : (v lo hi : ℕ) → lo ≤ v → v ≤ hi → clamp v lo hi ≡ v
unfolding clamp
clamp-inside v lo hi h k = ground arith

pub get-params_of :
    (m q : ℕ)
    → (get (params_of m q) "max_revisions" ≡ num m)
      × (get (params_of m q) "quality_threshold" ≡ num q)
unfolding get read
get-params_of m q = (refl, refl)

pub params_of-IsBounded :
    (m q : ℕ)
    → IsBounded
        (params_of (clamp m revisions_min revisions_max) (clamp q threshold_min threshold_max))
params_of-IsBounded m q =
    let ms = clamp-bounds m revisions_min revisions_max (omega arith) in
    let qs = clamp-bounds q threshold_min threshold_max (omega arith) in
    record {
      revisions = clamp m revisions_min revisions_max;
      threshold = clamp q threshold_min threshold_max;
      revisions_eq = (get-params_of _ _).0;
      threshold_eq = (get-params_of _ _).1;
      revisions_le = ms.1;
      threshold_ge = qs.0;
      threshold_le = qs.1;
    }

pub normalize-IsBounded :
    (base proposed : Value) → IsBounded (normalize_learned_params base proposed)
unfolding normalize_learned_params
normalize-IsBounded base proposed = params_of-IsBounded _ _

-- Whatever the base, the signals and the stored entries are, the tuned parameters are in their
-- bounds: at most 4 revisions, and a threshold from 0.5 to 0.95.
pub tune_params-IsBounded :
    (base signals : Value) (entries : List Value) → IsBounded (tune_params base signals entries)
unfolding tune_params get
tune_params-IsBounded base signals entries =
    let m =
      tuned_revisions (num_or 200 (get base "max_revisions"))
        (num_or 100 (get signals "evidenceRatio")) in
    let q = tuned_threshold (num_or 85 (get base "quality_threshold")) (recent entries) in
    let ms = clamp-bounds m revisions_min revisions_max (omega arith) in
    let qs = clamp-bounds q threshold_min threshold_max (omega arith) in
    record {
      revisions = clamp m revisions_min revisions_max;
      threshold = clamp q threshold_min threshold_max;
      revisions_eq =
          read-write _ "quality_threshold" "max_revisions" _
          ∙ read-write (spread base) "max_revisions" "max_revisions" _;
      threshold_eq = read-write _ "quality_threshold" "quality_threshold" _;
      revisions_le = ms.1;
      threshold_ge = qs.0;
      threshold_le = qs.1;
    }

-- What a whole number of revisions and a threshold in their bounds give.
pub params_of-valid :
    (m q : ℕ)
    → m ≤ revisions_max
    → m % 100 ≡ 0
    → threshold_min ≤ q
    → q ≤ threshold_max
    → has_valid_learned_params (params_of m q) ≡ true
unfolding has_valid_learned_params normalize_learned_params read get num_or has_bounds_keys
params_of-valid m q hm hi ql qh =
    rw
      (
        clamp-inside m revisions_min revisions_max (omega arith) hm,
        clamp-inside q threshold_min threshold_max ql qh,
        eq_refl (stringify (params_of m q)),
      )
      (ground arith)

-- ===== src/Learning/Promotion/Applied.antt =====
-- What a promotion writes, and what `applyLearnedParams` of tools/graph/self-improve.mjs makes of it.
use red_team_agent_orchestra.Common.{
  ℕ, ◌≤◌, ◌%◌, String, ◌≡◌, refl, ap, ◌∙◌, Bool, true, Bool-cases, some, inl, inr, List, [], ◌∷◌,
  ◌++◌, map, length, keep, All, arith,
}
use red_team_agent_orchestra.Js.{
  Value, undefined, null, num, str, bool, arr, obj, Props, end, get, read, spread, elements,
  elements-of_list, same, read-write,
}
use red_team_agent_orchestra.Graph.Routing.{num_or}
use red_team_agent_orchestra.Learning.Params.{
  normalize_learned_params, has_valid_learned_params, is_kind, is_integer, within, params_of,
  revisions_min, revisions_max, threshold_min, threshold_max,
}
use red_team_agent_orchestra.Learning.Params.Bounds.{clamp-inside, params_of-valid}
use red_team_agent_orchestra.Learning.Candidate.{
  is_valid_learning_candidate, is_valid_promoted_tuning, attributed_runs, is_attributed,
}
use red_team_agent_orchestra.Learning.Promotion.{tuning, latest, overlay}
use red_team_agent_orchestra.Learning.Promotion.Runs.{IsOnce, distinct-once}
use red_team_agent_orchestra.Learning.Promotion.Earned.{kept-texts}

-- The two numbers that valid parameters have.
pub record IsProper (params : Value) : Type 0 where
  pub revisions : ℕ
  pub threshold : ℕ
  pub revisions_eq : get params "max_revisions" ≡ num revisions
  pub threshold_eq : get params "quality_threshold" ≡ num threshold
  pub revisions_le : revisions ≤ revisions_max
  pub whole : revisions % 100 ≡ 0
  pub threshold_ge : threshold_min ≤ threshold
  pub threshold_le : threshold ≤ threshold_max

within-num :
    (lo hi : ℕ) (v : Value) → within lo hi v ≡ true → (n : ℕ) × (v ≡ num n) × (lo ≤ n) × (n ≤ hi)
within-num lo hi (num n) h = (n, refl, ground arith, ground arith)
within-num lo hi undefined h = absurd (cc)
within-num lo hi null h = absurd (cc)
within-num lo hi (str s) h = absurd (cc)
within-num lo hi (bool b) h = absurd (cc)
within-num lo hi (arr vs) h = absurd (cc)
within-num lo hi (obj ps) h = absurd (cc)

pub valid-IsProper : (params : Value) → has_valid_learned_params params ≡ true → IsProper params
unfolding has_valid_learned_params get
valid-IsProper (obj ps) h =
    let ms : within revisions_min revisions_max (read ps "max_revisions") ≡ true = ground arith in
    let is : is_integer (read ps "max_revisions") ≡ true = ground arith in
    let qs : within threshold_min threshold_max (read ps "quality_threshold") ≡ true =
      ground arith in
    let (m, em, _, hm) = within-num _ _ _ ms in
    let (q, eq, ql, qh) = within-num _ _ _ qs in
    let w : m % 100 ≡ 0 = ground (arith, rw em at is) in
    record {
      revisions = m;
      threshold = q;
      revisions_eq = em;
      threshold_eq = eq;
      revisions_le = hm;
      whole = w;
      threshold_ge = ql;
      threshold_le = qh;
    }
valid-IsProper undefined h = absurd (cc)
valid-IsProper null h = absurd (cc)
valid-IsProper (str s) h = absurd (cc)
valid-IsProper (bool b) h = absurd (cc)
valid-IsProper (num n) h = absurd (cc)
valid-IsProper (arr vs) h = absurd (cc)

-- Parameters that are valid stand when they are normalized, over any base.
pub normalize-proper :
    (base params : Value) (p : IsProper params)
    → normalize_learned_params base params ≡ params_of p.revisions p.threshold
unfolding normalize_learned_params num_or
normalize-proper base params p =
    rw
      (
        p.revisions_eq,
        p.threshold_eq,
        clamp-inside p.revisions revisions_min revisions_max (omega arith) p.revisions_le,
        clamp-inside p.threshold threshold_min threshold_max p.threshold_ge p.threshold_le,
      )
      refl

pub valid-params :
    (sha256 : String → String) (c : Value)
    → is_valid_learning_candidate sha256 c ≡ true
    → has_valid_learned_params (get c "params") ≡ true
unfolding is_valid_learning_candidate
valid-params sha256 c h = ground arith

tuned-runs :
    (c : Value) (runs : List String) (quality : Value)
    → elements (get (tuning c runs quality) "run_ids") ≡ map str runs
unfolding tuning get read
tuned-runs c runs quality = elements-of_list (map str runs)

length-map : (ss : List String) → length (map str ss) ≡ length ss
length-map [] = refl
length-map (s ∷ ss) = omega (arith, length-map ss)

tuned-attributed :
    (c : Value) (runs : List String) (quality : Value)
    → IsOnce runs
    → All (λ r. is_attributed (str r) ≡ true) runs
    → attributed_runs (tuning c runs quality) ≡ runs
unfolding attributed_runs
tuned-attributed c runs quality once attributed =
    rw (tuned-runs c runs quality, kept-texts runs attributed) (distinct-once runs once)

-- The tuning written for a valid candidate is valid.
pub tuning-valid :
    (sha256 : String → String) (c : Value) (runs : List String) (quality : Value)
    → is_valid_learning_candidate sha256 c ≡ true
    → IsOnce runs
    → All (λ r. is_attributed (str r) ≡ true) runs
    → 2 ≤ length runs
    → is_valid_promoted_tuning sha256 (tuning c runs quality) ≡ true
unfolding is_valid_promoted_tuning is_valid_learning_candidate tuning get read is_kind same
tuning-valid sha256 c runs quality h once attributed enough =
    let p = valid-IsProper (get c "params") (valid-params sha256 c h) in
    let e = normalize-proper (obj end) (get c "params") p in
    let v : has_valid_learned_params (normalize_learned_params (obj end) (get c "params")) ≡ true =
      rw e (params_of-valid _ _ p.revisions_le p.whole p.threshold_ge p.threshold_le) in
    let r = tuned-attributed c runs quality once attributed in
    let l = ap length (tuned-runs c runs quality) ∙ length-map runs in
    rw (r, l) (ground (arith, v, h, enough))

pub latest-last : (es : List Value) (e : Value) → latest (es ++ e ∷ []) ≡ some e
latest-last [] e = refl
latest-last (x ∷ []) e = refl
latest-last (x ∷ y ∷ es) e = latest-last (y ∷ es) e

pub keep-append :
    (p : Value → Bool) (es : List Value) (e : Value)
    → p e ≡ true
    → keep p (es ++ e ∷ []) ≡ keep p es ++ e ∷ []
keep-append p [] e h = rw h refl
keep-append p (x ∷ es) e h = elim (Bool-cases (p x)) [
  | inl k ↦ rw k (ap (λ z. x ∷ z) (keep-append p es e h))
  | inr k ↦ rw k (keep-append p es e h)
]

pub overlaid :
    (base : Props) (m q : ℕ)
    → (get (obj (overlay base (spread (params_of m q)))) "max_revisions" ≡ num m)
      × (get (obj (overlay base (spread (params_of m q)))) "quality_threshold" ≡ num q)
unfolding overlay spread get
overlaid base m q = (
  read-write _ "quality_threshold" "max_revisions" _
      ∙ read-write base "max_revisions" "max_revisions" _,
  read-write _ "quality_threshold" "quality_threshold" _,
)

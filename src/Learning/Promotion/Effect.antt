-- ===== src/Learning/Promotion/Effect.antt =====
-- `applyLearnedParams` of tools/graph/self-improve.mjs on any store, and after a promotion.
use red_team_agent_orchestra.Common.{
  ℕ, String, ◌≡◌, refl, sym, ap, ◌∙◌, true, Option, none, some, ◌⊎◌, inl, inr, keep, arith, ok,
}
use red_team_agent_orchestra.Js.{Value, obj, end, get, spread}
use red_team_agent_orchestra.Learning.Firewall.{methodology}
use red_team_agent_orchestra.Learning.Store.{Store, held}
use red_team_agent_orchestra.Learning.Store.Laws.{appended, held-appended, load-methodology}
use red_team_agent_orchestra.Learning.Params.{
  normalize_learned_params, params_of, clamp, revisions_min, revisions_max, threshold_min,
  threshold_max,
}
use red_team_agent_orchestra.Learning.Params.Bounds.{IsBounded, clamp-bounds}
use red_team_agent_orchestra.Graph.Routing.{num_or}
use red_team_agent_orchestra.Learning.Candidate.Created.{normalize-params_of}
use red_team_agent_orchestra.Learning.Candidate.{is_valid_promoted_tuning}
use red_team_agent_orchestra.Learning.Promotion.{
  Promotion, latest, promote_learning_candidate, apply_learned_params, overlay, merge_latest,
}
use red_team_agent_orchestra.Learning.Promotion.Applied.{
  latest-last, keep-append, overlaid, IsProper, valid-IsProper, valid-params, normalize-proper,
}
use red_team_agent_orchestra.Learning.Promotion.Decided.{IsEarned, IsAnswered, promote-IsEarned}

apply_lem :
    (sha256 : String → String) (base : Value) (s : Store)
    → apply_learned_params sha256 base s
      ≡ ok
          (merge_latest base (latest (keep (is_valid_promoted_tuning sha256) (held methodology s))))
unfolding apply_learned_params
apply_lem sha256 base s = rw (load-methodology s) refl

merge-IsBounded :
    (base : Value) (o : Option Value)
    → (merge_latest base o ≡ obj (spread base)) ⊎ IsBounded (merge_latest base o)
unfolding normalize_learned_params
merge-IsBounded base none = inl refl
merge-IsBounded base (some t) =
    let m : ℕ =
      num_or (num_or 200 (get base "max_revisions")) (get (get t "params") "max_revisions") in
    let q : ℕ =
      num_or (num_or 85 (get base "quality_threshold"))
        (get (get t "params") "quality_threshold") in
    let ms = clamp-bounds m revisions_min revisions_max (omega arith) in
    let qs = clamp-bounds q threshold_min threshold_max (omega arith) in
    let o =
      overlaid (spread base) (clamp m revisions_min revisions_max)
        (clamp q threshold_min threshold_max) in
    inr (record {
      revisions = clamp m revisions_min revisions_max;
      threshold = clamp q threshold_min threshold_max;
      revisions_eq = o.0;
      threshold_eq = o.1;
      revisions_le = ms.1;
      threshold_ge = qs.0;
      threshold_le = qs.1;
    })

-- Learned parameters are applied without error, whatever the store holds; the result is the base's
-- own properties, or it has at most 4 revisions and a threshold from 0.5 to 0.95.
pub apply-IsBounded :
    (sha256 : String → String) (base : Value) (s : Store)
    → (v : Value) × (apply_learned_params sha256 base s ≡ ok v)
      × ((v ≡ obj (spread base)) ⊎ IsBounded v)
apply-IsBounded sha256 base s = (_, apply_lem sha256 base s, merge-IsBounded base _)

merge-written :
    (sha256 : String → String) (base c written : Value) (s : Store)
    → IsProper (get c "params")
    → is_valid_promoted_tuning sha256 written ≡ true
    → get written "params" ≡ normalize_learned_params (obj end) (get c "params")
    → (v : Value) × (apply_learned_params sha256 base (appended methodology written s) ≡ ok v)
      × (get v "max_revisions" ≡ get (get c "params") "max_revisions")
      × (get v "quality_threshold" ≡ get (get c "params") "quality_threshold")
merge-written sha256 base c written s p accepted is =
    let entries = held methodology s in
    let latest_is : latest (
          keep (is_valid_promoted_tuning sha256)
            (held methodology (appended methodology written s)))
        ≡ some written =
      ap (λ es. latest (keep (is_valid_promoted_tuning sha256) es))
        (held-appended methodology written s)
      ∙ ap latest (keep-append (is_valid_promoted_tuning sha256) entries written accepted)
      ∙ latest-last (keep (is_valid_promoted_tuning sha256) entries) written in
    let params_is : normalize_learned_params base (get written "params")
        ≡ params_of p.revisions p.threshold =
      ap (normalize_learned_params base) (is ∙ normalize-proper (obj end) (get c "params") p)
      ∙ normalize-params_of base _ _ p.revisions_le p.threshold_ge p.threshold_le in
    let o = overlaid (spread base) p.revisions p.threshold in
    (
      obj (overlay (spread base) (spread (params_of p.revisions p.threshold))),
      apply_lem sha256 base (appended methodology written s)
          ∙ ap (λ o. ok (merge_latest base o)) latest_is
          ∙ ap (λ v. ok (obj (overlay (spread base) (spread v)))) params_is,
      o.0 ∙ sym p.revisions_eq,
      o.1 ∙ sym p.threshold_eq,
    )

promoted-IsEarned :
    (sha256 : String → String) (c : Value) (least : ℕ) (s : Store) (p : Promotion)
    → promote_learning_candidate sha256 c least s ≡ ok p
    → p.promoted ≡ true
    → IsEarned sha256 c least s p
promoted-IsEarned sha256 c least s p h is_promoted = by_answer (promote-IsEarned sha256 c least s)
  where
    by_answer :
        IsAnswered sha256 c least s (promote_learning_candidate sha256 c least s)
        → IsEarned sha256 c least s p
    by_answer (q, e, inl (t, is)) = let same : q ≡ p = cc in rw same at is
    by_answer (q, e, inr (f, is)) = let same : q ≡ p = cc in absurd (cc)

-- After a promotion, the next run's parameters, over any base, have the number of revisions and the
-- threshold of the promoted candidate.
pub promote-applied :
    (sha256 : String → String) (base c : Value) (least : ℕ) (s : Store) (p : Promotion)
    → promote_learning_candidate sha256 c least s ≡ ok p
    → p.promoted ≡ true
    → (v : Value) × (apply_learned_params sha256 base p.store ≡ ok v)
      × (get v "max_revisions" ≡ get (get c "params") "max_revisions")
      × (get v "quality_threshold" ≡ get (get c "params") "quality_threshold")
promote-applied sha256 base c least s p h is_promoted =
    let earned = promoted-IsEarned sha256 c least s p h is_promoted in
    let (v, applied, a, b) =
      merge-written sha256 base c earned.written s
        (valid-IsProper (get c "params") (valid-params sha256 c earned.valid)) earned.accepted
        earned.proposed in
    (v, ap (apply_learned_params sha256 base) earned.stored ∙ applied, a, b)

-- ===== src/Examples/Learned.antt =====
-- Learning, on a store with two runs' candidates.
use red_team_agent_orchestra.Common.{
  String, ◌≡◌, refl, true, false, ◌⊎◌, List, [], ◌∷◌, lookup, insert, Result, ok,
}
use red_team_agent_orchestra.Js.{
  Value, num, str, bool, obj, arr, end, prop, get, read, write, spread, truthy, or_else, same,
  stringify, items, elements, of_list, cons, nil,
}
use red_team_agent_orchestra.Js.Text.{split}
use red_team_agent_orchestra.Graph.Routing.{num_or}
use red_team_agent_orchestra.Learning.Firewall.{
  methodology, assert_methodology_namespace, top, forward_slashes,
}
use red_team_agent_orchestra.Learning.Store.{Store, held, load, append, seeded, rollback_last}
use red_team_agent_orchestra.Learning.Store.{copied}
use red_team_agent_orchestra.Learning.Store.Laws.{
  grown, start, IsFirewalled, reached-IsFirewalled, IsSame, appends, rollbacks, rollbacks-appends,
  appended,
}
use red_team_agent_orchestra.Learning.Params.{
  normalize_learned_params, has_valid_learned_params, clamp, has_bounds_keys, is_kind, tune_params,
  params_of,
}
use red_team_agent_orchestra.Learning.Params.Bounds.{IsBounded, tune_params-IsBounded}
use red_team_agent_orchestra.Learning.Candidate.{
  is_text, text_of, is_attributed, distinct, candidate_fingerprint, is_valid_learning_candidate,
  attributed_runs, is_valid_promoted_tuning, create_learning_candidate, normalize_signals,
  is_severity,
}
use red_team_agent_orchestra.Learning.Candidate.Created.{create-valid}
use red_team_agent_orchestra.Learning.Promotion.{
  Promotion, precedes, insort, sort, tuning, overlay, is_peer, peers_of, runs_of, is_already,
  promote, weigh, promote_learning_candidate, apply_learned_params,
}
use red_team_agent_orchestra.Learning.Promotion.Effect.{apply-IsBounded, promote-applied}
use red_team_agent_orchestra.Common.{All, ◌++◌}
use red_team_agent_orchestra.Learning.Consolidate.{Locale, consolidate_methodology}
use red_team_agent_orchestra.Learning.Consolidate.Backed.{IsBacked, consolidate_methodology-adds}
use red_team_agent_orchestra.Learning.Judge.{Gate, judge_findings}
use red_team_agent_orchestra.Learning.Judge.Learns.{IsJudged, judge_findings-IsJudged}

abbrev bare : Store
bare = record { mem = []; history = [] }

abbrev lesson : Value
lesson = obj (prop "kind" (str "lesson") end)

storing : Unit {0}
unfolding lookup insert split top forward_slashes assert_methodology_namespace held load append
    seeded rollback_last appended appends rollbacks copied
storing = tt

reached-IsFirewalled_example : IsFirewalled (appended methodology lesson bare)
unfolding storing
reached-IsFirewalled_example = reached-IsFirewalled (grown methodology lesson (start [] refl) refl)

abbrev two_lessons : List (String × Value)
two_lessons = (methodology, lesson) ∷ ("methodology/azure", lesson) ∷ []

abbrev twice : Store
twice = appended "methodology/azure" lesson (appended methodology lesson bare)

rollbacks-appends_example : IsSame (rollbacks 2 twice) bare
unfolding storing
rollbacks-appends_example = rollbacks-appends two_lessons bare (λ ns. tt) (tt, (tt, tt)) refl

tune_params-IsBounded_example :
    IsBounded (tune_params (params_of 400 95) (obj (prop "evidenceRatio" (num 20) end)) [])
tune_params-IsBounded_example =
    tune_params-IsBounded (params_of 400 95) (obj (prop "evidenceRatio" (num 20) end)) []

-- a digest that keeps the text
abbrev digest : String → String
digest s = s

abbrev proposal : String → Value
proposal run =
    create_learning_candidate digest (obj end) (params_of 300 85) run "recon" (num 70) (obj end)

abbrev observed : Store
observed = record {
  mem = (methodology, proposal "run-b" ∷ proposal "run-a" ∷ []) ∷ [];
  history = [];
}

create-valid_example : is_valid_learning_candidate digest (proposal "run-a") ≡ true
unfolding num_or get read
create-valid_example =
    create-valid digest (obj end) (params_of 300 85) "run-a" "recon" (num 70) (obj end) refl

apply-IsBounded_example :
    (v : Value) × (apply_learned_params digest (params_of 200 85) observed ≡ ok v)
    × ((v ≡ obj (spread (params_of 200 85))) ⊎ IsBounded v)
apply-IsBounded_example = apply-IsBounded digest (params_of 200 85) observed

learning : Unit {0}
unfolding storing get read write spread truthy or_else same stringify items elements of_list num_or
    normalize_learned_params has_valid_learned_params clamp has_bounds_keys is_kind is_text text_of
    is_attributed distinct candidate_fingerprint is_valid_learning_candidate attributed_runs
    is_valid_promoted_tuning create_learning_candidate normalize_signals is_severity precedes insort
    sort tuning overlay is_peer peers_of runs_of is_already promote weigh promote_learning_candidate
    apply_learned_params
learning = tt

abbrev promotion_of : Result Promotion → Promotion → Promotion
promotion_of (ok p) q = p
promotion_of _ q = q

abbrev none_yet : Promotion
none_yet = record {
  promoted = false;
  reason = "";
  run_ids = [];
  params = obj end;
  store = observed;
}

promoted : Promotion
promoted = promotion_of (promote_learning_candidate digest (proposal "run-a") 2 observed) none_yet

promote-applied_example :
    (v : Value) × (apply_learned_params digest (params_of 200 85) promoted.store ≡ ok v)
    × (get v "max_revisions" ≡ get (get (proposal "run-a") "params") "max_revisions")
    × (get v "quality_threshold" ≡ get (get (proposal "run-a") "params") "quality_threshold")
unfolding learning promoted
promote-applied_example =
    promote-applied digest (params_of 200 85) (proposal "run-a") 2 observed promoted refl refl

abbrev findings : Value
findings = arr (
    cons (obj (prop "id" (str "F-1") (prop "false_positive" (bool true) end)))
      (cons (obj (prop "id" (str "F-2") end)) nil))

judge_findings-IsJudged_example :
    (g : Gate) × (judge_findings findings bare ≡ ok g) × IsJudged findings bare g
judge_findings-IsJudged_example = judge_findings-IsJudged findings bare

abbrev lived : String → Value
lived run = obj (
    prop "kind" (str "experience") (
      prop "contract" (str "aef-memory-loop/v1") (
        prop "source_commit" (str "48ee1ef7cd9f2cc91762f4b4c08150d954d443ec") (
          prop "run_id" (str run) (
            prop "agent_id" (str "recon") (
              prop "signature" (str "open-port")
                (prop "outcome" (str "confirmed") (prop "executable" (bool false) end))))))))

abbrev remembered : Store
remembered = record { mem = (methodology, lived "run-b" ∷ lived "run-a" ∷ []) ∷ []; history = [] }

-- The order of the characters' numbers.
abbrev plain_locale : Locale
plain_locale = record { shown = text_of; before = precedes }

consolidate_methodology-adds_example :
    (t : Store) × (ks : List Value) × (consolidate_methodology plain_locale 2 remembered
      ≡ ok (t, ks))
    × (held methodology t ≡ held methodology remembered ++ ks)
    × All (IsBacked (held methodology remembered) 2) ks
consolidate_methodology-adds_example = consolidate_methodology-adds plain_locale 2 remembered

-- ===== src/Examples/Runs.antt =====
-- Runs of the small graph.
use red_team_agent_orchestra.Common.{
  ◌≡◌, refl, true, some, none, [], ◌∷◌, String, ◌≢◌, List, ◌+◌, ◌≤◌, ◌<◌, ◌↔◌, lookup, insert, ok,
  Post,
}
use red_team_agent_orchestra.Js.{get, read, truthy, or_else, num, text_or}
use red_team_agent_orchestra.Js.Text.{trim, is_space, split}
use red_team_agent_orchestra.Graph.Schema.{at, Dict}
use red_team_agent_orchestra.Graph.Reducers.{last}
use red_team_agent_orchestra.Graph.State.{apply_write, write_to, write_by, reducer}
use red_team_agent_orchestra.Graph.Routing.{
  route_active, mode_of, lane_of, assert_active_requirements, assert_requirements,
  assert_none_missing, requirements_for, is_missing, is_blank, get_path, walk,
}
use red_team_agent_orchestra.Graph.Routing.Requirements.{
  IsAttested, assert_active_requirements-IsAttested,
}
use red_team_agent_orchestra.Graph.Runner.{
  Config, index_graph, index_nodes, index_edges, index_conditional, linear_next, go_to, branch_of,
  take_branch, approval, undecided, is_nullish, settle, resolve_active, pause_or, gate_active,
  pass_gate, interrupt_by, do_interrupt, run_handler, run_by, handler_of, move_on, leave,
  do_ordinary, round_at, round_from, round, finish, follow, loop, begin, run_graph,
}
use red_team_agent_orchestra.Graph.Runner.Authorization.{IsGated, round-IsGated}
use red_team_agent_orchestra.Graph.Runner.Resume.{CompletesAs, resume-CompletesAs}
use red_team_agent_orchestra.Graph.Runner.Budget.{IsTallied, final, run_graph_bounded}
use red_team_agent_orchestra.Graph.Runner.Known.{Stands, round-Stands}
use red_team_agent_orchestra.Graph.Runner.Trace.{Leads}
use red_team_agent_orchestra.Graph.State.{apply_results}
use red_team_agent_orchestra.Graph.Routing.{num_or, route_after_evaluate}
use red_team_agent_orchestra.Graph.Handlers.{critique_writes}
use red_team_agent_orchestra.Graph.Handlers.Evaluator.{evaluate-refine}
use red_team_agent_orchestra.Graph.Validator.{
  check_channels, node_ids, check_ids, check_reference, check_references, check_memory_write,
  check_agent, check_dispatch, check_fanout, check_reduce, check_judge, check_interrupt, check_kind,
  check_nodes, check_roster, check_edge, check_edges, start_targets, check_branches,
  check_conditions, structural_errors,
}
use red_team_agent_orchestra.Graph.Validator.Sound.{IsSound, structural_errors-IsSound}
use red_team_agent_orchestra.Common.{keys}
use red_team_agent_orchestra.Common.{◌++◌, Result, throw}
use red_team_agent_orchestra.Js.{elements, items}
use red_team_agent_orchestra.Graph.Schema.{Graph, RosterItem}
use red_team_agent_orchestra.Graph.Specialists.{
  Answer, answered, late, broken, apply_answers, result_of,
}
use red_team_agent_orchestra.Graph.Specialists.Gaps.{gaps_of, apply_answers-gaps}
use red_team_agent_orchestra.Examples.Graphs.{
  kept, gate, small, allowed, scoped, quiet, at_gate, after, stopped,
}

scope_reading : Unit {0}
unfolding lookup insert get read truthy or_else text_or trim is_space split at route_active mode_of
    lane_of assert_active_requirements assert_requirements assert_none_missing requirements_for
    is_missing is_blank get_path walk
scope_reading = tt

running : Unit {0}
unfolding scope_reading last apply_write write_to write_by reducer index_graph index_nodes
    index_edges index_conditional linear_next go_to branch_of take_branch approval undecided
    is_nullish settle resolve_active pause_or gate_active pass_gate interrupt_by do_interrupt
    run_handler run_by handler_of move_on leave do_ordinary round_at round_from round finish follow
    loop begin run_graph
running = tt

abbrev cluster_active : String
cluster_active = "cluster_active"

cluster_active-none : cluster_active ≢ "none"
cluster_active-none e = cc

round-IsGated_example :
    IsGated
      (quiet (some true))
      gate
      "gate"
      "cluster_active"
      at_gate
      (after at_gate (round (quiet (some true)) at_gate))
unfolding running
round-IsGated_example =
    round-IsGated (quiet (some true)) at_gate (after at_gate (round (quiet (some true)) at_gate))
      "gate" gate route_active refl refl refl refl cluster_active-none refl

assert_active_requirements-IsAttested_example :
    (rs : List String) × (requirements_for small.nodes (lane_of "cluster_active").mode ≡ some rs)
    × IsAttested allowed (lane_of "cluster_active") rs
unfolding running
assert_active_requirements-IsAttested_example =
    assert_active_requirements-IsAttested small allowed "cluster_active" refl

waiting : Config (Unit {0})
waiting = stopped (run_graph (quiet none) none (some scoped) tt)

arrived : Config (Unit {0})
arrived = stopped (run_graph (quiet (some true)) none (some scoped) tt)

waiting_named : waiting.current ≢ some ""
unfolding running waiting
waiting_named e = cc

resume-CompletesAs_example :
    CompletesAs arrived
      (run_graph (quiet (some true)) waiting.current (some waiting.state) waiting.world)
unfolding running apply_results waiting arrived
resume-CompletesAs_example =
    resume-CompletesAs (quiet none) true none (some scoped) tt waiting arrived (some "Approve?")
      refl refl waiting_named

run_graph_bounded_example :
    ((final (run_graph (quiet (some true)) none (some scoped) tt)).steps ≤ 10)
    × IsTallied (run_graph (quiet (some true)) none (some scoped) tt)
run_graph_bounded_example = run_graph_bounded (quiet (some true)) none (some scoped) tt

validating : Unit {0}
unfolding running check_channels node_ids check_ids check_reference check_references
    check_memory_write check_agent check_dispatch check_fanout check_reduce check_judge
    check_interrupt check_kind check_nodes check_roster check_edge check_edges start_targets
    check_branches check_conditions structural_errors keys
validating = tt

round-Stands_example :
    Post (Leads (λ d. Stands (quiet (some true)) d.current)) (round (quiet (some true)) at_gate)
unfolding validating
round-Stands_example = round-Stands (quiet (some true)) ("identity-agent" ∷ []) at_gate refl refl

structural_errors-IsSound_example : IsSound small
unfolding validating
structural_errors-IsSound_example = structural_errors-IsSound ("identity-agent" ∷ []) small refl

abbrev tuned : Dict
tuned = ("max_revisions", num 200) ∷ ("quality_threshold", num 85) ∷ []

evaluate-refine_example :
    (next : Dict) × (apply_results small [] (critique_writes 40 []) ≡ ok next)
    × (num_or 0 (at next "revision") ≡ num_or 0 (at [] "revision") + 100)
    × ((route_after_evaluate next tuned ≡ "refine") ↔ (
        (num_or 0 (at [] "revision") + 100 < num_or 0 (at tuned "max_revisions"))
        × (40 < num_or 0 (at tuned "quality_threshold"))))
unfolding running
evaluate-refine_example = evaluate-refine small [] tuned 40 (kept, refl, refl) (kept, refl, refl)

abbrev covered : Graph
covered = record small {
  channels =
      ("scope", kept) ∷ ("coverage_gaps", record { types = "array" ∷ []; reducer = "append" }) ∷ [];
}

abbrev identity : RosterItem
identity = record {
  domain = some "identity";
  agent = some "identity-agent";
  when = none;
  scope_domains = none;
  resource_types = none;
}

abbrev answers : List (RosterItem × Answer)
answers =
    (identity, late)
    ∷ (identity, answered (("scope", allowed) ∷ []))
    ∷ (identity, broken "no token")
    ∷ []

abbrev state_or : Dict → Result Dict → Dict
state_or d (ok s) = s
state_or d (throw e) = d

folded : Dict
folded = state_or [] (apply_answers covered allowed 90000 answers [])

apply_answers-gaps_example :
    elements (at folded "coverage_gaps")
    ≡ elements (at [] "coverage_gaps") ++ gaps_of allowed 90000 answers
unfolding running folded apply_answers result_of apply_results keys elements items
apply_answers-gaps_example =
    apply_answers-gaps covered allowed 90000 answers []
      (record { types = "array" ∷ []; reducer = "append" }, refl, refl) (refl, (refl, (refl, tt)))
      refl

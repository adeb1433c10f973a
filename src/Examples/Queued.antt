-- ===== src/Examples/Queued.antt =====
-- The queue of tasks on a small plan.
use red_team_agent_orchestra.Common.{
  String, ◌++◌, ◌≡◌, refl, some, none, List, [], ◌∷◌, All, Any, map,
}
use red_team_agent_orchestra.Js.{
  Value, null, str, get, items, of_list, elements, read, write, spread, same, text_or, stringify,
}
use red_team_agent_orchestra.Js.Text.{join}
use red_team_agent_orchestra.Js.Regex.{prefix}
use red_team_agent_orchestra.Graph.Reducers.{get_entry, set_entry, values}
use red_team_agent_orchestra.Learning.Candidate.{distinct}
use red_team_agent_orchestra.Learning.Promotion.{precedes}
use red_team_agent_orchestra.Orchestration.Tasks.{
  Task, Setting, insert_key, canonical, scope_hash, make_task_id, replay_from, current_state,
  stamped, new_record, add_one, plan_one, add_all, opened, add_plan, remove, updated, set_status,
  is_ready, insert_task, sort_tasks, first_tasks, next_tasks, all_tasks, first, but_last,
}
use red_team_agent_orchestra.Orchestration.Tasks.Queue.{add_plan-again}
use red_team_agent_orchestra.Orchestration.Tasks.Status.{IsAnswer, set_status-IsAnswer}
use red_team_agent_orchestra.Orchestration.Tasks.Offered.{
  IsOpen, IsWithin, next_tasks-IsReady, set_status-offered,
}

queueing : Unit {0}
unfolding items of_list elements read write spread get same text_or stringify join prefix get_entry
    set_entry values distinct precedes insert_key canonical scope_hash make_task_id replay_from
    current_state stamped new_record add_one plan_one add_all add_plan remove updated set_status
    is_ready insert_task sort_tasks first_tasks next_tasks
queueing = tt

abbrev setting : Setting
setting = record { digest = λ s. "0123456789abcdef"; now = "2026-01-01"; before = precedes }

abbrev task : String → Task
task agent = record { agent = agent; subscription_id = "s1"; check_id = "c1"; scope = null }

abbrev plan : List Task
plan = task "recon" ∷ task "" ∷ task "iam" ∷ []

abbrev log : List Value
log = (add_plan setting plan []).log

ids : map (λ r. get r "task_id") log ≡ str "recon:s1:c1:01234567" ∷ str "iam:s1:c1:01234567" ∷ []
unfolding queueing
ids = refl

canonical_text : canonical (get (new_record setting (task "a")) "agent") ≡ "\"a\""
unfolding queueing
canonical_text = refl

offered :
    map (λ r. get r "task_id") (next_tasks setting (first 1) log) ≡ str "iam:s1:c1:01234567" ∷ []
unfolding queueing
offered = refl

add_plan-again_example :
    (current_state (add_plan setting plan []).log ≡ (add_plan setting plan []).state)
    × (add_plan setting plan (add_plan setting plan []).log ≡ opened (add_plan setting plan []).log)
add_plan-again_example = add_plan-again setting plan []

set_status-IsAnswer_example :
    IsAnswer "iam:s1:c1:01234567" "done" log
      (set_status setting "iam:s1:c1:01234567" "done" ("out.json" ∷ []) none log)
set_status-IsAnswer_example =
    set_status-IsAnswer setting "iam:s1:c1:01234567" "done" ("out.json" ∷ []) none log

next_tasks-IsReady_example :
    All
      (λ r. IsOpen r × Any (λ v. v ≡ r) (values (current_state log)))
      (next_tasks setting (but_last 1) log)
    × IsWithin (but_last 1) (values (current_state log)) (next_tasks setting (but_last 1) log)
next_tasks-IsReady_example = next_tasks-IsReady setting (but_last 1) log

-- The queue after a task of it was throttled.
abbrev throttled : List Value
throttled =
    (add_plan setting plan []).log
    ++ updated setting (new_record setting (task "iam")) "throttled" [] (some "429") ∷ []

set_status-offered_example :
    Any
      (λ r. (get r "task_id" ≡ str "iam:s1:c1:01234567") × (get r "status" ≡ str "throttled"))
      (next_tasks setting all_tasks throttled)
unfolding queueing
set_status-offered_example =
    set_status-offered setting "iam:s1:c1:01234567" "throttled" [] (some "429") log throttled refl
      refl

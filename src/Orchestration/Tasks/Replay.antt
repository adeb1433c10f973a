-- ===== src/Orchestration/Tasks/Replay.antt =====
-- The state that `currentState` of tools/orchestration/manifest.mjs reads back from a log, and the
-- state that adding tasks keeps in memory.
use red_team_agent_orchestra.Common.{
  ◌≡◌, refl, sym, ap, ◌∙◌, Bool-cases, inl, inr, List, [], ◌∷◌, ◌++◌, is_some,
}
use red_team_agent_orchestra.Js.{Value, str, get, write, read}
use red_team_agent_orchestra.Graph.Reducers.{Entries, get_entry, set_entry}
use red_team_agent_orchestra.Orchestration.Tasks.{
  Task, Setting, Batch, replay_from, current_state, stamped, new_record, task_id_of, add_one,
  add_all, opened, add_plan, plan_one, is_malformed,
}

pub replay-append :
    (log : List Value) (r : Value) (state : Entries)
    → replay_from (log ++ r ∷ []) state ≡ set_entry (get r "task_id") r (replay_from log state)
unfolding replay_from
replay-append [] r state = refl
replay-append (q ∷ log) r state = replay-append log r (set_entry (get q "task_id") q state)

-- The state in memory is what the log says.
abbrev pub IsReplay : Batch → Type 0
IsReplay q = q.state ≡ current_state q.log

new_record-id :
    (setting : Setting) (t : Task)
    → get (new_record setting t) "task_id" ≡ str (task_id_of setting t)
unfolding new_record stamped get write read
new_record-id setting t = refl

add_one-IsReplay :
    (setting : Setting) (t : Task) (q : Batch) → IsReplay q → IsReplay (add_one setting t q)
unfolding add_one current_state
add_one-IsReplay setting t q h =
    elim (Bool-cases (is_some (get_entry (str (task_id_of setting t)) q.state))) [
      | inl e ↦ rw e h
      | inr e ↦ rw e (
          ap (λ s. set_entry (str (task_id_of setting t)) (new_record setting t) s) h
          ∙ ap (λ k. set_entry k (new_record setting t) (replay_from q.log []))
              (sym (new_record-id setting t))
          ∙ sym (replay-append q.log (new_record setting t) []))
    ]

plan_one-IsReplay :
    (setting : Setting) (t : Task) (q : Batch) → IsReplay q → IsReplay (plan_one setting t q)
unfolding plan_one
plan_one-IsReplay setting t q h = elim (Bool-cases (is_malformed t)) [
  | inl e ↦ rw e h
  | inr e ↦ rw e (add_one-IsReplay setting t q h)
]

add_all-IsReplay :
    (setting : Setting) (ts : List Task) (q : Batch) → IsReplay q → IsReplay (add_all setting ts q)
unfolding add_all
add_all-IsReplay setting [] q h = h
add_all-IsReplay setting (t ∷ ts) q h =
    add_all-IsReplay setting ts (plan_one setting t q) (plan_one-IsReplay setting t q h)

pub add_plan-IsReplay :
    (setting : Setting) (plan : List Task) (log : List Value) → IsReplay (add_plan setting plan log)
unfolding add_plan
add_plan-IsReplay setting plan log = add_all-IsReplay setting plan (opened log) refl

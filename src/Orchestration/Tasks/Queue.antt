-- ===== src/Orchestration/Tasks/Queue.antt =====
-- Adding a plan a second time: `addOne` and `cmdAddPlan` of tools/orchestration/manifest.mjs.
use mathlib.Core.Path.{subst}
use red_team_agent_orchestra.Common.{
  String, ◌≡◌, refl, sym, ap, ◌∙◌, true, false, Bool-cases, inl, inr, some, List, [], ◌∷◌, All,
  All-mono, is_some, ◌==◌, ◌||◌, eq_iff, eq_refl, arith, if◌then◌else◌,
}
use red_team_agent_orchestra.Js.{Value, undefined, null, bool, num, str, arr, obj, same}
use red_team_agent_orchestra.Graph.Reducers.{Entries, get_entry, set_entry}
use red_team_agent_orchestra.Orchestration.Tasks.{
  Task, Setting, Batch, current_state, new_record, task_id_of, pushed, add_one, add_all, opened,
  add_plan, plan_one, is_malformed,
}
use red_team_agent_orchestra.Orchestration.Tasks.Replay.{add_plan-IsReplay}

-- Reading a key that is a text, after a text was set.
pub get_entry-set :
    (m : Entries) (k j : String) (v : Value)
    → get_entry (str j) (set_entry (str k) v m) ≡ (if k == j then some v else get_entry (str j) m)
unfolding get_entry set_entry same
get_entry-set [] k j v = refl
get_entry-set ((str s, w) ∷ m) k j v =
    ground (arith, eq_iff s k, eq_iff s j, eq_iff k j, get_entry-set m k j v)
get_entry-set ((undefined, w) ∷ m) k j v = get_entry-set m k j v
get_entry-set ((null, w) ∷ m) k j v = get_entry-set m k j v
get_entry-set ((bool true, w) ∷ m) k j v = get_entry-set m k j v
get_entry-set ((bool false, w) ∷ m) k j v = get_entry-set m k j v
get_entry-set ((num n, w) ∷ m) k j v = get_entry-set m k j v
get_entry-set ((arr vs, w) ∷ m) k j v = get_entry-set m k j v
get_entry-set ((obj ps, w) ∷ m) k j v = get_entry-set m k j v

-- The task is no task, or the queue has it.
abbrev IsIn : Setting → Batch → Task → Type 0
IsIn setting q t =
    (is_malformed t || is_some (get_entry (str (task_id_of setting t)) q.state)) ≡ true

module _ (setting : Setting) where
  pushed-IsIn : (s t : Task) (q : Batch) → IsIn setting q t → IsIn setting (pushed setting s q) t
  pushed-IsIn s t q h = ground (
    arith,
    h,
    get_entry-set q.state (task_id_of setting s) (task_id_of setting t) (new_record setting s),
  )

  pushed-there :
      (t : Task) (q : Batch)
      → is_some (get_entry (str (task_id_of setting t)) (pushed setting t q).state) ≡ true
  pushed-there t q = ground (
    arith,
    eq_refl (task_id_of setting t),
    get_entry-set q.state (task_id_of setting t) (task_id_of setting t) (new_record setting t),
  )

  plan_one-IsIn :
      (s t : Task) (q : Batch) → IsIn setting q t → IsIn setting (plan_one setting s q) t
  unfolding plan_one add_one
  plan_one-IsIn s t q h = elim (Bool-cases (is_malformed s)) [
    | inl e ↦ rw e h
    | inr e ↦ elim (Bool-cases (is_some (get_entry (str (task_id_of setting s)) q.state))) [
      | inl f ↦ rw (e, f) h
      | inr f ↦ rw (e, f) (pushed-IsIn s t q h)
    ]
  ]

  plan_one-IsIn_self : (t : Task) (q : Batch) → IsIn setting (plan_one setting t q) t
  unfolding plan_one add_one
  plan_one-IsIn_self t q = elim (Bool-cases (is_malformed t)) [
    | inl e ↦ rw e refl
    | inr e ↦ elim (Bool-cases (is_some (get_entry (str (task_id_of setting t)) q.state))) [
      | inl f ↦ rw (e, f) f
      | inr f ↦ rw (e, f) (pushed-there t q)
    ]
  ]

  add_all-IsIn :
      (ts : List Task) (t : Task) (q : Batch)
      → IsIn setting q t
      → IsIn setting (add_all setting ts q) t
  unfolding add_all
  add_all-IsIn [] t q h = h
  add_all-IsIn (s ∷ ts) t q h = add_all-IsIn ts t (plan_one setting s q) (plan_one-IsIn s t q h)

  add_all-AllIn : (ts : List Task) (q : Batch) → All (IsIn setting (add_all setting ts q)) ts
  unfolding add_all
  add_all-AllIn [] q = tt
  add_all-AllIn (t ∷ ts) q = (
    add_all-IsIn ts t (plan_one setting t q) (plan_one-IsIn_self t q),
    add_all-AllIn ts (plan_one setting t q),
  )

  plan_one-same : (t : Task) (q : Batch) → IsIn setting q t → plan_one setting t q ≡ q
  unfolding plan_one add_one
  plan_one-same t q h = elim (Bool-cases (is_malformed t)) [
    | inl e ↦ rw e refl
    | inr e ↦ rw (e, (rw e at h)) refl
  ]

  add_all-same : (ts : List Task) (q : Batch) → All (IsIn setting q) ts → add_all setting ts q ≡ q
  unfolding add_all
  add_all-same [] q h = refl
  add_all-same (t ∷ ts) q h =
      ap (λ r. add_all setting ts r) (plan_one-same t q h.0) ∙ add_all-same ts q h.1

  -- What is in the batch is in the queue that its log opens.
  reopened-IsIn :
      (plan : List Task) (log : List Value)
      → All (IsIn setting (opened (add_plan setting plan log).log)) plan
  unfolding add_plan
  reopened-IsIn plan log =
      All-mono plan
        (λ t h.
          subst (λ m. (is_malformed t || is_some (get_entry (str (task_id_of setting t)) m)) ≡ true)
            (add_plan-IsReplay setting plan log) h)
        (add_all-AllIn plan (opened log))

-- Adding a plan and reading the log back gives the state that adding kept in memory; adding the plan
-- again to that log adds nothing.
pub add_plan-again :
    (setting : Setting) (plan : List Task) (log : List Value)
    → (current_state (add_plan setting plan log).log ≡ (add_plan setting plan log).state)
      × (add_plan setting plan (add_plan setting plan log).log
          ≡ opened (add_plan setting plan log).log)
unfolding add_plan
add_plan-again setting plan log = (
  sym (add_plan-IsReplay setting plan log),
  add_all-same setting plan (opened (add_plan setting plan log).log)
      (reopened-IsIn setting plan log),
)

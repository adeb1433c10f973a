-- ===== src/Orchestration/Tasks/Offered.antt =====
-- The tasks that `cmdNext` of tools/orchestration/manifest.mjs offers.
use mathlib.Core.Path.{subst}
use red_team_agent_orchestra.Common.{
  keep-All, ℕ, zero, suc, ◌-◌, ◌≤◌, ◌⊎◌, or-split, eq→path, sym, All-mono, All-both, String, ◌≡◌,
  refl, ap, ◌∙◌, Bool, true, Bool-cases, inl, inr, Option, some, List, [], ◌∷◌, All, All-keep, Any,
  Any-mono, includes, length, keep, eq_refl, arith, ok,
}
use red_team_agent_orchestra.Js.{Value, str, get, same, text_or}
use red_team_agent_orchestra.Graph.Reducers.{Entries, get_entry, values}
use red_team_agent_orchestra.Orchestration.Tasks.{
  Setting, current_state, set_status, is_ready, ready_statuses, insert_task, sort_tasks,
  first_tasks, next_tasks, Limit, all_tasks, first, but_last, limited,
}
use red_team_agent_orchestra.Orchestration.Tasks.Queue.{get_entry-set}
use red_team_agent_orchestra.Orchestration.Tasks.Status.{IsAnswer, set_status-IsAnswer}

module _ (setting : Setting) (P : Value → Type 0) where
  insert_task-All :
      (r : Value) (rs : List Value) → P r → All P rs → All P (insert_task setting r rs)
  unfolding insert_task
  insert_task-All r [] p ps = (p, tt)
  insert_task-All r (s ∷ rs) p ps =
      elim (Bool-cases
        (setting.before (text_or "" (get s "task_id")) (text_or "" (get r "task_id")))) [
          | inl e ↦ rw e (ps.0, insert_task-All r rs p ps.1)
          | inr e ↦ rw e (p, ps)
        ]

  sort_tasks-All : (rs : List Value) → All P rs → All P (sort_tasks setting rs)
  unfolding sort_tasks
  sort_tasks-All [] ps = tt
  sort_tasks-All (r ∷ rs) ps =
      insert_task-All r (sort_tasks setting rs) ps.0 (sort_tasks-All rs ps.1)

  insert_task-Any :
      (r : Value) (rs : List Value) → Any P (r ∷ rs) → Any P (insert_task setting r rs)
  unfolding insert_task
  insert_task-Any r [] h = h
  insert_task-Any r (s ∷ rs) h =
      elim (Bool-cases
        (setting.before (text_or "" (get s "task_id")) (text_or "" (get r "task_id")))) [
          | inr e ↦ rw e h
          | inl e ↦ rw e (elim h [
            | inl p ↦ inr (insert_task-Any r rs (inl p))
            | inr (inl p) ↦ inl p
            | inr (inr q) ↦ inr (insert_task-Any r rs (inr q))
          ])
        ]

  sort_tasks-Any : (rs : List Value) → Any P rs → Any P (sort_tasks setting rs)
  unfolding sort_tasks
  sort_tasks-Any [] h = h
  sort_tasks-Any (r ∷ rs) (inl p) = insert_task-Any r (sort_tasks setting rs) (inl p)
  sort_tasks-Any (r ∷ rs) (inr h) =
      insert_task-Any r (sort_tasks setting rs) (inr (sort_tasks-Any rs h))

first_tasks-All :
    (P : Value → Type 0) (n : ℕ) (rs : List Value) → All P rs → All P (first_tasks n rs)
unfolding first_tasks
first_tasks-All P zero rs h = tt
first_tasks-All P (suc n) [] h = tt
first_tasks-All P (suc n) (r ∷ rs) h = (h.0, first_tasks-All P n rs h.1)

first_tasks-length : (n : ℕ) (rs : List Value) → length (first_tasks n rs) ≤ n
unfolding first_tasks
first_tasks-length zero rs = omega arith
first_tasks-length (suc n) [] = omega arith
first_tasks-length (suc n) (r ∷ rs) = omega (arith, first_tasks-length n rs)

keep-Any :
    (P : Value → Type 0) (p : Value → Bool) (rs : List Value)
    → Any (λ r. P r × (p r ≡ true)) rs
    → Any P (keep p rs)
keep-Any P p [] h = h
keep-Any P p (r ∷ rs) (inl h) = rw h.1 (inl h.0)
keep-Any P p (r ∷ rs) (inr h) = elim (Bool-cases (p r)) [
  | inl e ↦ rw e (inr (keep-Any P p rs h))
  | inr e ↦ rw e (keep-Any P p rs h)
]

get_entry-values :
    (k : Value) (m : Entries) (v : Value) → get_entry k m ≡ some v → Any (λ x. x ≡ v) (values m)
unfolding get_entry values
get_entry-values k [] v e = absurd (cc)
get_entry-values k ((j, w) ∷ m) v e = elim (Bool-cases (same j k)) [
  | inl f ↦ let found : some w ≡ some v = rw f at e in inl (cc)
  | inr f ↦ inr (get_entry-values k m v (rw (f, get_entry) at e))
]

-- The record says that its task is pending, failed or throttled.
abbrev pub IsOpen : Value → Type 0
IsOpen r =
    (get r "status" ≡ str "pending")
    ⊎ (get r "status" ≡ str "failed")
    ⊎ (get r "status" ≡ str "throttled")

ready-status :
    (v : Value)
    → includes ready_statuses (text_or "" v) ≡ true
    → (v ≡ str "pending") ⊎ (v ≡ str "failed") ⊎ (v ≡ str "throttled")
unfolding text_or
ready-status (str s) e = elim (or-split _ _ e) [
  | inl a ↦ inl (ap str (sym (eq→path "pending" s a)))
  | inr b ↦ elim (or-split _ _ b) [
    | inl a ↦ inr (inl (ap str (sym (eq→path "failed" s a))))
    | inr c ↦ elim (or-split _ _ c) [
      | inl a ↦ inr (inr (ap str (sym (eq→path "throttled" s a))))
      | inr none_left ↦ absurd (cc)
    ]
  ]
]
ready-status _ e = absurd (cc)

is_ready-IsOpen : (r : Value) → is_ready r ≡ true → IsOpen r
unfolding is_ready
is_ready-IsOpen r e = ready-status (get r "status") e

-- No more tasks than the limit, nor than there are without the last that a negative limit leaves out.
abbrev pub IsWithin : Limit → List Value → List Value → Type 0
IsWithin all_tasks records out = length out ≤ length records
IsWithin (first n) records out = (length out ≤ n) × (length out ≤ length records)
IsWithin (but_last n) records out = length out ≤ length records - n

All-self : (rs : List Value) → All (λ r. Any (λ v. v ≡ r) rs) rs
All-self [] = tt
All-self (r ∷ rs) = (inl refl, All-mono rs (λ x h. inr h) (All-self rs))

length-keep_most : (p : Value → Bool) (rs : List Value) → length (keep p rs) ≤ length rs
length-keep_most p [] = omega arith
length-keep_most p (r ∷ rs) = elim (Bool-cases (p r)) [
  | inl e ↦ rw e (omega (arith, length-keep_most p rs))
  | inr e ↦ rw e (omega (arith, length-keep_most p rs))
]

length-insert_task :
    (setting : Setting) (r : Value) (rs : List Value)
    → length (insert_task setting r rs) ≡ suc (length rs)
unfolding insert_task
length-insert_task setting r [] = refl
length-insert_task setting r (s ∷ rs) =
    elim (Bool-cases
      (setting.before (text_or "" (get s "task_id")) (text_or "" (get r "task_id")))) [
        | inl e ↦ rw e (ap suc (length-insert_task setting r rs))
        | inr e ↦ rw e refl
      ]

length-sort_tasks :
    (setting : Setting) (rs : List Value) → length (sort_tasks setting rs) ≡ length rs
unfolding sort_tasks
length-sort_tasks setting [] = refl
length-sort_tasks setting (r ∷ rs) =
    length-insert_task setting r (sort_tasks setting rs) ∙ ap suc (length-sort_tasks setting rs)

first_tasks-most : (n : ℕ) (rs : List Value) → length (first_tasks n rs) ≤ length rs
unfolding first_tasks
first_tasks-most zero rs = omega arith
first_tasks-most (suc n) [] = omega arith
first_tasks-most (suc n) (r ∷ rs) = omega (arith, first_tasks-most n rs)

limited-All :
    (P : Value → Type 0) (limit : Limit) (rs : List Value) → All P rs → All P (limited limit rs)
limited-All P all_tasks rs h = h
limited-All P (first n) rs h = first_tasks-All P n rs h
limited-All P (but_last n) rs h = first_tasks-All P (length rs - n) rs h

limited-IsWithin :
    (limit : Limit) (rs records : List Value)
    → length rs ≤ length records
    → IsWithin limit records (limited limit rs)
limited-IsWithin all_tasks rs records h = h
limited-IsWithin (first n) rs records h =
    (first_tasks-length n rs, omega (arith, h, first_tasks-most n rs))
limited-IsWithin (but_last n) rs records h = omega (arith, h, first_tasks-length (length rs - n) rs)

-- Each task that is offered has a record in the state that the log is read back to, and that record
-- says that it is pending, failed or throttled. No more are offered than there are records; than the
-- limit, if it is not negative; and than there are records less those that a negative limit leaves out.
pub next_tasks-IsReady :
    (setting : Setting) (limit : Limit) (log : List Value)
    → All
        (λ r. IsOpen r × Any (λ v. v ≡ r) (values (current_state log)))
        (next_tasks setting limit log)
      × IsWithin limit (values (current_state log)) (next_tasks setting limit log)
unfolding next_tasks
next_tasks-IsReady setting limit log =
    let records = values (current_state log) in
    let ready = keep is_ready records in
    let open_ready : All IsOpen ready =
      All-mono ready is_ready-IsOpen (All-keep is_ready records) in
    let recorded : All (λ r. Any (λ v. v ≡ r) records) ready =
      keep-All _ is_ready records (All-self records) in
    (
      limited-All _ limit _
          (sort_tasks-All setting _ ready (All-both _ _ ready open_ready recorded)),
      limited-IsWithin limit _ records
          (omega (arith, length-sort_tasks setting ready, length-keep_most is_ready records)),
    )

-- A task whose status was set to pending, failed or throttled is offered again, where no limit is
-- given.
pub set_status-offered :
    (setting : Setting) (task status : String) (refs : List String) (reason : Option String)
    (log after : List Value)
    → set_status setting task status refs reason log ≡ ok after
    → includes ready_statuses status ≡ true
    → Any
        (λ r. (get r "task_id" ≡ str task) × (get r "status" ≡ str status))
        (next_tasks setting all_tasks after)
unfolding next_tasks is_ready text_or
set_status-offered setting task status refs reason log after e ready =
    let answer : IsAnswer task status log (ok after) =
      subst (λ o. IsAnswer task status log o) e
        (set_status-IsAnswer setting task status refs reason log) in
    let (r, appended, state, is_status, id) = answer.1 in
    let found : get_entry (str task) (current_state after) ≡ some r =
      ap (get_entry (str task)) state
      ∙ get_entry-set (current_state log) task task r
      ∙ (rw (eq_refl task) refl) in
    let offers : is_ready r ≡ true =
      ap (λ v. includes ready_statuses (text_or "" v)) is_status ∙ ready in
    sort_tasks-Any setting (λ x. (get x "task_id" ≡ str task) × (get x "status" ≡ str status))
      (keep is_ready (values (current_state after)))
      (keep-Any (λ x. (get x "task_id" ≡ str task) × (get x "status" ≡ str status)) is_ready
        (values (current_state after))
        (Any-mono (values (current_state after))
          (λ x same. (
            (ap (λ v. get v "task_id") same ∙ id, ap (λ v. get v "status") same ∙ is_status),
            ap is_ready same ∙ offers,
          ))
          (get_entry-values (str task) (current_state after) r found)))

-- ===== src/Orchestration/Tasks/Status.antt =====
-- `cmdSetStatus` and `cmdNext` of tools/orchestration/manifest.mjs.
use red_team_agent_orchestra.Common.{
  String, ◌≡◌, refl, sym, ap, ◌∙◌, true, false, Bool-cases, inl, inr, ◌||◌, not, Option, none, some,
  List, [], ◌∷◌, ◌++◌, All, includes, ◌==◌, eq_iff, arith, if◌then◌else◌, Result, throw, ok, ◌⊎◌,
  not-false, or-false,
}
use red_team_agent_orchestra.Js.{
  Value, Props, end, prop, num, undefined, str, arr, obj, get, spread, read, write, same, same-true,
  read-write, read-write_self, null, bool,
}
use red_team_agent_orchestra.Graph.Reducers.{Entries, get_entry, set_entry}
use red_team_agent_orchestra.Orchestration.Tasks.{
  Setting, replay_from, current_state, stamped, remove, updated, with_refs, with_reason, set_status,
  valid_statuses, appended,
}
use red_team_agent_orchestra.Orchestration.Tasks.Replay.{replay-append}

read-remove :
    (ps : Props) (k j : String) → read (remove ps k) j ≡ (if k == j then undefined else read ps j)
unfolding read remove
read-remove end k j = ground arith
read-remove (prop i v ps) k j =
    ground (arith, eq_iff i k, eq_iff i j, eq_iff k j, read-remove ps k j)

-- Every record is kept under its own id.
abbrev IsKeyed : Entries → Type 0
IsKeyed m = All (λ e. get e.1 "task_id" ≡ e.0) m

set_entry-IsKeyed :
    (r : Value) (m : Entries) → IsKeyed m → IsKeyed (set_entry (get r "task_id") r m)
unfolding set_entry
set_entry-IsKeyed r [] h = (refl, tt)
set_entry-IsKeyed r ((k, v) ∷ m) h = elim (Bool-cases (same k (get r "task_id"))) [
  | inl e ↦ rw e (sym (same-true k (get r "task_id") e), h.1)
  | inr e ↦ rw e (h.0, set_entry-IsKeyed r m h.1)
]

replay-IsKeyed : (log : List Value) (m : Entries) → IsKeyed m → IsKeyed (replay_from log m)
unfolding replay_from
replay-IsKeyed [] m h = h
replay-IsKeyed (r ∷ log) m h =
    replay-IsKeyed log (set_entry (get r "task_id") r m) (set_entry-IsKeyed r m h)

get_entry-IsKeyed :
    (k : String) (m : Entries) (v : Value)
    → IsKeyed m
    → get_entry (str k) m ≡ some v
    → get v "task_id" ≡ str k
unfolding get_entry
get_entry-IsKeyed k [] v h e = absurd (cc)
get_entry-IsKeyed k ((j, w) ∷ m) v h e = elim (Bool-cases (same j (str k))) [
  | inl f ↦
      let found : some w ≡ some v = rw f at e in
      let value : w ≡ v = cc in
      let key : j ≡ str k = same-true j (str k) f in
      ap (λ x. get x "task_id") (sym value) ∙ h.0 ∙ key
  | inr f ↦ get_entry-IsKeyed k m v h.1 (rw (f, get_entry) at e)
]

write-other :
    (ps : Props) (k j : String) (v : Value) → (k == j) ≡ false → read (write ps k v) j ≡ read ps j
write-other ps k j v h = read-write ps k j v ∙ (rw h refl)

remove-other : (ps : Props) (k j : String) → (k == j) ≡ false → read (remove ps k) j ≡ read ps j
remove-other ps k j h = read-remove ps k j ∙ (rw h refl)

read-spread : (v : Value) (k : String) → read (spread v) k ≡ get v k
unfolding read spread get
read-spread undefined k = refl
read-spread null k = refl
read-spread (bool b) k = refl
read-spread (num n) k = refl
read-spread (str s) k = refl
read-spread (arr vs) k = refl
read-spread (obj ps) k = refl

with_reason-other :
    (reason : Option String) (ps : Props) (k : String)
    → ("reason" == k) ≡ false
    → read (with_reason reason ps) k ≡ read ps k
with_reason-other none ps k h = refl
with_reason-other (some reason) ps k h = write-other ps "reason" k (str reason) h

with_refs-other :
    (refs : List String) (cur : Value) (ps : Props) (k : String)
    → ("output_refs" == k) ≡ false
    → read (with_refs refs cur ps) k ≡ read ps k
with_refs-other [] cur ps k h = refl
with_refs-other (r ∷ refs) cur ps k h = write-other ps "output_refs" k _ h

module _ (setting : Setting) (cur : Value) (status : String) (refs : List String)
    (reason : Option String) where
  -- A property other than those that are written after the status.
  updated-other :
      (k : String)
      → ("updated_at" == k) ≡ false
      → ("reason" == k) ≡ false
      → ("output_refs" == k) ≡ false
      → ("attempts" == k) ≡ false
      → get (updated setting cur status refs reason) k
        ≡ read (write (spread cur) "status" (str status)) k
  unfolding updated stamped get
  updated-other k stamp why out tries =
      write-other _ "updated_at" k _ stamp
      ∙ remove-other _ "updated_at" k stamp
      ∙ with_reason-other reason _ k why
      ∙ with_refs-other refs cur _ k out
      ∙ write-other _ "attempts" k _ tries

  updated-status : get (updated setting cur status refs reason) "status" ≡ str status
  updated-status =
      updated-other "status" refl refl refl refl
      ∙ read-write_self (spread cur) "status" (str status)

  updated-id : get (updated setting cur status refs reason) "task_id" ≡ get cur "task_id"
  updated-id =
      updated-other "task_id" refl refl refl refl
      ∙ write-other (spread cur) "status" "task_id" (str status) refl
      ∙ read-spread cur "task_id"

-- The log has one record more, with the status and the task's id, and its state is the state that
-- was, with that record as the task's.
abbrev pub IsUpdate : String → String → List Value → List Value → Type 0
IsUpdate task status log after =
    (r : Value) × (after ≡ log ++ r ∷ [])
    × (current_state after ≡ set_entry (str task) r (current_state log))
    × (get r "status" ≡ str status)
    × (get r "task_id" ≡ str task)

-- What a change of status answers: an update of a task that the log has, to one of the statuses; or
-- an exception, as the status is none of them, or the task has no name or no record.
abbrev pub IsAnswer : String → String → List Value → Result (List Value) → Type 0
IsAnswer task status log (ok after) =
    (includes valid_statuses status ≡ true) × IsUpdate task status log after
IsAnswer task status log (throw problem) =
    ((task == "" || not (includes valid_statuses status)) ≡ true)
    ⊎ (get_entry (str task) (current_state log) ≡ none)

appended-IsAnswer :
    (setting : Setting) (task status : String) (refs : List String) (reason : Option String)
    (log : List Value) (found : Option Value)
    → get_entry (str task) (current_state log) ≡ found
    → includes valid_statuses status ≡ true
    → IsAnswer task status log (appended setting found status refs reason log)
unfolding current_state
appended-IsAnswer setting task status refs reason log none e v = inr e
appended-IsAnswer setting task status refs reason log (some cur) e v =
    let id : get (updated setting cur status refs reason) "task_id" ≡ str task =
      updated-id setting cur status refs reason
      ∙ get_entry-IsKeyed task (current_state log) cur (replay-IsKeyed log [] tt) e in
    (
      v,
      (
        updated setting cur status refs reason,
        refl,
        replay-append log (updated setting cur status refs reason) []
            ∙ ap (λ k. set_entry k (updated setting cur status refs reason) (replay_from log []))
                id,
        updated-status setting cur status refs reason,
        id,
      ),
    )

-- A change of status always answers: it appends one record, with the task's id and the status, which
-- replaces the task's record and no other in the state that the log is read back to; or it refuses,
-- as the status is none of the seven, or the task has no name or no record.
pub set_status-IsAnswer :
    (setting : Setting) (task status : String) (refs : List String) (reason : Option String)
    (log : List Value)
    → IsAnswer task status log (set_status setting task status refs reason log)
unfolding set_status
set_status-IsAnswer setting task status refs reason log =
    elim (Bool-cases (task == "" || not (includes valid_statuses status))) [
      | inl e ↦ rw e (inl e)
      | inr e ↦ rw e (
          appended-IsAnswer setting task status refs reason log _ refl
            (not-false _ (or-false _ _ e).1))
    ]

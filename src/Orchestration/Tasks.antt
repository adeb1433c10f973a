-- ===== src/Orchestration/Tasks.antt =====
-- The durable queue of tasks: tools/orchestration/manifest.mjs. A log is its list of records, oldest
-- first; they hold texts, numbers and arrays of texts (schemas/task.schema.json), which come back
-- from their lines as they were. The digest, the clock and the order of `localeCompare` are given.
-- The commands' printed lines and exit codes are left out: a refused command is an exception.
pub mod Replay
pub mod Queue
pub mod Status
pub mod Offered
use Prim.Native.String
use red_team_agent_orchestra.Common.{
  ◌-◌, ℕ, zero, suc, ◌+◌, ◌*◌, String, Bool, true, false, ◌||◌, not, Option, none, some, List, [],
  ◌∷◌, ◌++◌, map, keep, includes, is_some, eqb, length, ◌==◌, if◌then◌else◌, Result, throw, ok,
  Error, type_error,
}
use red_team_agent_orchestra.Js.{
  Value, undefined, null, num, str, arr, obj, Items, nil, cons, Props, end, prop, get, spread,
  write, elements, of_list, or_else, text_or, stringify,
}
use red_team_agent_orchestra.Js.Text.{join}
use red_team_agent_orchestra.Js.Regex.{prefix}
use red_team_agent_orchestra.Graph.Reducers.{Entries, get_entry, set_entry, values}
use red_team_agent_orchestra.Learning.Candidate.{distinct}
use red_team_agent_orchestra.Learning.Promotion.{precedes}

-- The keys of an object in order, with the texts of their values.
unfoldable pub insert_key : String × String → List (String × String) → List (String × String)
insert_key k [] = k ∷ []
insert_key k (j ∷ ks) = if precedes k.0 j.0 then k ∷ j ∷ ks else j ∷ insert_key k ks

abbrev pair_text : String × String → String
pair_text (k, v) = join ":" (stringify (str k) ∷ v ∷ [])

abbrev bracketed : String → String → List String → String
bracketed left right texts = join "" (left ∷ join "," texts ∷ right ∷ [])

unfoldable mutual
  pub canonical : Value → String
  canonical (arr vs) = bracketed "[" "]" (canonical_items vs)
  canonical (obj ps) = bracketed "{" "}" (map pair_text (canonical_props ps))
  canonical v = stringify v

  pub canonical_items : Items → List String
  canonical_items nil = []
  canonical_items (cons v vs) = canonical v ∷ canonical_items vs

  pub canonical_props : Props → List (String × String)
  canonical_props end = []
  canonical_props (prop k v ps) = insert_key (k, canonical v) (canonical_props ps)

pub record Task : Type 0 where
  pub agent : String
  pub subscription_id : String
  pub check_id : String
  pub scope : Value

-- What the commands are given: a digest, in hex, a time, and the order of `localeCompare`.
pub record Setting : Type 0 where
  pub digest : String → String
  pub now : String
  pub before : String → String → Bool

abbrev or_null : Value → Value
or_null undefined = null
or_null v = v

unfoldable pub scope_hash : Setting → Task → String
scope_hash setting t = setting.digest (
    canonical (
      obj (
        prop "agent" (str t.agent) (
          prop "subscription_id" (str t.subscription_id)
            (prop "check_id" (str t.check_id) (prop "scope" (or_null t.scope) end))))))

unfoldable pub make_task_id : Task → String → String
make_task_id t hash = join ":" (t.agent ∷ t.subscription_id ∷ t.check_id ∷ prefix 8 hash ∷ [])

-- The latest record of each task.
unfoldable pub replay_from : List Value → Entries → Entries
replay_from [] state = state
replay_from (r ∷ log) state = replay_from log (set_entry (get r "task_id") r state)

unfoldable pub current_state : List Value → Entries
current_state log = replay_from log []

-- `rec.updated_at = now`
unfoldable pub stamped : Setting → Props → Value
stamped setting ps = obj (write ps "updated_at" (str setting.now))

abbrev task_id_of : Setting → Task → String
task_id_of setting t = make_task_id t (scope_hash setting t)

unfoldable pub new_record : Setting → Task → Value
new_record setting t = stamped setting (
    prop "task_id" (str (task_id_of setting t)) (
      prop "agent" (str t.agent) (
        prop "subscription_id" (str t.subscription_id) (
          prop "check_id" (str t.check_id) (
            prop "scope_hash" (str (scope_hash setting t)) (
              prop "status" (str "pending")
                (prop "attempts" (num 0) (prop "output_refs" (arr nil) end))))))))

-- A queue in memory: the log, its state, and how many tasks were added.
pub record Batch : Type 0 where
  pub log : List Value
  pub state : Entries
  pub added : ℕ

abbrev pushed : Setting → Task → Batch → Batch
pushed setting t q = record {
  log = q.log ++ new_record setting t ∷ [];
  state = set_entry (str (task_id_of setting t)) (new_record setting t) q.state;
  added = suc q.added;
}

unfoldable pub add_one : Setting → Task → Batch → Batch
add_one setting t q =
    if is_some (get_entry (str (task_id_of setting t)) q.state) then q else pushed setting t q

-- A task without an agent, a subscription or a check is passed over.
abbrev is_malformed : Task → Bool
is_malformed t = t.agent == "" || t.subscription_id == "" || t.check_id == ""

unfoldable pub plan_one : Setting → Task → Batch → Batch
plan_one setting t q = if is_malformed t then q else add_one setting t q

unfoldable pub add_all : Setting → List Task → Batch → Batch
add_all setting [] q = q
add_all setting (t ∷ ts) q = add_all setting ts (plan_one setting t q)

abbrev pub opened : List Value → Batch
opened log = record { log = log; state = current_state log; added = 0 }

-- `cmdAddPlan`; `cmdAdd` is a plan of one task.
unfoldable pub add_plan : Setting → List Task → List Value → Batch
add_plan setting plan log = add_all setting plan (opened log)

abbrev pub valid_statuses : List String
valid_statuses =
    "pending" ∷ "running" ∷ "done" ∷ "failed" ∷ "throttled" ∷ "partial" ∷ "skipped" ∷ []

unfoldable pub remove : Props → String → Props
remove end k = end
remove (prop j v ps) k = if j == k then remove ps k else prop j v (remove ps k)

-- `(cur.attempts || 0) + n`; counts are held in hundredths.
abbrev more_attempts : Value → String → Value
more_attempts (num n) status = num (n + (if status == "running" then 100 else 0))
more_attempts v status = num (if status == "running" then 100 else 0)

abbrev texts : List Value → List String
texts vs = map (text_or "") vs

abbrev with_refs : List String → Value → Props → Props
with_refs [] cur ps = ps
with_refs (r ∷ refs) cur ps =
    write ps "output_refs"
      (arr (of_list (map str (distinct (texts (elements (get cur "output_refs")) ++ r ∷ refs)))))

abbrev with_reason : Option String → Props → Props
with_reason none ps = ps
with_reason (some reason) ps = write ps "reason" (str reason)

unfoldable pub updated : Setting → Value → String → List String → Option String → Value
updated setting cur status refs reason = stamped setting (
    remove
      (with_reason reason (
        with_refs refs cur (
          write (write (spread cur) "status" (str status)) "attempts"
            (more_attempts (get cur "attempts") status))))
      "updated_at")

abbrev appended :
    Setting → Option Value → String → List String → Option String → List Value → Result (List Value)
appended setting none status refs reason log = throw (type_error "unknown task_id")
appended setting (some cur) status refs reason log =
    ok (log ++ updated setting cur status refs reason ∷ [])

unfoldable pub set_status :
    Setting → String → String → List String → Option String → List Value → Result (List Value)
set_status setting task status refs reason log =
    if task == "" || not (includes valid_statuses status)
    then throw (type_error "set-status")
    else appended setting (get_entry (str task) (current_state log)) status refs reason log

abbrev pub status_of : Value → String
status_of r = text_or "" (get r "status")

abbrev pub ready_statuses : List String
ready_statuses = "pending" ∷ "failed" ∷ "throttled" ∷ []

unfoldable pub is_ready : Value → Bool
is_ready r = includes ready_statuses (status_of r)

-- An insertion that keeps equal ones in their order, as `sort` does.
unfoldable pub insert_task : Setting → Value → List Value → List Value
insert_task setting r [] = r ∷ []
insert_task setting r (s ∷ rs) =
    if setting.before (text_or "" (get s "task_id")) (text_or "" (get r "task_id"))
    then s ∷ insert_task setting r rs
    else r ∷ s ∷ rs

unfoldable pub sort_tasks : Setting → List Value → List Value
sort_tasks setting [] = []
sort_tasks setting (r ∷ rs) = insert_task setting r (sort_tasks setting rs)

unfoldable pub first_tasks : ℕ → List Value → List Value
first_tasks zero rs = []
first_tasks (suc n) [] = []
first_tasks (suc n) (r ∷ rs) = r ∷ first_tasks n rs

-- What the limit of the command line is: none, what `parseInt` reads, or the size of the negative
-- number that it reads. For a text that is no number `slice` takes 0.
pub data Limit : Type 0 where
  all_tasks : Limit
  first : ℕ → Limit
  but_last : ℕ → Limit

-- `tasks.slice(0, limit)`
abbrev pub limited : Limit → List Value → List Value
limited all_tasks rs = rs
limited (first n) rs = first_tasks n rs
limited (but_last n) rs = first_tasks (length rs - n) rs

unfoldable pub next_tasks : Setting → Limit → List Value → List Value
next_tasks setting limit log =
    limited limit (sort_tasks setting (keep is_ready (values (current_state log))))

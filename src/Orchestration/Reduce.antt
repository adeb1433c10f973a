-- ===== src/Orchestration/Reduce.antt =====
-- The findings of a run, merged: `asFindings`, the merging of `cmdReduce` and the counts of
-- `cmdStats`, of tools/orchestration/manifest.mjs. A finding is an object
-- (schemas/finding.schema.json).
pub mod Sorted
pub mod Keys
pub mod Kept
use Prim.Native.Char.{code}
use Prim.Native.String
use red_team_agent_orchestra.Common.{
  ℕ, zero, suc, ◌+◌, String, Bool, true, false, ◌&&◌, ◌||◌, not, Option, none, some, List, [], ◌∷◌,
  ◌++◌, map, keep, includes, eqb, ltb, length, ◌==◌, if◌then◌else◌, Result, throw, ok, ◌>>=◌, Error,
  type_error,
}
use red_team_agent_orchestra.Js.{Value, str, arr, obj, get, elements, or_else, text_or}
use red_team_agent_orchestra.Js.Text.{trim, lower}
use red_team_agent_orchestra.Graph.Reducers.{
  Entries, get_entry, set_entry, values, merge_finding, copy_finding,
}
use red_team_agent_orchestra.Guards.Commands.{non_empty}
use red_team_agent_orchestra.Guards.Engagement.{lines_of}
use red_team_agent_orchestra.Orchestration.Tasks.{canonical, status_of}

-- What a reduction is given: the text of an output file, if it is there, `JSON.parse`, and the order of
-- `localeCompare`.
pub record Source : Type 0 where
  pub output : String → Option String
  pub parse_json : String → Option Value
  pub before : String → String → Bool

unfoldable pub parse : Source → String → Result Value
parse source s = elim (source.parse_json s) [ some v ↦ ok v | none ↦ throw (type_error "JSON") ]

unfoldable pub parse_all : Source → List String → Result (List Value)
parse_all source [] = ok []
parse_all source (l ∷ ls) = parse source l >>= λ v. parse_all source ls >>= λ vs. ok (v ∷ vs)

abbrev findings_in : Value → Value → List Value
findings_in o (arr vs) = elements (arr vs)
findings_in o _ = o ∷ []

abbrev first_code : String → ℕ
first_code String.[] = 0
first_code (String.◌∷◌ c s) = code c

unfoldable pub as_findings : Source → String → Result (List Value)
as_findings source content =
    let t = trim content in
    if t == ""
    then ok []
    else if eqb (first_code t) 91
    then (parse source t >>= λ v. ok (elements v))
    else if eqb (first_code t) 123
    then (parse source t >>= λ o. ok (findings_in o (get o "findings")))
    else parse_all source (keep non_empty (map trim (lines_of t)))

unfoldable pub reduce_key : Value → Value
reduce_key f =
    or_else (get f "dedupe_key")
      (or_else (get f "finding_id") (or_else (get f "id") (str (canonical f))))

abbrev pub merged_at : Option Value → Value → Value → Entries → Entries
merged_at none k f m = set_entry k (copy_finding f) m
merged_at (some g) k f m = set_entry k (merge_finding g f) m

unfoldable pub reduce_finding : Value → Entries → Entries
reduce_finding f m = merged_at (get_entry (reduce_key f) m) (reduce_key f) f m

unfoldable pub reduce_findings : List Value → Entries → Entries
reduce_findings [] m = m
reduce_findings (f ∷ fs) m = reduce_findings fs (reduce_finding f m)

-- The findings of an output file; one that is not there has none.
abbrev pub findings_at : Source → Option String → Result (List Value)
findings_at source none = ok []
findings_at source (some content) = as_findings source content

unfoldable pub findings_of : Source → List Value → Result (List Value)
findings_of source [] = ok []
findings_of source (ref ∷ refs) = findings_at source (source.output (text_or "" ref)) >>= λ fs.
    findings_of source refs >>= λ gs. ok (fs ++ gs)

-- The output files of the tasks that are done or partial.
abbrev is_complete : Value → Bool
is_complete task = includes ("done" ∷ "partial" ∷ []) (status_of task)

unfoldable pub refs_of : List Value → List Value
refs_of [] = []
refs_of (task ∷ tasks) =
    let rest = refs_of tasks in
    if is_complete task then elements (get task "output_refs") ++ rest else rest

abbrev severity_of : Value → String
severity_of f = lower (text_or "" (get f "severity"))

-- SEVERITY_RANK
unfoldable pub severity_rank : String → ℕ
severity_rank s =
    if s == "critical"
    then 0
    else if s == "high"
    then 1
    else if s == "medium"
    then 2
    else if s == "low"
    then 3
    else if s == "info" || s == "informational"
    then 4
    else 9

abbrev name_of : Value → String
name_of f = text_or "" (or_else (get f "dedupe_key") (or_else (get f "id") (str "")))

unfoldable pub is_before : Source → Value → Value → Bool
is_before source f g =
    let a = severity_rank (severity_of f) in
    let b = severity_rank (severity_of g) in
    if eqb a b then source.before (name_of f) (name_of g) else ltb a b

unfoldable pub insert_finding : Source → Value → List Value → List Value
insert_finding source f [] = f ∷ []
insert_finding source f (g ∷ gs) =
    if is_before source g f then g ∷ insert_finding source f gs else f ∷ g ∷ gs

unfoldable pub sort_findings : Source → List Value → List Value
sort_findings source [] = []
sort_findings source (f ∷ fs) = insert_finding source f (sort_findings source fs)

-- The findings in order of severity, from the records of the tasks.
unfoldable pub reduce : Source → List Value → Result (List Value)
reduce source tasks = findings_of source (refs_of tasks) >>= λ fs.
    ok (sort_findings source (values (reduce_findings fs [])))

-- `by_status`, `total`, and the tasks that are done or partial
unfoldable pub count_status : String → List Value → ℕ
count_status status [] = 0
count_status status (r ∷ rs) =
    let n = count_status status rs in if status_of r == status then suc n else n

unfoldable pub completed : List Value → ℕ
completed tasks = count_status "done" tasks + count_status "partial" tasks

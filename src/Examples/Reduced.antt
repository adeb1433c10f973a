-- ===== src/Examples/Reduced.antt =====
-- The merging of two output files.
use red_team_agent_orchestra.Common.{
  ◌≡◌, refl, String, some, none, Option, List, [], ◌∷◌, ok, ◌==◌, if◌then◌else◌,
}
use red_team_agent_orchestra.Js.{
  Value, str, arr, obj, cons, nil, prop, end, get, items, of_list, elements, read, write, spread,
  same, text_or, or_else, truthy,
}
use red_team_agent_orchestra.Js.Text.{trim, lower}
use red_team_agent_orchestra.Graph.Reducers.{
  get_entry, set_entry, values, resources, set_resources, add_resources, merge_finding,
  copy_finding,
}
use red_team_agent_orchestra.Learning.Promotion.{precedes}
use red_team_agent_orchestra.Examples.Guarded.{guarding}
use red_team_agent_orchestra.Orchestration.Reduce.{
  Source, parse, parse_all, as_findings, reduce_key, reduce_finding, reduce_findings, findings_of,
  refs_of, severity_rank, is_before, insert_finding, sort_findings, reduce,
}

reducing : Unit {0}
unfolding guarding get items of_list elements read write spread same text_or or_else truthy trim
    lower get_entry set_entry values resources set_resources add_resources merge_finding
    copy_finding precedes parse parse_all as_findings reduce_key reduce_finding reduce_findings
    findings_of refs_of severity_rank is_before insert_finding sort_findings reduce
reducing = tt

abbrev finding : String → String → Value
finding key severity = obj (prop "dedupe_key" (str key) (prop "severity" (str severity) end))

-- The outputs of two tasks, which share a finding.
abbrev outputs : String → Option String
outputs name =
    if name == "a.json" then some "[a]" else if name == "b.json" then some "[b]" else none

abbrev documents : String → Option Value
documents s =
    if s == "[a]"
    then some (arr (cons (finding "k1" "Low") (cons (finding "k2" "medium") nil)))
    else some (arr (cons (finding "k2" "medium") (cons (finding "k3" "critical") nil)))

abbrev source : Source
source = record { output = outputs; parse_json = documents; before = precedes }

abbrev done : String → Value
done name = obj (prop "status" (str "done") (prop "output_refs" (arr (cons (str name) nil)) end))

abbrev tasks : List Value
tasks = done "a.json" ∷ done "gone.json" ∷ done "b.json" ∷ []

-- The finding, as the merging leaves it.
abbrev merged : String → String → Value
merged key severity = obj (
    prop "dedupe_key" (str key)
      (prop "severity" (str severity) (prop "affected_resources" (arr nil) end)))

abbrev report : List Value
report = merged "k3" "critical" ∷ merged "k2" "medium" ∷ merged "k1" "Low" ∷ []

reported : reduce source tasks ≡ ok report
unfolding reducing
reported = refl

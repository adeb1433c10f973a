-- ===== src/Graph/Reducers.antt =====
-- The channel reducers of tools/graph/run-graph.mjs and mergeFinding of
-- tools/orchestration/manifest.mjs. A finding is an object, its `affected_resources` an array of
-- objects or missing (schemas/finding.schema.json); what JavaScript does with other values there is
-- not modelled.
use red_team_agent_orchestra.Common.{
  ◌*◌, Option, none, some, List, [], ◌∷◌, ◌++◌, map, length, if◌then◌else◌,
}
use red_team_agent_orchestra.Js.{
  Value, undefined, null, num, str, arr, obj, get, spread, write, elements, of_list, or_else, same,
  stringify,
}

-- A `Map` from values to values, in insertion order.
abbrev pub Entries : Type 0
Entries = List (Value × Value)

unfoldable pub get_entry : Value → Entries → Option Value
get_entry k [] = none
get_entry k ((j, v) ∷ m) = if same j k then some v else get_entry k m

unfoldable pub set_entry : Value → Value → Entries → Entries
set_entry k v [] = (k, v) ∷ []
set_entry k v ((j, w) ∷ m) = if same j k then (j, v) ∷ m else (j, w) ∷ set_entry k v m

unfoldable pub values : Entries → List Value
values m = map (λ e. e.1) m

-- `for (const r of base.affected_resources) byId.set(r.resource_id, r)`
unfoldable pub set_resources : List Value → Entries → Entries
set_resources [] m = m
set_resources (r ∷ rs) m = set_resources rs (set_entry (get r "resource_id") r m)

abbrev or_set : Option Value → Value → Value → Entries → Entries
or_set none k v m = set_entry k v m
or_set (some _) k v m = m

-- `if (!byId.has(r.resource_id)) byId.set(r.resource_id, r)`
unfoldable pub add_resources : List Value → Entries → Entries
add_resources [] m = m
add_resources (r ∷ rs) m =
    let k = get r "resource_id" in add_resources rs (or_set (get_entry k m) k r m)

unfoldable pub resources : Value → List Value
resources f = elements (get f "affected_resources")

abbrev counted : List Value → Value → Value
counted [] f = f
counted (r ∷ rs) f = obj (write (spread f) "affected_count" (num (100 * length (r ∷ rs))))

unfoldable pub merge_finding : Value → Value → Value
merge_finding base next =
    let merged = values (add_resources (resources next) (set_resources (resources base) [])) in
    counted merged (obj (write (spread base) "affected_resources" (arr (of_list merged))))

unfoldable pub finding_key : Value → Value
finding_key f =
    or_else (get f "dedupe_key")
      (or_else (get f "finding_id") (or_else (get f "id") (str (stringify f))))

unfoldable pub copy_finding : Value → Value
copy_finding f = obj (write (spread f) "affected_resources" (arr (of_list (resources f))))

-- `byKey.set(findingKey(f), f)` for the copies `{ ...f }` of what the channel holds
unfoldable pub index_findings : List Value → Entries → Entries
index_findings [] m = m
index_findings (f ∷ fs) m =
    let g = obj (spread f) in index_findings fs (set_entry (finding_key g) g m)

abbrev merge_at : Option Value → Value → Value → Entries → Entries
merge_at none k f m = set_entry k (copy_finding f) m
merge_at (some g) k f m = set_entry k (merge_finding g f) m

unfoldable pub add_finding : Value → Entries → Entries
add_finding undefined m = m
add_finding null m = m
add_finding f m = let k = finding_key f in merge_at (get_entry k m) k f m

unfoldable pub add_findings : List Value → Entries → Entries
add_findings [] m = m
add_findings (f ∷ fs) m = add_findings fs (add_finding f m)

-- `Array.isArray(val) ? val : [val]`
unfoldable pub as_list : Value → List Value
as_list (arr vs) = elements (arr vs)
as_list v = v ∷ []

unfoldable pub last : Value → Value → Value
last cur val = val

unfoldable pub append : Value → Value → Value
append cur val = arr (of_list (elements cur ++ as_list val))

unfoldable pub merge_findings : Value → Value → Value
merge_findings cur val =
    arr (of_list (values (add_findings (as_list val) (index_findings (elements cur) []))))

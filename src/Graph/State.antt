-- ===== src/Graph/State.antt =====
-- The run state of tools/graph/run-graph.mjs: initialState, applyWrite and applyResults.
use red_team_agent_orchestra.Common.{
  String, Bool, ◌||◌, Option, none, some, List, [], ◌∷◌, lookup, insert, includes, Result, ok,
  throw, ◌>>=◌, unknown_channel, unknown_reducer, ◌==◌, if◌then◌else◌,
}
use red_team_agent_orchestra.Js.{Value, null, num, arr, nil}
use red_team_agent_orchestra.Graph.Schema.{Channel, Graph, Dict, at}
use red_team_agent_orchestra.Graph.Reducers.{last, append, merge_findings}

-- `chanIsNumber`
abbrev is_number : Channel → Bool
is_number ch = includes ch.types "number"

unfoldable pub seed : Channel → Value
seed ch =
    if ch.reducer == "append" || ch.reducer == "merge_findings"
    then arr nil
    else if is_number ch
    then num 0
    else null

unfoldable pub seed_channels : List (String × Channel) → Dict → Dict
seed_channels [] state = state
seed_channels ((name, ch) ∷ rest) state = seed_channels rest (insert name (seed ch) state)

unfoldable pub initial_state : Graph → Dict
initial_state graph = seed_channels graph.channels []

-- `REDUCERS[ch.reducer]`
unfoldable pub reducer : String → Option (Value → Value → Value)
reducer name =
    if name == "last"
    then some last
    else if name == "append"
    then some append
    else if name == "merge_findings"
    then some merge_findings
    else none

unfoldable pub write_by :
    Option (Value → Value → Value) → Channel → Dict → String → Value → Result Dict
write_by none ch state channel value = throw (unknown_reducer channel ch.reducer)
write_by (some f) ch state channel value = ok (insert channel (f (at state channel) value) state)

unfoldable pub write_to : Option Channel → Dict → String → Value → Result Dict
write_to none state channel value = throw (unknown_channel channel)
write_to (some ch) state channel value = write_by (reducer ch.reducer) ch state channel value

unfoldable pub apply_write : Graph → Dict → String → Value → Result Dict
apply_write graph state channel value = write_to (lookup channel graph.channels) state channel value

-- What a handler returns under `writes`, in order; no `writes` is the empty list.
abbrev pub Writes : Type 0
Writes = List (String × Value)

unfoldable pub apply_results : Graph → Dict → Writes → Result Dict
apply_results graph state [] = ok state
apply_results graph state ((channel, value) ∷ rest) =
    apply_write graph state channel value >>= λ next. apply_results graph next rest

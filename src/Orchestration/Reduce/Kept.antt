-- ===== src/Orchestration/Reduce/Kept.antt =====
-- What `cmdReduce` of tools/orchestration/manifest.mjs reports of the tasks' output files.
use red_team_agent_orchestra.Common.{◌⊎◌, ◌||◌, ◌==◌, ◌≡◌, true, false, List, All, ok}
use red_team_agent_orchestra.Js.{Value, get, elements, text_or}
use red_team_agent_orchestra.Graph.Reducers.{Entries}
use red_team_agent_orchestra.Orchestration.Tasks.{status_of}
use red_team_agent_orchestra.Orchestration.Reduce.{Source, findings_at, reduce_key}
use red_team_agent_orchestra.Orchestration.Reduce.Keys.{is_kept}

-- The task is neither done nor partial; or each of its output files is read, and every finding in
-- them has its key in the map, where the key is a text.
abbrev pub IsTaken : Source → Entries → Value → Type 0
IsTaken source m task =
    ((status_of task == "done" || status_of task == "partial") ≡ false)
    ⊎ All
        (λ ref.
          (gs : List Value) × (findings_at source (source.output (text_or "" ref)) ≡ ok gs)
          × All (λ g. is_kept (reduce_key g) m ≡ true) gs)
        (elements (get task "output_refs"))

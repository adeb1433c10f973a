-- ===== src/Guards/Egress/Lock.antt =====
-- `evaluateEgress` of guardrails/core/egress-core.mjs. A reason is a constructor, its message's parts
-- as arguments.
use red_team_agent_orchestra.Common.{
  String, ◌&&◌, not, Option, none, some, [], ◌∷◌, find, if◌then◌else◌, Result, throw, ok,
}
use red_team_agent_orchestra.Js.{Value}
use red_team_agent_orchestra.Guards.Host.{Host}
use red_team_agent_orchestra.Guards.Scan.{Finding, first_of, scan, outcome}
use red_team_agent_orchestra.Guards.Commands.{extract_command, or_default}
use red_team_agent_orchestra.Guards.Engagement.Gate.{GateReason, Gate, closed, opened, is_empty}
use red_team_agent_orchestra.Guards.Egress.{Probe, parse_probe_segment}
use red_team_agent_orchestra.Guards.Egress.Allowlist.{
  Allowlist, external_testing_gate, FileReason, verify_target_file, on_allowlist,
}

pub data EgressReason : Type 0 where
  gate_closed : GateReason → EgressReason
  bad_file : FileReason → EgressReason
  foreign_target : String → EgressReason

pub record EgressDenial : Type 0 where
  pub tool : String
  pub reason : EgressReason

abbrev denied : String → EgressReason → Option (Result EgressDenial)
denied tool reason = some (ok (record { tool = tool; reason = reason }))

abbrev check_targets : String → Option String → Option (Result EgressDenial)
check_targets tool none = none
check_targets tool (some target) = denied tool (foreign_target target)

-- The files first, then the targets.
unfoldable pub check_scope :
    String → Option FileReason → Option String → Option (Result EgressDenial)
check_scope tool (some reason) target = denied tool (bad_file reason)
check_scope tool none target = check_targets tool target

abbrev pub file_at : Host → String → String → String
file_at host cwd file = host.resolve (or_default cwd "." ∷ file ∷ [])

unfoldable pub check_gate :
    Host → String → String → Probe → Result (Gate Allowlist) → Option (Result EgressDenial)
check_gate host cwd tool p (throw problem) = some (throw problem)
check_gate host cwd tool p (ok (closed reason)) = denied tool (gate_closed reason)
check_gate host cwd tool p (ok (opened list)) =
    check_scope tool (first_of (λ f. verify_target_file host (file_at host cwd f) list) p.files)
      (find (λ target. not (on_allowlist target list)) p.targets)

unfoldable pub check_probe : Host → String → Option (String × Probe) → Option (Result EgressDenial)
check_probe host cwd none = none
check_probe host cwd (some (tool, p)) =
    if is_empty p.targets && is_empty p.files
    then none
    else check_gate host cwd tool p (external_testing_gate host cwd)

unfoldable pub check_segment : Host → String → String → Option (Result EgressDenial)
check_segment host cwd segment = check_probe host cwd (parse_probe_segment host segment)

-- `none` lets the command pass.
unfoldable pub evaluate_egress :
    Host → Value → String → String → Result (Option (Finding EgressDenial))
evaluate_egress host args cwd tool =
    outcome (scan host (check_segment host cwd) (extract_command args tool))

-- ===== src/Guards/Azure/Verdict.antt =====
-- `violation` and `evaluate` of guardrails/core/guardrails-core.mjs. A reason is a constructor, its
-- message's parts as arguments.
use red_team_agent_orchestra.Common.{
  String, Bool, Option, none, some, includes, ◌==◌, if◌then◌else◌,
}
use red_team_agent_orchestra.Js.{Value}
use red_team_agent_orchestra.Js.Text.{lower}
use red_team_agent_orchestra.Js.Regex.{Pattern, ◌▹◌, opening, closing, edge, text, maybe, exactly}
use red_team_agent_orchestra.Js.Regex.Search.{test, split_by}
use red_team_agent_orchestra.Guards.Host.{Host}
use red_team_agent_orchestra.Guards.Scan.{Finding, scan}
use red_team_agent_orchestra.Guards.Commands.{extract_command, engagement_mode, head_or_empty, gap}
use red_team_agent_orchestra.Guards.Azure.{
  az_benign, az_read_op, ps_benign, ps_read_verbs, is_az_invocation, is_az_pwsh_invocation, strip,
  first_token, operation_token, words,
}
use red_team_agent_orchestra.Guards.Azure.Rest.{az_rest_method, has_body_flag, iarm_method}

pub data Reason : Type 0 where
  writing_rest : String → Reason
  posting_rest : Reason
  unknown_operation : String → Reason
  writing_cmdlet : String → Reason
  unknown_cmdlet : String → Reason

-- `/^azd?\s+rest\b/i`
abbrev pub az_rest : Pattern
az_rest = opening ▹ text "az" ▹ maybe (text "d") ▹ gap ▹ text "rest" ▹ edge

abbrev pub invoke_rest : Pattern
invoke_rest = opening ▹ text "Invoke-AzRestMethod" ▹ closing

abbrev or_command : String → String
or_command op = if op == "" then "<command>" else op

unfoldable pub rest_violation : Option String → Bool → Option Reason
rest_violation (some method) body = if method == "GET" then none else some (writing_rest method)
rest_violation none body = if body then some posting_rest else none

-- An operation that is not there is no read: the pattern takes at least a letter.
unfoldable pub az_violation : String → Option Reason
az_violation segment =
    if test az_benign (strip segment)
    then none
    else if test az_rest (strip segment)
    then rest_violation (az_rest_method (words (strip segment)))
        (has_body_flag (words (strip segment)))
    else if test az_read_op (operation_token segment)
    then none
    else some (unknown_operation (or_command (operation_token segment)))

unfoldable pub cmdlet_violation : Option String → Option Reason
cmdlet_violation none = none
cmdlet_violation (some method) = if method == "GET" then none else some (writing_cmdlet method)

-- `first.split("-")[0].toLowerCase()`
abbrev pub verb_of : String → String
verb_of name = lower (head_or_empty (split_by (exactly "-") name))

unfoldable pub pwsh_violation : String → Option Reason
pwsh_violation segment =
    if test ps_benign (first_token segment)
    then none
    else if test invoke_rest (first_token segment)
    then cmdlet_violation (iarm_method (words segment))
    else if includes ps_read_verbs (verb_of (first_token segment))
    then none
    else some (unknown_cmdlet (first_token segment))

unfoldable pub violation : String → Option Reason
violation segment =
    if is_az_invocation segment
    then az_violation segment
    else if is_az_pwsh_invocation segment
    then pwsh_violation segment
    else none

pub data Verdict : Type 0 where
  allow : Verdict
  ask deny : Finding Reason → Verdict

unfoldable pub verdict_of : String → Option (Finding Reason) → Verdict
verdict_of mode none = allow
verdict_of mode (some found) = if mode == "controlled-validation" then ask found else deny found

unfoldable pub evaluate : Host → Value → String → String → Verdict
evaluate host args cwd tool =
    verdict_of (engagement_mode host cwd) (scan host violation (extract_command args tool))

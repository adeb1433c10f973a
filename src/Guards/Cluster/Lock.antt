-- ===== src/Guards/Cluster/Lock.antt =====
-- `classifyClusterSegment` and `evaluateCluster` of guardrails/core/cluster-core.mjs. A reason is a
-- constructor, its message's parts as arguments.
use Prim.Native.String
use red_team_agent_orchestra.Common.{
  String, Bool, ◌||◌, not, Option, none, some, List, [], includes, find, ◌==◌, if◌then◌else◌,
  Result, throw, ok,
}
use red_team_agent_orchestra.Js.{Value}
use red_team_agent_orchestra.Js.Text.{trim}
use red_team_agent_orchestra.Guards.Host.{Host}
use red_team_agent_orchestra.Guards.Scan.{Finding, scan, outcome}
use red_team_agent_orchestra.Guards.Commands.{extract_command}
use red_team_agent_orchestra.Guards.Engagement.Gate.{GateReason, Gate, closed, opened}
use red_team_agent_orchestra.Guards.Cluster.{
  container_runtimes, runtime_read_subcmds, runtime_active_subcmds, helm_read_subcmds,
  helm_mutating_subcmds, kubectl_read_verbs, kubectl_gated_verbs, kubectl_mutating_verbs,
  kubectl_value_flags, tool_of, cluster_invocation, first_subcommand, second_subcommand, Selectors,
  extract_kubectl_selectors, extract_image_refs,
}
use red_team_agent_orchestra.Guards.Cluster.Allowlist.{
  Allowlist, cluster_testing_gate, registry_on_allowlist, has_kubectl_cluster_selector,
  kubectl_targets_allowlisted_cluster,
}

pub data ClusterReason : Type 0 where
  auth_subcommand : String → ClusterReason
  rollout_subcommand : String → ClusterReason
  mutating_verb : String → ClusterReason
  unknown_verb : String → ClusterReason
  mutating_release : String → ClusterReason
  unknown_release : String → ClusterReason
  gate_closed : GateReason → ClusterReason
  foreign_registry : String → ClusterReason
  no_cluster : String → ClusterReason
  foreign_cluster : String → ClusterReason

pub data Class : Type 0 where
  ungoverned allowed : Class
  refused : ClusterReason → Class
  gated : String → List String → Option Selectors → Class  -- with selectors, it is of kubectl

abbrev or_subcommand : String → String
or_subcommand sub = if sub == "" then "<subcommand>" else sub

abbrev joined_name : String → String → String
joined_name tool sub = String.◌++◌ tool (String.◌++◌ " " sub)

unfoldable pub classify_verb : List String → String → Class
classify_verb tokens verb =
    if includes kubectl_read_verbs verb
    then allowed
    else if includes kubectl_gated_verbs verb
    then gated (joined_name "kubectl" verb) [] (some (extract_kubectl_selectors tokens))
    else if includes kubectl_mutating_verbs verb
    then refused (mutating_verb verb)
    else refused (unknown_verb verb)

unfoldable pub classify_kubectl : List String → String → String → Class
classify_kubectl tokens verb sub =
    if verb == ""
    then allowed
    else if verb == "auth"
    then (if sub == "can-i" then allowed else refused (auth_subcommand (or_subcommand sub)))
    else if verb == "rollout"
    then (if sub == "status" || sub == "history"
        then allowed
        else refused (rollout_subcommand (or_subcommand sub)))
    else classify_verb tokens verb

unfoldable pub classify_helm : String → Class
classify_helm sub =
    if includes helm_read_subcmds sub
    then allowed
    else if includes helm_mutating_subcmds sub
    then refused (mutating_release sub)
    else refused (unknown_release (or_subcommand sub))

unfoldable pub classify_runtime : String → List String → String → Class
classify_runtime tool tokens sub =
    if includes runtime_read_subcmds sub
    then allowed
    else if includes runtime_active_subcmds sub || sub == ""
    then gated (trim (joined_name tool sub)) (extract_image_refs tokens) none
    else gated (joined_name tool sub) (extract_image_refs tokens) none

unfoldable pub classify_standalone : String → List String → Class
classify_standalone tool tokens =
    gated tool (if tool == "trivy" || tool == "grype" then extract_image_refs tokens else []) none

unfoldable pub classify_tool : String → List String → Class
classify_tool tool tokens =
    if tool == "kubectl"
    then classify_kubectl tokens (first_subcommand kubectl_value_flags tokens)
        (second_subcommand kubectl_value_flags tokens)
    else if tool == "helm"
    then classify_helm (first_subcommand [] tokens)
    else if includes container_runtimes tool
    then classify_runtime tool tokens (first_subcommand [] tokens)
    else classify_standalone tool tokens

unfoldable pub classify_invocation : Option (List String) → Class
classify_invocation none = ungoverned
classify_invocation (some tokens) = classify_tool (tool_of tokens) tokens

unfoldable pub classify_cluster_segment : String → Class
classify_cluster_segment segment = classify_invocation (cluster_invocation segment)

pub record ClusterDenial : Type 0 where
  pub tool : String
  pub reason : ClusterReason

abbrev denied : String → ClusterReason → Option (Result ClusterDenial)
denied tool reason = some (ok (record { tool = tool; reason = reason }))

-- No selector that is there is "".
abbrev named : Selectors → String
named sel = elim sel.context [
  | some s ↦ s
  | none ↦ elim sel.cluster [ some s ↦ s | none ↦ elim sel.server [ some s ↦ s | none ↦ "" ] ]
]

unfoldable pub check_selectors :
    Host → String → Option Selectors → Allowlist → Option (Result ClusterDenial)
check_selectors host tool none list = none
check_selectors host tool (some sel) list =
    if not (has_kubectl_cluster_selector sel)
    then denied tool (no_cluster tool)
    else if not (kubectl_targets_allowlisted_cluster host sel list)
    then denied tool (foreign_cluster (named sel))
    else none

abbrev foreign : Allowlist → String → Bool
foreign list image = not (registry_on_allowlist image list)

abbrev check_images :
    String → Option String → Option (Result ClusterDenial) → Option (Result ClusterDenial)
check_images tool (some image) next = denied tool (foreign_registry image)
check_images tool none next = next

unfoldable pub check_gate :
    Host
    → String
    → List String
    → Option Selectors
    → Result (Gate Allowlist)
    → Option (Result ClusterDenial)
check_gate host tool images sel (throw e) = some (throw e)
check_gate host tool images sel (ok (closed reason)) = denied tool (gate_closed reason)
check_gate host tool images sel (ok (opened list)) =
    check_images tool (find (foreign list) images) (check_selectors host tool sel list)

unfoldable pub check_class : Host → String → Class → Option (Result ClusterDenial)
check_class host cwd ungoverned = none
check_class host cwd allowed = none
check_class host cwd (refused reason) = denied "kubectl" reason
check_class host cwd (gated tool images sel) =
    check_gate host tool images sel (cluster_testing_gate host cwd)

unfoldable pub check_segment : Host → String → String → Option (Result ClusterDenial)
check_segment host cwd segment = check_class host cwd (classify_cluster_segment segment)

-- `none` lets the command pass.
unfoldable pub evaluate_cluster :
    Host → Value → String → String → Result (Option (Finding ClusterDenial))
evaluate_cluster host args cwd tool =
    outcome (scan host (check_segment host cwd) (extract_command args tool))

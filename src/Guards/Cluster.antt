-- ===== src/Guards/Cluster.antt =====
-- What a segment runs in a cluster or a container: `clusterInvocation`, the subcommands,
-- `extractKubectlSelectors` and `extractImageRefs` of guardrails/core/cluster-core.mjs.
pub mod Allowlist
pub mod Lock
pub mod Reads
pub mod Sound
pub mod ReadOnly
use red_team_agent_orchestra.Common.{
  String, Bool, true, false, ◌&&◌, ◌||◌, not, Option, none, some, List, [], ◌∷◌, includes, is_some,
  ◌==◌, if◌then◌else◌,
}
use red_team_agent_orchestra.Js.Text.{lower, begins_with}
use red_team_agent_orchestra.Js.Regex.{Pattern, one, ◌▹◌, opening, closing, among, text, exactly}
use red_team_agent_orchestra.Js.Regex.Search.{test, replace, split_by}
use red_team_agent_orchestra.Guards.Commands.{is_quote, head_or_empty}
use red_team_agent_orchestra.Guards.Azure.{tail_or_empty}
use red_team_agent_orchestra.Guards.Invocation.{norm, invoked, flag_name, after_equals}
use red_team_agent_orchestra.Guards.Engagement.Gate.{GateReason}

abbrev pub active_standalone : List String
active_standalone = "kube-bench" ∷ "kubesec" ∷ "trivy" ∷ "grype" ∷ "crictl" ∷ []

abbrev pub container_runtimes : List String
container_runtimes = "docker" ∷ "nerdctl" ∷ "podman" ∷ []

abbrev pub runtime_read_subcmds : List String
runtime_read_subcmds =
    "ps" ∷ "images" ∷ "image" ∷ "inspect" ∷ "version" ∷ "info" ∷ "logs" ∷ "history" ∷ "top" ∷ "port"
    ∷ "diff" ∷ []

abbrev pub runtime_active_subcmds : List String
runtime_active_subcmds =
    "run" ∷ "exec" ∷ "attach" ∷ "cp" ∷ "create" ∷ "start" ∷ "commit" ∷ "build" ∷ "push" ∷ "pull"
    ∷ "rm" ∷ "rmi" ∷ "kill" ∷ "stop" ∷ "restart" ∷ "rename" ∷ "update" ∷ "load" ∷ "save" ∷ "tag"
    ∷ []

abbrev pub helm_read_subcmds : List String
helm_read_subcmds =
    "list" ∷ "ls" ∷ "get" ∷ "status" ∷ "show" ∷ "history" ∷ "search" ∷ "version" ∷ "env" ∷ "repo"
    ∷ "template" ∷ "lint" ∷ []

abbrev pub helm_mutating_subcmds : List String
helm_mutating_subcmds =
    "install" ∷ "upgrade" ∷ "uninstall" ∷ "delete" ∷ "rollback" ∷ "reset" ∷ "create" ∷ "push" ∷ []

abbrev pub kubectl_read_verbs : List String
kubectl_read_verbs =
    "get" ∷ "describe" ∷ "logs" ∷ "top" ∷ "version" ∷ "explain" ∷ "api-resources" ∷ "api-versions"
    ∷ "cluster-info" ∷ "config" ∷ "events" ∷ "wait" ∷ "diff" ∷ "kustomize" ∷ "completion"
    ∷ "options" ∷ "help" ∷ []

abbrev pub kubectl_gated_verbs : List String
kubectl_gated_verbs = "exec" ∷ "debug" ∷ "cp" ∷ "attach" ∷ "port-forward" ∷ "run" ∷ "proxy" ∷ []

abbrev pub kubectl_mutating_verbs : List String
kubectl_mutating_verbs =
    "apply" ∷ "create" ∷ "delete" ∷ "patch" ∷ "edit" ∷ "replace" ∷ "set" ∷ "scale" ∷ "autoscale"
    ∷ "expose" ∷ "label" ∷ "annotate" ∷ "taint" ∷ "drain" ∷ "cordon" ∷ "uncordon" ∷ "evict"
    ∷ "certificate" ∷ "approve" ∷ "deny" ∷ "rollback" ∷ "apply-set" ∷ []

abbrev pub kubectl_value_flags : List String
kubectl_value_flags =
    "context" ∷ "cluster" ∷ "user" ∷ "n" ∷ "namespace" ∷ "kubeconfig" ∷ "server" ∷ "s" ∷ "token"
    ∷ "as" ∷ "as-group" ∷ "request-timeout" ∷ "tls-server-name" ∷ "certificate-authority"
    ∷ "client-certificate" ∷ "client-key" ∷ "cache-dir" ∷ "v" ∷ "log-flush-frequency" ∷ []

-- The words from the program, if it is one that is governed. Its name is `norm` of the first.
unfoldable pub is_governed : String → Bool
is_governed exe =
    exe == "kubectl"
    || exe == "helm"
    || includes active_standalone exe
    || includes container_runtimes exe

abbrev pub tool_of : List String → String
tool_of tokens = norm (head_or_empty tokens)

unfoldable pub cluster_invocation : String → Option (List String)
cluster_invocation segment =
    let tokens = invoked segment in if is_governed (tool_of tokens) then some tokens else none

-- What a word is to the scan for a subcommand: one itself, passed over, or passed over with the
-- word after it, its value.
pub data Word : Type 0 where
  bare lone taking : Word

unfoldable pub word_of : List String → String → Word
word_of value_flags t =
    if t == "--"
    then lone
    else if begins_with t "-"
    then (if includes value_flags (flag_name t) && not (is_some (after_equals t))
        then taking
        else lone)
    else bare

-- `second` says that one subcommand is passed over first, `skip` that the next word is a value.
unfoldable pub subcommand_after : Bool → List String → Bool → List String → String
subcommand_after second value_flags skip [] = ""
subcommand_after second value_flags true (t ∷ ts) = subcommand_after second value_flags false ts
subcommand_after second value_flags false (t ∷ ts) = elim (word_of value_flags t) [
  | lone ↦ subcommand_after second value_flags false ts
  | taking ↦ subcommand_after second value_flags true ts
  | bare ↦ elim second [ true ↦ subcommand_after false value_flags false ts | false ↦ lower t ]
]

unfoldable pub first_subcommand : List String → List String → String
first_subcommand value_flags tokens =
    subcommand_after false value_flags false (tail_or_empty tokens)

unfoldable pub second_subcommand : List String → List String → String
second_subcommand value_flags tokens =
    subcommand_after true value_flags false (tail_or_empty tokens)

pub record Selectors : Type 0 where
  pub context : Option String
  pub cluster : Option String
  pub server : Option String

-- `.replace(/^['"]|['"]$/g, '').toLowerCase()`
abbrev cleaned : String → String
cleaned v = lower (replace (one is_quote ▹ closing) "" (replace (opening ▹ one is_quote) "" v))

abbrev selected : String → String → Selectors → Selectors
selected name v sel =
    if name == "context"
    then record { context = some v; cluster = sel.cluster; server = sel.server }
    else if name == "cluster"
    then record { context = sel.context; cluster = some v; server = sel.server }
    else record { context = sel.context; cluster = sel.cluster; server = some v }

abbrev is_selector : String → Bool
is_selector name = includes ("context" ∷ "cluster" ∷ "server" ∷ "s" ∷ []) name

unfoldable pub note_selector : String → String → Selectors → Selectors
note_selector name val sel =
    if is_selector name && not (cleaned val == "") then selected name (cleaned val) sel else sel

abbrev note_inline : String → Option String → Selectors → Selectors
note_inline name none sel = sel
note_inline name (some val) sel = note_selector name val sel

-- `flag` is the name of a flag whose value is the next word.
unfoldable pub read_selectors : Option String → List String → Selectors → Selectors
read_selectors flag [] sel = sel
read_selectors (some name) (t ∷ ts) sel = read_selectors none ts (note_selector name t sel)
read_selectors none (t ∷ ts) sel =
    if t == "--"
    then sel
    else if not (begins_with t "-")
    then read_selectors none ts sel
    else if not (is_some (after_equals t)) && includes kubectl_value_flags (flag_name t)
    then read_selectors (some (flag_name t)) ts sel
    else read_selectors none ts (note_inline (flag_name t) (after_equals t) sel)

unfoldable pub extract_kubectl_selectors : List String → Selectors
extract_kubectl_selectors tokens =
    read_selectors none (tail_or_empty tokens)
      (record { context = none; cluster = none; server = none })

-- `.azurecr.io`
abbrev pub acr : Pattern
acr = text ".azurecr.io"

abbrev image_host : String → String
image_host t = head_or_empty (split_by (exactly "/") t)

abbrev is_image : String → Bool
is_image t =
    not (t == "")
    && not (begins_with t "-")
    && (test (acr ▹ closing) (image_host t) || test (acr ▹ one (among ":/")) t)

unfoldable pub image_hosts : List String → List String
image_hosts [] = []
image_hosts (t ∷ ts) =
    let rest = image_hosts ts in if is_image t then lower (image_host t) ∷ rest else rest

unfoldable pub extract_image_refs : List String → List String
extract_image_refs tokens = image_hosts (tail_or_empty tokens)

-- ===== src/Guards/Cluster/Allowlist.antt =====
-- The clusters and registries in scope, and the gate before them: `loadClusterAllowlist`,
-- `registryOnAllowlist`, `kubectlTargetsAllowlistedCluster`, `readClusterTestingConfig` and
-- `clusterTestingGate` of guardrails/core/cluster-core.mjs. A set of texts is a list of them.
use red_team_agent_orchestra.Common.{
  String, Bool, false, ◌&&◌, ◌||◌, not, Option, none, some, List, [], ◌∷◌, includes, ◌==◌,
  if◌then◌else◌, Result, ok, ◌>>=◌,
}
use red_team_agent_orchestra.Js.{Value, get}
use red_team_agent_orchestra.Js.Text.{lower}
use red_team_agent_orchestra.Js.Regex.{◌▹◌, closing, exactly, some_of, is_digit}
use red_team_agent_orchestra.Js.Regex.Search.{replace}
use red_team_agent_orchestra.Guards.Host.{Host}
use red_team_agent_orchestra.Guards.Commands.{engagement_mode}
use red_team_agent_orchestra.Guards.Engagement.{
  Config, config_in, current_session_dir, document, names_of, allowlist_in, hash_of,
}
use red_team_agent_orchestra.Guards.Engagement.Gate.{
  Gate, gate_of, is_empty, is_given, unauthorized,
}
use red_team_agent_orchestra.Guards.Cluster.{Selectors, acr}

pub record Allowlist : Type 0 where
  pub clusters : List String
  pub registries : List String
  pub hash : Value
  pub path : String

abbrev targets_path : Host → Option String → Option String
targets_path host none = none
targets_path host (some dir) = some (host.join (dir ∷ "scope" ∷ "cluster-targets.json" ∷ []))

abbrev path_or_empty : Option String → String
path_or_empty none = ""
path_or_empty (some path) = path

abbrev list_of : Host → Option String → Option Value → Result (Option Allowlist)
list_of host path none = ok none
list_of host path (some doc) = names_of host (get (allowlist_in doc) "clusters") >>= λ clusters.
    names_of host (get (allowlist_in doc) "registries") >>= λ registries. hash_of doc >>= λ hash.
    ok (
      some (record {
        clusters = clusters;
        registries = registries;
        hash = hash;
        path = host.resolve (path_or_empty path ∷ []);
      }))

unfoldable pub load_cluster_allowlist : Host → String → Result (Option Allowlist)
load_cluster_allowlist host cwd =
    let path = targets_path host (current_session_dir host cwd) in
    list_of host path (document host path)

unfoldable pub registry_on_allowlist : String → Allowlist → Bool
registry_on_allowlist name list =
    not (name == "")
    && (includes list.registries (lower name)
        || includes list.registries (replace (acr ▹ closing) "" (lower name)))

unfoldable pub has_kubectl_cluster_selector : Selectors → Bool
has_kubectl_cluster_selector sel =
    is_given sel.context || is_given sel.cluster || is_given sel.server

abbrev is_named : Option String → List String → Bool
is_named none names = false
is_named (some name) names = not (name == "") && includes names name

abbrev url_or : Option String → String → String
url_or none server = server
url_or (some name) server = lower name

abbrev server_name : Host → Option String → Option String
server_name host none = none
server_name host (some server) =
    if server == ""
    then none
    else some (
        replace (exactly ":" ▹ some_of is_digit ▹ closing) ""
          (url_or (host.url_host server) server))

unfoldable pub kubectl_targets_allowlisted_cluster : Host → Selectors → Allowlist → Bool
kubectl_targets_allowlisted_cluster host sel list =
    is_named sel.context list.clusters
    || is_named sel.cluster list.clusters
    || is_named (server_name host sel.server) list.clusters

unfoldable pub read_cluster_testing_config : Host → String → Config
read_cluster_testing_config host cwd =
    config_in host cwd "cluster_testing" (engagement_mode host cwd)

-- There is nothing in scope.
abbrev pub vacant : Allowlist → Bool
vacant list = is_empty list.clusters && is_empty list.registries

unfoldable pub cluster_testing_gate : Host → String → Result (Gate Allowlist)
cluster_testing_gate host cwd =
    gate_of vacant
      (unauthorized host "cluster-active-testing" (read_cluster_testing_config host cwd))
      (load_cluster_allowlist host cwd)

-- ===== src/Guards/Egress/Allowlist.antt =====
-- The hosts in scope, and the gate before them: `loadAllowlist`, `onAllowlist`,
-- `readExternalTestingConfig`, `externalTestingGate` and `verifyTargetFile` of
-- guardrails/core/egress-core.mjs. A set of texts is a list of them.
use red_team_agent_orchestra.Common.{
  String, Bool, ◌&&◌, ◌||◌, not, Option, none, some, List, [], ◌∷◌, includes, ◌==◌, if◌then◌else◌,
  Result, ok, ◌>>=◌,
}
use red_team_agent_orchestra.Js.{Value, get}
use red_team_agent_orchestra.Js.Text.{trim, lower, begins_with}
use red_team_agent_orchestra.Guards.Host.{Host}
use red_team_agent_orchestra.Guards.Commands.{engagement_mode}
use red_team_agent_orchestra.Guards.Engagement.{
  Config, config_in, current_session_dir, document, names_of, allowlist_in, hash_of, lines_of,
}
use red_team_agent_orchestra.Guards.Engagement.Gate.{Gate, gate_of, is_empty, unauthorized}
use red_team_agent_orchestra.Guards.Hosts.{Target, classify_candidate}

pub record Allowlist : Type 0 where
  pub hosts : List String
  pub ips : List String
  pub hash : Value
  pub path : String

abbrev targets_path : Host → Option String → Option String
targets_path host none = none
targets_path host (some dir) = some (host.join (dir ∷ "scope" ∷ "external-targets.json" ∷ []))

abbrev path_or_empty : Option String → String
path_or_empty none = ""
path_or_empty (some path) = path

abbrev list_of : Host → Option String → Option Value → Result (Option Allowlist)
list_of host path none = ok none
list_of host path (some doc) = names_of host (get (allowlist_in doc) "hosts") >>= λ hosts.
    names_of host (get (allowlist_in doc) "ips") >>= λ ips. hash_of doc >>= λ hash. ok (
      some (record {
        hosts = hosts;
        ips = ips;
        hash = hash;
        path = host.resolve (path_or_empty path ∷ []);
      }))

unfoldable pub load_allowlist : Host → String → Result (Option Allowlist)
load_allowlist host cwd =
    let path = targets_path host (current_session_dir host cwd) in
    list_of host path (document host path)

unfoldable pub on_allowlist : String → Allowlist → Bool
on_allowlist name list =
    not (name == "") && (includes list.hosts (lower name) || includes list.ips (lower name))

unfoldable pub read_external_testing_config : Host → String → Config
read_external_testing_config host cwd =
    config_in host cwd "external_testing" (engagement_mode host cwd)

-- There is nothing in scope.
abbrev pub vacant : Allowlist → Bool
vacant list = is_empty list.hosts && is_empty list.ips

unfoldable pub external_testing_gate : Host → String → Result (Gate Allowlist)
external_testing_gate host cwd =
    gate_of vacant
      (unauthorized host "external-active-testing" (read_external_testing_config host cwd))
      (load_allowlist host cwd)

pub data FileReason : Type 0 where
  unreadable : String → FileReason
  out_of_scope : String → String → FileReason

abbrev outside : String → Option Target → Allowlist → Option FileReason
outside path none list = none
outside path (some t) list =
    if on_allowlist t.host list then none else some (out_of_scope path t.host)

-- A line that is empty or a comment says nothing.
unfoldable pub check_line : Host → String → Allowlist → String → Option FileReason
check_line host path list line =
    if trim line == "" || begins_with (trim line) "#"
    then none
    else outside path (classify_candidate host (trim line)) list

unfoldable pub check_lines : Host → String → Allowlist → List String → Option FileReason
check_lines host path list [] = none
check_lines host path list (l ∷ ls) = elim (check_line host path list l) [
  | some reason ↦ some reason
  | none ↦ check_lines host path list ls
]

abbrev check_content : Host → String → Allowlist → Option String → Option FileReason
check_content host path list none = some (unreadable path)
check_content host path list (some content) = check_lines host path list (lines_of content)

unfoldable pub verify_target_file : Host → String → Allowlist → Option FileReason
verify_target_file host path list =
    if path == list.path then none else check_content host path list (host.file path)

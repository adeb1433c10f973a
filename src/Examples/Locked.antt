-- ===== src/Examples/Locked.antt =====
-- An engagement that may test one host and one cluster, and the commands that the scope locks let
-- pass and stop in it.
use red_team_agent_orchestra.Common.{
  ◌≡◌, refl, String, Option, none, some, [], ◌∷◌, ◌==◌, if◌then◌else◌, ok,
}
use red_team_agent_orchestra.Js.{
  Value, str, arr, obj, cons, nil, prop, end, of_list, items, elements,
}
use red_team_agent_orchestra.Js.Text.{join}
use red_team_agent_orchestra.Examples.Guarded.{guarding}
use red_team_agent_orchestra.Guards.Host.{Host}
use red_team_agent_orchestra.Guards.Scan.{outcome}
use red_team_agent_orchestra.Guards.Engagement.{
  lines_after, until_top, slice_top_block, scalar, bool_scalar, config_in, current_session_dir,
  lower_all, names_of,
}
use red_team_agent_orchestra.Guards.Engagement.Gate.{
  is_early, is_late, first_failed, unauthorized, gate_of,
}
use red_team_agent_orchestra.Guards.Invocation.{
  norm, drop_flags, drop_duration, drop_assignments, past_wrappers, invoked, before_equals,
  after_equals, flag_name,
}
use red_team_agent_orchestra.Guards.Cluster.{
  is_governed, cluster_invocation, word_of, subcommand_after, first_subcommand, second_subcommand,
  note_selector, read_selectors, extract_kubectl_selectors, image_hosts, extract_image_refs,
}
use red_team_agent_orchestra.Guards.Cluster.Allowlist.{
  load_cluster_allowlist, registry_on_allowlist, has_kubectl_cluster_selector,
  kubectl_targets_allowlisted_cluster, read_cluster_testing_config, cluster_testing_gate,
}
use red_team_agent_orchestra.Guards.Cluster.Lock as Cluster
use red_team_agent_orchestra.Guards.Cluster.Lock.{
  classify_verb, classify_kubectl, classify_helm, classify_runtime, classify_standalone,
  classify_tool, classify_invocation, classify_cluster_segment, check_selectors, check_class,
  evaluate_cluster, ClusterDenial, mutating_verb, foreign_cluster,
}
use red_team_agent_orchestra.Guards.Hosts.{
  digits, decimal, in_range, parse_ipv4, looks_like_ip, is_reserved, is_public_ipv4, hex,
  is_global_unicast, is_public_ipv6, is_public_name, is_public_fqdn, bare_host, classify_host,
  classify_value, classify_candidate,
}
use red_team_agent_orchestra.Guards.Egress.{
  last_of, is_file_like_token, probe_invocation, add_target, add_file, read_flag, read_word,
  read_words, parse_probe_segment,
}
use red_team_agent_orchestra.Guards.Egress.Allowlist.{
  load_allowlist, on_allowlist, read_external_testing_config, external_testing_gate, check_line,
  check_lines, verify_target_file,
}
use red_team_agent_orchestra.Guards.Egress.Lock as Egress
use red_team_agent_orchestra.Guards.Egress.Lock.{
  check_scope, check_probe, evaluate_egress, EgressDenial, foreign_target,
}

unfoldable pub locking : Unit {0}
unfolding guarding items of_list elements outcome lines_after until_top slice_top_block scalar
    bool_scalar config_in current_session_dir lower_all names_of is_early is_late first_failed
    unauthorized gate_of norm drop_flags drop_duration drop_assignments past_wrappers invoked
    before_equals after_equals flag_name is_governed cluster_invocation word_of subcommand_after
    first_subcommand second_subcommand note_selector read_selectors extract_kubectl_selectors
    image_hosts extract_image_refs load_cluster_allowlist registry_on_allowlist
    has_kubectl_cluster_selector kubectl_targets_allowlisted_cluster read_cluster_testing_config
    cluster_testing_gate classify_verb classify_kubectl classify_helm classify_runtime
    classify_standalone classify_tool classify_invocation classify_cluster_segment check_selectors
    check_class Cluster.check_gate Cluster.check_segment evaluate_cluster digits decimal in_range
    parse_ipv4 looks_like_ip is_reserved is_public_ipv4 hex is_global_unicast is_public_ipv6
    is_public_name is_public_fqdn bare_host classify_host classify_value classify_candidate last_of
    is_file_like_token probe_invocation add_target add_file read_flag read_word read_words
    parse_probe_segment load_allowlist on_allowlist read_external_testing_config
    external_testing_gate check_line check_lines verify_target_file check_scope check_probe
    Egress.check_gate Egress.check_segment evaluate_egress
locking = tt

-- engagement.yaml, in a mode
abbrev yaml : String → String
yaml mode = join "\n" (
    join "" ("mode: " ∷ mode ∷ [])
    ∷ "external_testing:"
    ∷ "  enabled: true"
    ∷ "  attested_by: 'an owner' # by letter"
    ∷ "  attestation_id: A-1"
    ∷ "cluster_testing:"
    ∷ "  enabled: yes"
    ∷ "  attested_by: an owner"
    ∷ "  attestation_id: A-2"
    ∷ [])

abbrev files : String → String → Option String
files mode path =
    if path == "./engagement.yaml"
    then some (yaml mode)
    else if path == "./engagements/.current-session"
    then some "s1\n"
    else if path == "./engagements/s1/scope/cluster-targets.json"
    then some "clusters"
    else if path == "./engagements/s1/scope/external-targets.json"
    then some "hosts"
    else none

-- The documents that the session's two files stand for.
abbrev documents : String → Option Value
documents s =
    if s == "clusters"
    then some (obj (prop "allowlist" (obj (prop "clusters" (arr (cons (str "Aks1") nil)) end)) end))
    else some (
        obj
          (prop "allowlist" (obj (prop "hosts" (arr (cons (str "app.contoso.com") nil)) end)) end))

abbrev pub engaged : String → Host
engaged mode = record {
  file = files mode;
  join = λ parts. join "/" parts;
  resolve = λ parts. join "/" parts;
  parse_json = documents;
  parse_date = λ s. none;
  now = 0;
  hostname = λ s. some "app.contoso.com";
  url_host = λ s. none;
  decode = λ s. "";
  shown = λ v. none;
}

enters :
    evaluate_cluster
      (engaged "cluster-active-testing")
      (str "sudo kubectl --context aks1 exec pod -- ls")
      ""
      "bash"
    ≡ ok none
unfolding locking
enters = refl

wanders :
    evaluate_cluster
      (engaged "cluster-active-testing")
      (str "kubectl exec --context aks2 pod -- ls")
      ""
      "bash"
    ≡ ok (
        some (record {
          segment = "kubectl exec --context aks2 pod -- ls";
          reason = record { tool = "kubectl exec"; reason = foreign_cluster "aks2" };
        }))
unfolding locking
wanders = refl

probes :
    evaluate_egress
      (engaged "external-active-testing")
      (str "curl https://app.contoso.com/x 10.0.0.1 -o f")
      ""
      "bash"
    ≡ ok none
unfolding locking
probes = refl

strays :
    evaluate_egress
      (engaged "external-active-testing")
      (str "timeout 5 nmap -p 443 8.8.8.8")
      ""
      "bash"
    ≡ ok (
        some (record {
          segment = "timeout 5 nmap -p 443 8.8.8.8";
          reason = record { tool = "nmap"; reason = foreign_target "8.8.8.8" };
        }))
unfolding locking
strays = refl

-- A URL in quotation marks is not seen as one.
quoted_url :
    evaluate_egress
      (engaged "read-only-assessment")
      (str "curl \"https://other.example.com/\"")
      ""
      "bash"
    ≡ ok none
unfolding locking
quoted_url = refl

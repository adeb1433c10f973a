-- ===== src/Examples/Decided.antt =====
-- The guards' theorems on commands in an engagement.
use red_team_agent_orchestra.Common.{◌≡◌, All, String, refl, true, ◌∷◌, [], inl, includes, inr}
use red_team_agent_orchestra.Js.{str}
use red_team_agent_orchestra.Examples.Locked.{locking, engaged}
use red_team_agent_orchestra.Guards.Scan.{Throughout}
use red_team_agent_orchestra.Guards.Commands.{
  extract_command, engagement_mode, extract_inner, gather_command_texts,
}
use red_team_agent_orchestra.Guards.Commands.Gathered.{Found, IsClean, gather_command_texts-IsWhole}
use red_team_agent_orchestra.Guards.Azure.Verdict.{evaluate}
use red_team_agent_orchestra.Guards.Azure.Sound.{IsJust, evaluate-IsJust}
use red_team_agent_orchestra.Guards.Cluster.Lock.{classify_cluster_segment}
use red_team_agent_orchestra.Guards.Cluster.Sound.{IsHarmless, evaluate_cluster-IsHarmless}
use red_team_agent_orchestra.Guards.Egress.{parse_probe_segment}
use red_team_agent_orchestra.Guards.Egress.Sound.{
  IsHarmless as IsInScope, evaluate_egress-IsHarmless,
}
use red_team_agent_orchestra.Guards.Hosts.{is_public_ipv4, parse_ipv4}
use red_team_agent_orchestra.Guards.Hosts.Blocks.{is_outside, is_public_ipv4-blocks}
use red_team_agent_orchestra.Guards.Decide.{Call, to_tool_args, decide}
use red_team_agent_orchestra.Guards.Decide.Safe.{
  IsRight, is_denied, decide-IsRight, decide-mutating,
}

abbrev nested : String
nested = "pwsh -Command \"az vm list\""

abbrev call : Call
call = record { command = str "bash -c 'kubectl delete pod p'"; cwd = ""; tool_name = "bash" }

decide-IsRight_example :
    IsRight
      (engaged "controlled-validation")
      (to_tool_args call.command)
      "."
      "bash"
      (decide (engaged "controlled-validation") call)
decide-IsRight_example = decide-IsRight (engaged "controlled-validation") call

decide-mutating_example : is_denied (decide (engaged "cluster-active-testing") call) ≡ true
unfolding locking to_tool_args
decide-mutating_example =
    decide-mutating (engaged "cluster-active-testing") call "kubectl delete pod p"
      (inr (inl (inl refl))) ("kubectl" ∷ "delete" ∷ "pod" ∷ "p" ∷ [], refl, refl, refl)

evaluate-IsJust_example :
    IsJust
      (engaged "read-only-assessment")
      (engagement_mode (engaged "read-only-assessment") "")
      (extract_command (str "az vm list && az vm stop -n v") "bash")
      (evaluate (engaged "read-only-assessment") (str "az vm list && az vm stop -n v") "" "bash")
evaluate-IsJust_example =
    evaluate-IsJust (engaged "read-only-assessment") (str "az vm list && az vm stop -n v") "" "bash"

evaluate_cluster-IsHarmless_example :
    Throughout
      (engaged "cluster-active-testing")
      (extract_command (str "kubectl exec --context=aks1 p -- ls") "bash")
      (λ s. IsHarmless (engaged "cluster-active-testing") "" s (classify_cluster_segment s))
unfolding locking
evaluate_cluster-IsHarmless_example =
    evaluate_cluster-IsHarmless (engaged "cluster-active-testing")
      (str "kubectl exec --context=aks1 p -- ls") "" "bash" refl

evaluate_egress-IsHarmless_example :
    Throughout
      (engaged "external-active-testing")
      (extract_command (str "curl -u https://app.contoso.com/") "bash")
      (λ s.
        IsInScope
          (engaged "external-active-testing")
          ""
          (parse_probe_segment (engaged "external-active-testing") s))
unfolding locking
evaluate_egress-IsHarmless_example =
    evaluate_egress-IsHarmless (engaged "external-active-testing")
      (str "curl -u https://app.contoso.com/") "" "bash" refl

is_public_ipv4-blocks_example : is_public_ipv4 "172.31.4.5" ≡ is_outside (parse_ipv4 "172.31.4.5")
is_public_ipv4-blocks_example = is_public_ipv4-blocks "172.31.4.5"

gather_command_texts-IsWhole_example :
    (includes (gather_command_texts (engaged "") nested) nested ≡ true)
    × All
        (λ t. Found t (gather_command_texts (engaged "") nested))
        (extract_inner (engaged "") nested)
    × IsClean (gather_command_texts (engaged "") nested)
gather_command_texts-IsWhole_example = gather_command_texts-IsWhole (engaged "") nested refl

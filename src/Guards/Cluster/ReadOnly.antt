-- ===== src/Guards/Cluster/ReadOnly.antt =====
-- The mutating verbs of kubectl: `classifyClusterSegment` and `evaluateCluster` of
-- guardrails/core/cluster-core.mjs.
use red_team_agent_orchestra.Common.{
  String, ◌≡◌, ◌≢◌, refl, true, false, none, some, List, [], ◌∷◌, includes, ◌==◌, eq_iff, or-false,
  arith, ok,
}
use red_team_agent_orchestra.Js.{Value}
use red_team_agent_orchestra.Guards.Host.{Host}
use red_team_agent_orchestra.Guards.Scan.{InCommand, Throughout-at}
use red_team_agent_orchestra.Guards.Commands.{extract_command}
use red_team_agent_orchestra.Guards.Cluster.{
  kubectl_read_verbs, kubectl_gated_verbs, kubectl_mutating_verbs, kubectl_value_flags, tool_of,
  cluster_invocation, first_subcommand, second_subcommand,
}
use red_team_agent_orchestra.Guards.Cluster.Lock.{
  refused, mutating_verb, classify_verb, classify_kubectl, classify_tool, classify_invocation,
  classify_cluster_segment, evaluate_cluster,
}
use red_team_agent_orchestra.Guards.Cluster.Reads.{includes-apart}
use red_team_agent_orchestra.Guards.Cluster.Sound.{IsHarmless, evaluate_cluster-IsHarmless}

-- A segment that runs kubectl, by whatever path and behind whatever wrappers, with a verb that
-- changes the cluster.
abbrev pub IsMutating : String → Type 0
IsMutating segment =
    (tokens : List String) × (cluster_invocation segment ≡ some tokens)
    × (tool_of tokens ≡ "kubectl")
    × (includes kubectl_mutating_verbs (first_subcommand kubectl_value_flags tokens) ≡ true)

differs : (s t : String) → (s == t) ≡ false → (t == s) ≡ false
differs s t e = ground (arith, eq_iff s t, eq_iff t s)

mutating-verb :
    (tokens : List String) (verb : String)
    → includes kubectl_mutating_verbs verb ≡ true
    → classify_verb tokens verb ≡ refused (mutating_verb verb)
unfolding classify_verb
mutating-verb tokens verb h =
    let reads = includes-apart kubectl_mutating_verbs kubectl_read_verbs verb refl h in
    let reaches = includes-apart kubectl_mutating_verbs kubectl_gated_verbs verb refl h in
    rw (reads, reaches, h) refl

mutating-kubectl :
    (tokens : List String) (verb sub : String)
    → includes kubectl_mutating_verbs verb ≡ true
    → classify_kubectl tokens verb sub ≡ refused (mutating_verb verb)
unfolding classify_kubectl
mutating-kubectl tokens verb sub h =
    let special =
      includes-apart kubectl_mutating_verbs ("" ∷ "auth" ∷ "rollout" ∷ []) verb refl h in
    let (empty, others) = or-false _ _ special in
    let (auth, last) = or-false _ _ others in
    let (rollout, none_left) = or-false _ _ last in
    rw (differs "" verb empty, differs "auth" verb auth, differs "rollout" verb rollout)
      (mutating-verb tokens verb h)

mutating-classified :
    (segment : String)
    → IsMutating segment
    → (verb : String) × (classify_cluster_segment segment ≡ refused (mutating_verb verb))
unfolding classify_cluster_segment classify_invocation classify_tool
mutating-classified segment (tokens, run, kubectl, mutates) = (
  first_subcommand kubectl_value_flags tokens,
  rw (run, kubectl)
      (mutating-kubectl tokens _ (second_subcommand kubectl_value_flags tokens) mutates),
)

-- Whatever the engagement says, a command does not pass the cluster lock if a segment of it, or of
-- a text within it, runs kubectl with a mutating verb, by whatever path and behind whatever
-- wrappers.
pub evaluate_cluster-mutating :
    (host : Host) (args : Value) (cwd tool segment : String)
    → InCommand host (extract_command args tool) segment
    → IsMutating segment
    → evaluate_cluster host args cwd tool ≢ ok none
evaluate_cluster-mutating host args cwd tool segment there mutates passes =
    let (verb, classified) = mutating-classified segment mutates in
    rw classified at (
      Throughout-at (λ s. IsHarmless host cwd s (classify_cluster_segment s)) host
        (extract_command args tool) segment (evaluate_cluster-IsHarmless host args cwd tool passes)
        there)

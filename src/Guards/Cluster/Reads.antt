-- ===== src/Guards/Cluster/Reads.antt =====
-- The segments that `classifyClusterSegment` of guardrails/core/cluster-core.mjs allows without a
-- gate, and the lists of subcommands that it tells apart.
use mathlib.Core.Path.{subst}
use red_team_agent_orchestra.Common.{
  String, ◌≡◌, refl, inl, inr, ◌⊎◌, Bool, true, false, Bool-cases, not, none, some, List, [], ◌∷◌,
  all, includes, ◌==◌, ◌||◌, eq→path, or-split, and-split, not-true, if◌then◌else◌, Option,
}
use red_team_agent_orchestra.Guards.Cluster.{
  container_runtimes, runtime_read_subcmds, runtime_active_subcmds, helm_read_subcmds,
  helm_mutating_subcmds, kubectl_read_verbs, kubectl_gated_verbs, kubectl_mutating_verbs,
  kubectl_value_flags, tool_of, cluster_invocation, first_subcommand, second_subcommand,
}
use red_team_agent_orchestra.Guards.Cluster.Lock.{
  Class, allowed, ungoverned, classify_verb, classify_kubectl, classify_helm, classify_runtime,
  classify_standalone, classify_tool, classify_invocation, classify_cluster_segment,
}

-- Texts that are apart from all those of a list.
abbrev apart : List String → List String → Bool
apart ss ts = all (λ s. not (includes ts s)) ss

pub includes-apart :
    (ss ts : List String) (s : String)
    → apart ss ts ≡ true
    → includes ss s ≡ true
    → includes ts s ≡ false
includes-apart [] ts s e h = absurd (cc)
includes-apart (r ∷ ss) ts s e h =
    let (here, there) = and-split _ _ e in
    elim (or-split _ _ h) [
      | inl same ↦
          subst (λ t. includes ts t ≡ false) (eq→path r s same) (not-true (includes ts r) here)
      | inr rest ↦ includes-apart ss ts s there rest
    ]

-- kubectl without a verb, a question about rights, a look at a rollout, or a verb of the read list,
-- which is none that reaches into the cluster and none that changes it.
abbrev pub IsKubectlRead : String → String → Type 0
IsKubectlRead verb sub =
    (verb ≡ "")
    ⊎ ((verb ≡ "auth") × (sub ≡ "can-i"))
    ⊎ ((verb ≡ "rollout") × ((sub ≡ "status") ⊎ (sub ≡ "history")))
    ⊎ ((includes kubectl_read_verbs verb ≡ true)
        × (includes kubectl_gated_verbs verb ≡ false)
        × (includes kubectl_mutating_verbs verb ≡ false))

-- A subcommand of helm's read list, and none that changes a release.
abbrev pub IsHelmRead : String → Type 0
IsHelmRead sub =
    (includes helm_read_subcmds sub ≡ true) × (includes helm_mutating_subcmds sub ≡ false)

-- A subcommand of the runtimes' read list, and none of their active ones.
abbrev pub IsRuntimeRead : String → Type 0
IsRuntimeRead sub =
    (includes runtime_read_subcmds sub ≡ true) × (includes runtime_active_subcmds sub ≡ false)

abbrev pub IsReading : List String → Type 0
IsReading tokens =
    ((tool_of tokens ≡ "kubectl")
      × IsKubectlRead (first_subcommand kubectl_value_flags tokens)
          (second_subcommand kubectl_value_flags tokens))
    ⊎ ((tool_of tokens ≡ "helm") × IsHelmRead (first_subcommand [] tokens))
    ⊎ ((includes container_runtimes (tool_of tokens) ≡ true)
        × IsRuntimeRead (first_subcommand [] tokens))

-- A segment that runs kubectl, helm or a container runtime with a subcommand on its read list.
abbrev pub IsRead : String → Type 0
IsRead segment =
    (tokens : List String) × (cluster_invocation segment ≡ some tokens) × IsReading tokens

allowed-verb :
    (tokens : List String) (verb : String)
    → classify_verb tokens verb ≡ allowed
    → (includes kubectl_read_verbs verb ≡ true)
      × (includes kubectl_gated_verbs verb ≡ false)
      × (includes kubectl_mutating_verbs verb ≡ false)
unfolding classify_verb
allowed-verb tokens verb e = elim (Bool-cases (includes kubectl_read_verbs verb)) [
  | inl h ↦ (
    h,
    includes-apart kubectl_read_verbs kubectl_gated_verbs verb refl h,
    includes-apart kubectl_read_verbs kubectl_mutating_verbs verb refl h,
  )
  | inr h ↦ elim (Bool-cases (includes kubectl_gated_verbs verb)) [
    | inl g ↦ absurd (cc (rw (h, g) at e))
    | inr g ↦ elim (Bool-cases (includes kubectl_mutating_verbs verb)) [
      | inl m ↦ absurd (cc (rw (h, g, m) at e))
      | inr m ↦ absurd (cc (rw (h, g, m) at e))
    ]
  ]
]

allowed-auth : (sub : String) → classify_kubectl [] "auth" sub ≡ allowed → sub ≡ "can-i"
unfolding classify_kubectl
allowed-auth sub e = elim (Bool-cases (sub == "can-i")) [
  | inl h ↦ eq→path sub "can-i" h
  | inr h ↦ absurd (cc (rw h at e))
]

allowed-rollout :
    (sub : String)
    → classify_kubectl [] "rollout" sub ≡ allowed
    → (sub ≡ "status") ⊎ (sub ≡ "history")
unfolding classify_kubectl
allowed-rollout sub e = elim (Bool-cases (sub == "status" || sub == "history")) [
  | inl h ↦ elim (or-split _ _ h) [
    | inl s ↦ inl (eq→path sub "status" s)
    | inr s ↦ inr (eq→path sub "history" s)
  ]
  | inr h ↦ absurd (cc (rw h at e))
]

allowed-kubectl :
    (tokens : List String) (verb sub : String)
    → classify_kubectl tokens verb sub ≡ allowed
    → IsKubectlRead verb sub
unfolding classify_kubectl
allowed-kubectl tokens verb sub e = elim (Bool-cases (verb == "")) [
  | inl h ↦ inl (eq→path verb "" h)
  | inr h ↦ elim (Bool-cases (verb == "auth")) [
    | inl a ↦ inr (inl (eq→path verb "auth" a, allowed-auth sub (rw (h, a) at e)))
    | inr a ↦ elim (Bool-cases (verb == "rollout")) [
      | inl r ↦ inr (inr (inl (eq→path verb "rollout" r, allowed-rollout sub (rw (h, a, r) at e))))
      | inr r ↦ inr (inr (inr (allowed-verb tokens verb (rw (h, a, r) at e))))
    ]
  ]
]

allowed-helm : (sub : String) → classify_helm sub ≡ allowed → IsHelmRead sub
unfolding classify_helm
allowed-helm sub e = elim (Bool-cases (includes helm_read_subcmds sub)) [
  | inl h ↦ (h, includes-apart helm_read_subcmds helm_mutating_subcmds sub refl h)
  | inr h ↦ elim (Bool-cases (includes helm_mutating_subcmds sub)) [
    | inl m ↦ absurd (cc (rw (h, m) at e))
    | inr m ↦ absurd (cc (rw (h, m) at e))
  ]
]

allowed-runtime :
    (tool : String) (tokens : List String) (sub : String)
    → classify_runtime tool tokens sub ≡ allowed
    → IsRuntimeRead sub
unfolding classify_runtime
allowed-runtime tool tokens sub e = elim (Bool-cases (includes runtime_read_subcmds sub)) [
  | inl h ↦ (h, includes-apart runtime_read_subcmds runtime_active_subcmds sub refl h)
  | inr h ↦ elim (Bool-cases (includes runtime_active_subcmds sub || sub == "")) [
    | inl m ↦ absurd (cc (rw (h, m) at e))
    | inr m ↦ absurd (cc (rw (h, m) at e))
  ]
]

allowed-tool :
    (tokens : List String) → classify_tool (tool_of tokens) tokens ≡ allowed → IsReading tokens
unfolding classify_tool classify_standalone
allowed-tool tokens e = elim (Bool-cases (tool_of tokens == "kubectl")) [
  | inl k ↦ inl (eq→path (tool_of tokens) "kubectl" k, allowed-kubectl tokens _ _ (rw k at e))
  | inr k ↦ elim (Bool-cases (tool_of tokens == "helm")) [
    | inl h ↦ inr (inl (eq→path (tool_of tokens) "helm" h, allowed-helm _ (rw (k, h) at e)))
    | inr h ↦ elim (Bool-cases (includes container_runtimes (tool_of tokens))) [
      | inl r ↦ inr (inr (r, allowed-runtime _ tokens _ (rw (k, h, r) at e)))
      | inr r ↦ absurd (cc (rw (k, h, r) at e))
    ]
  ]
]

allowed-invocation :
    (found : Option (List String))
    → classify_invocation found ≡ allowed
    → (tokens : List String) × (found ≡ some tokens) × IsReading tokens
unfolding classify_invocation
allowed-invocation none e = absurd (cc)
allowed-invocation (some tokens) e = (tokens, refl, allowed-tool tokens e)

abbrev is_classified : Class → Bool
is_classified ungoverned = false
is_classified _ = true

either_way :
    (b : Bool) (x y : Class)
    → is_classified x ≡ true
    → is_classified y ≡ true
    → is_classified (if b then x else y) ≡ true
either_way true x y h k = h
either_way false x y h k = k

classified_verb :
    (tokens : List String) (verb : String) → is_classified (classify_verb tokens verb) ≡ true
unfolding classify_verb
classified_verb tokens verb = either_way (includes kubectl_read_verbs verb) _ _ refl (
    either_way (includes kubectl_gated_verbs verb) _ _ refl
      (either_way (includes kubectl_mutating_verbs verb) _ _ refl refl))

classified_kubectl :
    (tokens : List String) (verb sub : String)
    → is_classified (classify_kubectl tokens verb sub) ≡ true
unfolding classify_kubectl
classified_kubectl tokens verb sub = either_way (verb == "") _ _ refl (
    either_way (verb == "auth") _ _ (either_way (sub == "can-i") _ _ refl refl) (
      either_way (verb == "rollout") _ _
        (either_way (sub == "status" || sub == "history") _ _ refl refl)
        (classified_verb tokens verb)))

classified_helm : (sub : String) → is_classified (classify_helm sub) ≡ true
unfolding classify_helm
classified_helm sub =
    either_way (includes helm_read_subcmds sub) _ _ refl
      (either_way (includes helm_mutating_subcmds sub) _ _ refl refl)

classified_runtime :
    (tool : String) (tokens : List String) (sub : String)
    → is_classified (classify_runtime tool tokens sub) ≡ true
unfolding classify_runtime
classified_runtime tool tokens sub =
    either_way (includes runtime_read_subcmds sub) _ _ refl
      (either_way (includes runtime_active_subcmds sub || sub == "") _ _ refl refl)

classified_tool :
    (tool : String) (tokens : List String) → is_classified (classify_tool tool tokens) ≡ true
unfolding classify_tool classify_standalone
classified_tool tool tokens = either_way (tool == "kubectl") _ _ (classified_kubectl tokens _ _) (
    either_way (tool == "helm") _ _ (classified_helm _)
      (either_way (includes container_runtimes tool) _ _ (classified_runtime tool tokens _) refl))

ungoverned-invocation :
    (found : Option (List String)) → classify_invocation found ≡ ungoverned → found ≡ none
unfolding classify_invocation
ungoverned-invocation none e = refl
ungoverned-invocation (some tokens) e =
    let classified = classified_tool (tool_of tokens) tokens in absurd (cc (rw e at classified))

pub ungoverned-none :
    (segment : String)
    → classify_cluster_segment segment ≡ ungoverned
    → cluster_invocation segment ≡ none
unfolding classify_cluster_segment
ungoverned-none segment e = ungoverned-invocation (cluster_invocation segment) e

pub allowed-IsRead :
    (segment : String) → classify_cluster_segment segment ≡ allowed → IsRead segment
unfolding classify_cluster_segment
allowed-IsRead segment e = allowed-invocation (cluster_invocation segment) e

-- ===== src/Guards/Cluster/Sound.antt =====
-- What `evaluateCluster` of guardrails/core/cluster-core.mjs lets pass.
use red_team_agent_orchestra.Common.{
  String, ◌≡◌, refl, inl, inr, true, false, Bool-cases, not, Option, none, some, Option-cases, List,
  All, find, find-none, Result, throw, ok,
}
use red_team_agent_orchestra.Js.{Value}
use red_team_agent_orchestra.Guards.Host.{Host}
use red_team_agent_orchestra.Guards.Scan.{Throughout, Throughout-mono, scan-none, outcome-none}
use red_team_agent_orchestra.Guards.Commands.{extract_command}
use red_team_agent_orchestra.Guards.Engagement.Gate.{
  Gate, closed, opened, gate_of-opened, Authorized, unauthorized-none,
}
use red_team_agent_orchestra.Guards.Cluster.{Selectors, cluster_invocation}
use red_team_agent_orchestra.Guards.Cluster.Allowlist.{
  Allowlist, vacant, cluster_testing_gate, load_cluster_allowlist, read_cluster_testing_config,
  registry_on_allowlist, has_kubectl_cluster_selector, kubectl_targets_allowlisted_cluster,
}
use red_team_agent_orchestra.Guards.Cluster.Reads.{IsRead, allowed-IsRead, ungoverned-none}
use red_team_agent_orchestra.Guards.Cluster.Lock.{
  Class, ungoverned, allowed, refused, gated, classify_cluster_segment, check_selectors, check_gate,
  check_class, check_segment, evaluate_cluster,
}

-- A kubectl call names a cluster, and one that is on the list.
abbrev pub IsSelected : Host → Allowlist → Option Selectors → Type 0
IsSelected host list none = Unit
IsSelected host list (some sel) =
    (has_kubectl_cluster_selector sel ≡ true)
    × (kubectl_targets_allowlisted_cluster host sel list ≡ true)

-- The engagement is authorized, the session's list is not empty, and the images and the cluster
-- are on it.
pub record InScope (host : Host) (cwd : String) (images : List String) (sel : Option Selectors)
    : Type 0 where
  pub list : Allowlist
  pub is_authorized :
      Authorized host "cluster-active-testing" (read_cluster_testing_config host cwd)
  pub is_loaded : load_cluster_allowlist host cwd ≡ ok (some list)
  pub is_filled : vacant list ≡ false
  pub has_images : All (λ image. registry_on_allowlist image list ≡ true) images
  pub has_cluster : IsSelected host list sel

-- What is done by a segment of a class that passes.
abbrev pub IsHarmless : Host → String → String → Class → Type 0
IsHarmless host cwd segment ungoverned = cluster_invocation segment ≡ none
IsHarmless host cwd segment allowed = IsRead segment
IsHarmless host cwd segment (refused reason) = ⊥
IsHarmless host cwd segment (gated tool images sel) = InScope host cwd images sel

check_selectors-none :
    (host : Host) (tool : String) (sel : Option Selectors) (list : Allowlist)
    → check_selectors host tool sel list ≡ none
    → IsSelected host list sel
unfolding check_selectors
check_selectors-none host tool none list e = tt
check_selectors-none host tool (some sel) list e =
    elim (Bool-cases (has_kubectl_cluster_selector sel)) [
      | inr h ↦ absurd (cc (rw h at e))
      | inl h ↦ elim (Bool-cases (kubectl_targets_allowlisted_cluster host sel list)) [
        | inr k ↦ absurd (cc (rw (h, k) at e))
        | inl k ↦ (h, k)
      ]
    ]

-- A gated segment passes only through an open gate.
check_gate-opened :
    (host : Host) (tool : String) (images : List String) (sel : Option Selectors)
    (gate : Result (Gate Allowlist))
    → check_gate host tool images sel gate ≡ none
    → (list : Allowlist) × (gate ≡ ok (opened list))
      × All (λ image. registry_on_allowlist image list ≡ true) images
      × IsSelected host list sel
unfolding check_gate
check_gate-opened host tool images sel (throw problem) e = absurd (cc)
check_gate-opened host tool images sel (ok (closed reason)) e = absurd (cc)
check_gate-opened host tool images sel (ok (opened list)) e =
    elim (Option-cases (find (λ image. not (registry_on_allowlist image list)) images)) [
      | inr (image, h) ↦ absurd (cc (rw h at e))
      | inl h ↦ (
        list,
        refl,
        find-none (λ image. registry_on_allowlist image list) images h,
        check_selectors-none host tool sel list (rw h at e),
      )
    ]

check_gate-none :
    (host : Host) (cwd tool : String) (images : List String) (sel : Option Selectors)
    → check_gate host tool images sel (cluster_testing_gate host cwd) ≡ none
    → InScope host cwd images sel
unfolding cluster_testing_gate
check_gate-none host cwd tool images sel e =
    let (list, open_to, on_list, chosen) =
      check_gate-opened host tool images sel (cluster_testing_gate host cwd) e in
    let (passed, loaded, filled) = gate_of-opened vacant _ _ list open_to in
    record {
      list = list;
      is_authorized = unauthorized-none host "cluster-active-testing" _ passed;
      is_loaded = loaded;
      is_filled = filled;
      has_images = on_list;
      has_cluster = chosen;
    }

check_class-none :
    (host : Host) (cwd segment : String) (class : Class)
    → classify_cluster_segment segment ≡ class
    → check_class host cwd class ≡ none
    → IsHarmless host cwd segment class
unfolding check_class
check_class-none host cwd segment ungoverned c e = ungoverned-none segment c
check_class-none host cwd segment allowed c e = allowed-IsRead segment c
check_class-none host cwd segment (refused reason) c e = absurd (cc)
check_class-none host cwd segment (gated tool images sel) c e =
    check_gate-none host cwd tool images sel e

-- The cluster lock lets a command pass only if each segment of it, of the texts directly within it,
-- and of the texts that are gathered from it, runs none of the programs that the lock governs; or
-- runs kubectl, helm or a container runtime with a subcommand on its read list, which is none that
-- mutates, and none that reaches into the cluster or into a container; or is gated and in scope: the engagement is authorized for
-- cluster-active testing, the session's allowlist is loaded and not empty, every registry image is
-- on it, and a kubectl call names a cluster of it. A segment that is refused never passes.
pub evaluate_cluster-IsHarmless :
    (host : Host) (args : Value) (cwd tool : String)
    → evaluate_cluster host args cwd tool ≡ ok none
    → Throughout host
        (extract_command args tool)
        (λ segment. IsHarmless host cwd segment (classify_cluster_segment segment))
unfolding evaluate_cluster check_segment
evaluate_cluster-IsHarmless host args cwd tool e =
    Throughout-mono host (extract_command args tool)
      (λ s k. check_class-none host cwd s (classify_cluster_segment s) refl k)
      (scan-none host (check_segment host cwd) (extract_command args tool) (outcome-none _ e))

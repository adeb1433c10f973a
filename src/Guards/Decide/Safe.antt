-- ===== src/Guards/Decide/Safe.antt =====
-- What `decide` of guardrails/guard.mjs allows, what it asks about and what it denies.
use red_team_agent_orchestra.Common.{
  String, ◌≡◌, refl, ◌≢◌, ◌==◌, Bool, false, true, Option, none, some, Result, throw, ok, Error,
}
use red_team_agent_orchestra.Js.{Value}
use red_team_agent_orchestra.Guards.Host.{Host}
use red_team_agent_orchestra.Guards.Scan.{Finding, InCommand, Throughout}
use red_team_agent_orchestra.Guards.Commands.{extract_command, engagement_mode, or_default}
use red_team_agent_orchestra.Guards.Azure.Verdict.{Verdict, allow, ask, deny, evaluate}
use red_team_agent_orchestra.Guards.Azure.Sound.{IsRecognized, IsJust, Stopped, evaluate-IsJust}
use red_team_agent_orchestra.Guards.Egress.{parse_probe_segment}
use red_team_agent_orchestra.Guards.Egress.Lock.{EgressDenial, evaluate_egress}
use red_team_agent_orchestra.Guards.Egress.Sound.{
  IsHarmless as IsInScope, evaluate_egress-IsHarmless,
}
use red_team_agent_orchestra.Guards.Cluster.Lock.{
  ClusterDenial, classify_cluster_segment, evaluate_cluster,
}
use red_team_agent_orchestra.Guards.Cluster.Sound.{IsHarmless, evaluate_cluster-IsHarmless}
use red_team_agent_orchestra.Guards.Cluster.ReadOnly.{IsMutating, evaluate_cluster-mutating}
use red_team_agent_orchestra.Guards.Decide.{
  Call, to_tool_args, Refusal, egress_unknown, egress_lock, cluster_unknown, cluster_lock,
  read_only, Decision, allowed, asked, denied, apply_verdict, after_cluster, after_egress,
  decide_in, decide,
}

module _ (host : Host) (args : Value) (cwd tool : String) where
  abbrev command : String
  command = extract_command args tool

  -- Each segment of the command, and of the texts in it, is harmless on the internet and in the
  -- clusters.
  abbrev IsLocked : Type 0
  IsLocked =
      Throughout host command (λ s. IsInScope host cwd (parse_probe_segment host s))
      × Throughout host command (λ s. IsHarmless host cwd s (classify_cluster_segment s))

  -- Why a call is denied.
  abbrev IsCause : Refusal → Type 0
  IsCause egress_unknown = (e : Error) × (evaluate_egress host args cwd tool ≡ throw e)
  IsCause (egress_lock found) = evaluate_egress host args cwd tool ≡ ok (some found)
  IsCause cluster_unknown = (e : Error) × (evaluate_cluster host args cwd tool ≡ throw e)
  IsCause (cluster_lock found) = evaluate_cluster host args cwd tool ≡ ok (some found)
  IsCause (read_only mode found) =
      (mode ≡ engagement_mode host cwd)
      × ((mode == "controlled-validation") ≡ false)
      × Stopped host command found

  -- What a decision says of the call.
  abbrev pub IsRight : Decision → Type 0
  IsRight allowed = Throughout host command IsRecognized × IsLocked
  IsRight (asked found) =
      (engagement_mode host cwd ≡ "controlled-validation") × Stopped host command found × IsLocked
  IsRight (denied refusal) = IsCause refusal

  verdict-IsRight :
      (v : Verdict)
      → IsJust host (engagement_mode host cwd) command v
      → IsLocked
      → IsRight (apply_verdict (engagement_mode host cwd) v)
  unfolding apply_verdict
  verdict-IsRight allow h locked = (h, locked)
  verdict-IsRight (ask found) h locked = (h.0, h.1, locked)
  verdict-IsRight (deny found) h locked = (refl, h.0, h.1)

  cluster-IsRight :
      (o : Result (Option (Finding ClusterDenial))) (next : Decision)
      → evaluate_cluster host args cwd tool ≡ o
      → (evaluate_cluster host args cwd tool ≡ ok none → IsRight next)
      → IsRight (after_cluster o next)
  unfolding after_cluster
  cluster-IsRight (throw problem) next e h = (problem, e)
  cluster-IsRight (ok (some found)) next e h = e
  cluster-IsRight (ok none) next e h = h e

  egress-IsRight :
      (o : Result (Option (Finding EgressDenial))) (next : Decision)
      → evaluate_egress host args cwd tool ≡ o
      → (evaluate_egress host args cwd tool ≡ ok none → IsRight next)
      → IsRight (after_egress o next)
  unfolding after_egress
  egress-IsRight (throw problem) next e h = (problem, e)
  egress-IsRight (ok (some found)) next e h = e
  egress-IsRight (ok none) next e h = h e

  decide_in-IsRight : IsRight (decide_in host args cwd tool)
  unfolding decide_in
  decide_in-IsRight = egress-IsRight _ _ refl (λ probes. cluster-IsRight _ _ refl (λ clusters.
      verdict-IsRight (evaluate host args cwd tool) (evaluate-IsJust host args cwd tool) (
        evaluate_egress-IsHarmless host args cwd tool probes,
        evaluate_cluster-IsHarmless host args cwd tool clusters,
      )))

-- The decision on a call is always right. It allows only if each segment of the command, of the texts
-- directly within it, and of the texts gathered from it, is no Azure command or a recognized read or
-- session command; is no probe, is a probe in which the egress lock sees neither a target nor a file
-- of targets, or is in that lock's scope; and runs no program that the cluster lock governs, runs one
-- with a subcommand on its read list, or is in that lock's scope. It asks only in the mode
-- controlled-validation, of an Azure command that is not recognized, and only if the two locks let
-- the command pass. It denies because a lock stopped a segment or threw, or, in another mode, because
-- of an Azure command that is not recognized.
pub decide-IsRight :
    (host : Host) (call : Call)
    → IsRight host
        (to_tool_args call.command)
        (or_default call.cwd ".")
        call.tool_name
        (decide host call)
unfolding decide
decide-IsRight host call =
    decide_in-IsRight host (to_tool_args call.command) (or_default call.cwd ".") call.tool_name

abbrev pub is_denied : Decision → Bool
is_denied allowed = false
is_denied (asked found) = false
is_denied (denied refusal) = true

denied_by :
    (probes : Result (Option (Finding EgressDenial)))
    (clusters : Result (Option (Finding ClusterDenial))) (next : Decision)
    → clusters ≢ ok none
    → is_denied (after_egress probes (after_cluster clusters next)) ≡ true
unfolding after_egress after_cluster
denied_by (throw problem) clusters next h = refl
denied_by (ok (some found)) clusters next h = refl
denied_by (ok none) (throw problem) next h = refl
denied_by (ok none) (ok (some found)) next h = refl
denied_by (ok none) (ok none) next h = absurd (h refl)

-- A call whose command, or a text within it, has a segment that runs kubectl with a mutating verb is
-- denied, whatever the engagement says and the tool is.
pub decide-mutating :
    (host : Host) (call : Call) (segment : String)
    → InCommand host (extract_command (to_tool_args call.command) call.tool_name) segment
    → IsMutating segment
    → is_denied (decide host call) ≡ true
unfolding decide decide_in
decide-mutating host call segment there mutates = denied_by _ _ _ (
    evaluate_cluster-mutating host (to_tool_args call.command) (or_default call.cwd ".")
      call.tool_name segment there mutates)

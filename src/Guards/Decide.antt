-- ===== src/Guards/Decide.antt =====
-- The decision on a tool call that all runtimes share: `decide` of guardrails/guard.mjs. A reason is
-- a constructor, its message's parts as arguments. `evaluate` never throws here, so its fail-closed
-- branch has none.
pub mod Safe
use red_team_agent_orchestra.Common.{String, Option, none, some, Result, throw, ok}
use red_team_agent_orchestra.Js.{Value, undefined, null, str, obj, prop, end}
use red_team_agent_orchestra.Guards.Host.{Host}
use red_team_agent_orchestra.Guards.Scan.{Finding}
use red_team_agent_orchestra.Guards.Commands.{engagement_mode, or_default}
use red_team_agent_orchestra.Guards.Azure.Verdict.{Reason, Verdict, allow, ask, deny, evaluate}
use red_team_agent_orchestra.Guards.Egress.Lock.{EgressDenial, evaluate_egress}
use red_team_agent_orchestra.Guards.Cluster.Lock.{ClusterDenial, evaluate_cluster}

pub record Call : Type 0 where
  pub command : Value
  pub cwd : String
  pub tool_name : String

unfoldable pub to_tool_args : Value → Value
to_tool_args undefined = str ""
to_tool_args null = str ""
to_tool_args (str s) = obj (prop "command" (str s) end)
to_tool_args command = command

pub data Refusal : Type 0 where
  egress_unknown : Refusal  -- FAIL_CLOSED_EGRESS
  egress_lock : Finding EgressDenial → Refusal
  cluster_unknown : Refusal  -- FAIL_CLOSED_CLUSTER
  cluster_lock : Finding ClusterDenial → Refusal
  read_only : String → Finding Reason → Refusal

pub data Decision : Type 0 where
  allowed : Decision
  asked : Finding Reason → Decision
  denied : Refusal → Decision

unfoldable pub apply_verdict : String → Verdict → Decision
apply_verdict mode allow = allowed
apply_verdict mode (ask found) = asked found
apply_verdict mode (deny found) = denied (read_only mode found)

unfoldable pub after_cluster : Result (Option (Finding ClusterDenial)) → Decision → Decision
after_cluster (throw problem) next = denied cluster_unknown
after_cluster (ok (some found)) next = denied (cluster_lock found)
after_cluster (ok none) next = next

unfoldable pub after_egress : Result (Option (Finding EgressDenial)) → Decision → Decision
after_egress (throw problem) next = denied egress_unknown
after_egress (ok (some found)) next = denied (egress_lock found)
after_egress (ok none) next = next

unfoldable pub decide_in : Host → Value → String → String → Decision
decide_in host args cwd tool = after_egress (evaluate_egress host args cwd tool) (
    after_cluster (evaluate_cluster host args cwd tool)
      (apply_verdict (engagement_mode host cwd) (evaluate host args cwd tool)))

unfoldable pub decide : Host → Call → Decision
decide host call =
    decide_in host (to_tool_args call.command) (or_default call.cwd ".") call.tool_name

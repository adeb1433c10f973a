-- ===== src/Examples/Graphs.antt =====
-- A small graph with an authorization interrupt, and a scope that has what the interrupt asks for.
use red_team_agent_orchestra.Common.{
  String, Bool, true, false, Option, none, some, [], ◌∷◌, Result, ok,
}
use red_team_agent_orchestra.Js.{Value, bool, str, obj, end, prop}
use red_team_agent_orchestra.Graph.Schema.{Channel, Node, Graph, Dict}
use red_team_agent_orchestra.Graph.Routing.{route_active}
use red_team_agent_orchestra.Graph.Runner.{
  Setup, Config, Round, go_on, Outcome, completed, interrupted, failed,
}

abbrev pub kept : Channel
kept = record { types = "object" ∷ []; reducer = "last" }

abbrev bare : String → String → Node
bare name sort_of = record {
  id = name;
  kind = sort_of;
  reads = none;
  writes = none;
  emits = [];
  agent = none;
  lane = none;
  gated = none;
  over = none;
  into = none;
  reduce_into = none;
  reducer = none;
  evaluator = none;
  prompt = none;
  on_approve = none;
  on_reject = none;
  namespace = none;
  is_mutable = false;
  memory_write = none;
}

abbrev pub gate : Node
gate = record (bare "gate" "interrupt") {
  prompt = some "Approve?";
  on_reject = some "END";
  gated = some (record {
    mode = "cluster-active-testing";
    requires =
        some ("cluster_testing.enabled" ∷ "cluster_testing.authorization.attestation_id" ∷ []);
  });
}

abbrev work : Node
work = record (bare "work" "dispatch") { agent = some "$roster.agent" }

abbrev pub small : Graph
small = record {
  channels = ("scope", kept) ∷ ("approved", kept) ∷ ("critique", kept) ∷ ("revision", kept) ∷ [];
  params = [];
  roster =
      record {
        domain = some "identity";
        agent = some "identity-agent";
        when = none;
        scope_domains = none;
        resource_types = none;
      }
      ∷ [];
  nodes = gate ∷ work ∷ [];
  edges = record { from = "START"; to = "gate" } ∷ record { from = "work"; to = "END" } ∷ [];
  conditional_edges =
      record {
        from = "gate";
        router = "route_active";
        branches = ("cluster_active", "work") ∷ ("none", "END") ∷ [];
      }
      ∷ [];
}

abbrev pub allowed : Value
allowed = obj (
    prop "mode" (str "cluster-active-testing") (
      prop "cluster_testing"
        (obj (
          prop "enabled" (bool true)
            (prop "authorization" (obj (prop "attestation_id" (str "A-1") end)) end)))
        end))

abbrev pub scoped : Dict
scoped = ("scope", allowed) ∷ []

-- A run of the graph that no handler takes part in, with the decision that it is given.
abbrev pub quiet : Option Bool → Setup (Unit {0})
quiet decision = record {
  graph = small;
  params = [];
  routers = ("route_active", route_active) ∷ [];
  handlers = [];
  max_steps = 10;
  decision = decision;
}

abbrev pub at_gate : Config (Unit {0})
at_gate = record {
  current = some "gate";
  state = scoped;
  world = tt;
  path = [];
  steps = 0;
  checkpoints = [];
}

-- The configuration that a round goes on with.
abbrev pub after : {W : Type 0} → Config W → Result (Round W) → Config W
after c (ok (go_on d)) = d
after c _ = c

-- The configuration that a run stops in.
abbrev pub stopped : {W : Type 0} → Outcome W → Config W
stopped (completed c) = c
stopped (interrupted c prompt) = c
stopped (failed e c) = c

-- ===== src/Graph/Validator.antt =====
-- `validateGraph` of tools/graph/validate-graph.mjs, up to its two reachability passes. Each message
-- is a constructor; `none` and the empty text are the fields that its `typeof` tests reject.
pub mod Sound
use red_team_agent_orchestra.Common.{
  ℕ, String, Bool, true, false, ◌&&◌, ◌||◌, not, Option, none, some, List, [], ◌∷◌, ◌++◌, any,
  includes, keep, length, ltb, eqb, keys, ◌==◌, if◌then◌else◌,
}
use red_team_agent_orchestra.Graph.Schema.{
  Channel, RosterItem, Gated, Node, Edge, ConditionalEdge, Graph,
}

pub data Problem : Type 0 where
  no_channels no_start_edge empty_roster : Problem
  channel_reducer missing_id reserved_id duplicate_id unknown_kind : String → Problem
  channel_reference : String → String → String → Problem
  memory_namespace firewall_violation missing_agent unknown_agent unknown_lane : String → Problem
  ungated_lane gated_mode fanout_over fanout_into fanout_channel : String → Problem
  node_reducer missing_writes missing_reads missing_evaluator missing_prompt : String → Problem
  reject_target approve_target missing_namespace mutable_read : String → Problem
  roster_domain : Problem
  roster_agent roster_card end_source start_target edge_from edge_to : String → Problem
  condition_from condition_router condition_branches : String → Problem
  branch_target : String → String → Problem

abbrev reducers : List String
reducers = "last" ∷ "append" ∷ "merge_findings" ∷ []

abbrev node_kinds : List String
node_kinds =
    "validate" ∷ "memory_read" ∷ "context" ∷ "dispatch" ∷ "fanout" ∷ "reduce" ∷ "evaluator"
    ∷ "judge" ∷ "interrupt" ∷ "memory_write" ∷ []

abbrev lanes : List String
lanes = "default" ∷ "external-active" ∷ "cluster-active" ∷ []

abbrev gated_modes : List String
gated_modes = "external-active-testing" ∷ "cluster-active-testing" ∷ []

-- The immutable boundary: self-improvement may never write these namespaces.
abbrev pub guard_namespaces : List String
guard_namespaces = "guardrails" ∷ "allowlist" ∷ "egress" ∷ "readonly" ∷ "guard" ∷ []

-- `if (test) err(p)`
abbrev pub complain : Bool → Problem → List Problem
complain true p = p ∷ []
complain false p = []

-- A text that is there and not empty.
abbrev pub given : Option String → Bool
given none = false
given (some s) = not (s == "")

abbrev pub text_of : Option String → String
text_of none = ""
text_of (some s) = s

unfoldable pub check_channels : List (String × Channel) → List Problem
check_channels [] = []
check_channels ((name, ch) ∷ rest) =
    complain (not (includes reducers ch.reducer)) (channel_reducer name) ++ check_channels rest

-- the ids under which `byId` holds a node
unfoldable pub node_ids : List Node → List String
node_ids [] = []
node_ids (n ∷ ns) = if n.id == "" then node_ids ns else n.id ∷ node_ids ns

-- the loop over node ids; `seen` is what `byId` holds
unfoldable pub check_ids : List String → List Node → List Problem
check_ids seen [] = []
check_ids seen (n ∷ ns) =
    let rest = check_ids (n.id ∷ seen) ns in
    let others = check_ids seen ns in
    if n.id == ""
    then missing_id n.kind ∷ others
    else complain (n.id == "START" || n.id == "END") (reserved_id n.id)
      ++ complain (includes seen n.id) (duplicate_id n.id)
      ++ complain (not (includes node_kinds n.kind)) (unknown_kind n.id)
      ++ rest

abbrev pub is_node_or_end : List String → String → Bool
is_node_or_end ids id = id == "END" || includes ids id

abbrev pub refers : List String → Option String → Bool
refers known none = true
refers known (some c) = includes known c

-- `chanRef`
unfoldable pub check_reference : List String → String → String → Option String → List Problem
check_reference channels id field none = []
check_reference channels id field (some c) =
    complain (not (includes channels c)) (channel_reference id field c)

unfoldable pub check_references : List String → String → String → List String → List Problem
check_references channels id field [] = []
check_references channels id field (c ∷ cs) =
    complain (not (includes channels c)) (channel_reference id field c)
    ++ check_references channels id field cs

-- `assertMemoryWrite`
unfoldable pub check_memory_write : String → Option String → List Problem
check_memory_write id namespace =
    if given namespace
    then complain (includes guard_namespaces (text_of namespace)) (firewall_violation id)
    else memory_namespace id ∷ []

abbrev lane_name : Option String → String
lane_name none = "default"
lane_name (some lane) = lane

abbrev check_gate : String → Option Gated → List Problem
check_gate id none = ungated_lane id ∷ []
check_gate id (some g) = complain (not (includes gated_modes g.mode)) (gated_mode id)

unfoldable pub check_agent : List String → String → Option String → List Problem
check_agent agents id agent =
    if given agent
    then complain
        (not (text_of agent == "$roster.agent")
          && not (eqb (length agents) 0)
          && not (includes agents (text_of agent)))
        (unknown_agent id)
    else missing_agent id ∷ []

unfoldable pub check_dispatch : List String → Node → List Problem
check_dispatch agents n =
    let lane = lane_name n.lane in
    check_agent agents n.id n.agent
    ++ complain (not (includes lanes lane)) (unknown_lane n.id)
    ++ (if lane == "default" then [] else check_gate n.id n.gated)

unfoldable pub check_fanout : List String → List String → Node → List Problem
check_fanout channels ids n =
    complain (not (text_of n.over == "roster")) (fanout_over n.id)
    ++ complain (not (includes ids (text_of n.into))) (fanout_into n.id)
    ++ check_reference channels n.id "reduce_into" n.reduce_into
    ++ complain (not (given n.reduce_into)) (fanout_channel n.id)

unfoldable pub check_reduce : Node → List Problem
check_reduce n =
    complain (not (includes reducers (text_of n.reducer))) (node_reducer n.id)
    ++ complain (not (given n.writes)) (missing_writes n.id)

abbrev pub check_memory_block : String → Option (Option String) → List Problem
check_memory_block id none = []
check_memory_block id (some namespace) = check_memory_write id namespace

unfoldable pub check_judge : Node → List Problem
check_judge n =
    complain (not (given n.writes)) (missing_writes n.id) ++ check_memory_block n.id n.memory_write

abbrev pub target_known : List String → Option String → Bool
target_known ids none = true
target_known ids (some id) = is_node_or_end ids id

unfoldable pub check_interrupt : List String → List ConditionalEdge → Node → List Problem
check_interrupt ids conds n =
    complain (not (given n.prompt)) (missing_prompt n.id)
    ++ complain (not (target_known ids n.on_reject)) (reject_target n.id)
    ++ complain
        (not (target_known ids n.on_approve)
          && not (any (λ c. c.from == n.id && c.router == text_of n.on_approve) conds))
        (approve_target n.id)

unfoldable pub check_kind :
    List String → List String → List String → List ConditionalEdge → Node → List Problem
check_kind agents channels ids conds n =
    if n.kind == "dispatch"
    then check_dispatch agents n
    else if n.kind == "fanout"
    then check_fanout channels ids n
    else if n.kind == "reduce"
    then check_reduce n
    else if n.kind == "evaluator"
    then complain (not (given n.evaluator)) (missing_evaluator n.id)
    else if n.kind == "judge"
    then check_judge n
    else if n.kind == "interrupt"
    then check_interrupt ids conds n
    else if n.kind == "memory_read"
    then complain (not (given n.namespace)) (missing_namespace n.id)
      ++ complain n.is_mutable (mutable_read n.id)
    else if n.kind == "context"
    then complain (not (given n.writes)) (missing_writes n.id)
      ++ complain (not (given n.reads)) (missing_reads n.id)
    else if n.kind == "memory_write"
    then check_memory_write n.id n.namespace
    else []

unfoldable pub check_nodes :
    List String → List String → List String → List ConditionalEdge → List Node → List Problem
check_nodes agents channels ids conds [] = []
check_nodes agents channels ids conds (n ∷ ns) =
    check_reference channels n.id "writes" n.writes
    ++ check_reference channels n.id "reads" n.reads
    ++ check_references channels n.id "emits" n.emits
    ++ check_kind agents channels ids conds n
    ++ check_nodes agents channels ids conds ns

unfoldable pub check_roster : List String → List RosterItem → List Problem
check_roster agents [] = []
check_roster agents (r ∷ rs) =
    complain (not (given r.domain)) roster_domain
    ++ (if given r.agent
        then complain (not (eqb (length agents) 0) && not (includes agents (text_of r.agent)))
            (roster_card (text_of r.domain))
        else roster_agent (text_of r.domain) ∷ [])
    ++ check_roster agents rs

unfoldable pub check_edge : List String → Edge → List Problem
check_edge ids e =
    complain (e.from == "END") (end_source e.to)
    ++ complain (e.to == "START") (start_target e.from)
    ++ complain (not (e.from == "START") && not (includes ids e.from)) (edge_from e.from)
    ++ complain (not (e.to == "END") && not (includes ids e.to)) (edge_to e.to)

unfoldable pub check_edges : List String → List Edge → List Problem
check_edges ids [] = []
check_edges ids (e ∷ es) = check_edge ids e ++ check_edges ids es

unfoldable pub start_targets : List Edge → ℕ
start_targets edges = length (keep (λ e. e.from == "START") edges)

unfoldable pub check_branches : List String → String → List (String × String) → List Problem
check_branches ids from [] = []
check_branches ids from ((label, target) ∷ rest) =
    complain (not (is_node_or_end ids target)) (branch_target from label)
    ++ check_branches ids from rest

unfoldable pub check_conditions : List String → List ConditionalEdge → List Problem
check_conditions ids [] = []
check_conditions ids (c ∷ cs) =
    complain (not (includes ids c.from)) (condition_from c.from)
    ++ complain (c.router == "") (condition_router c.from)
    ++ complain (eqb (length c.branches) 0) (condition_branches c.from)
    ++ check_branches ids c.from c.branches
    ++ check_conditions ids cs

-- the `errors` of `validateGraph` before its reachability passes
unfoldable pub structural_errors : List String → Graph → List Problem
structural_errors agents graph =
    let ids = node_ids graph.nodes in
    let channels = keys graph.channels in
    complain (eqb (length graph.channels) 0) no_channels
    ++ check_channels graph.channels
    ++ check_ids [] graph.nodes
    ++ check_nodes agents channels ids graph.conditional_edges graph.nodes
    ++ complain (eqb (length graph.roster) 0) empty_roster
    ++ check_roster agents graph.roster
    ++ check_edges ids graph.edges
    ++ complain (eqb (start_targets graph.edges) 0) no_start_edge
    ++ check_conditions ids graph.conditional_edges

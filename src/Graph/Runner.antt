-- ===== src/Graph/Runner.antt =====
-- `runGraph` of tools/graph/run-graph.mjs: the loop over nodes, with handlers that the host gives.
-- What a handler does outside the run state (memory, audit log, dispatch) is a value of `W`.
-- Times (`ts`) are left out of checkpoints.
pub mod Trace
pub mod Budget
pub mod Indexed
pub mod Known
pub mod Pause
pub mod Simulation
pub mod Resume
pub mod Authorization
use red_team_agent_orchestra.Common.{
  ℕ, zero, suc, ◌+◌, String, Bool, true, false, ◌&&◌, ◌||◌, not, Option, none, some, List, [], ◌∷◌,
  ◌++◌, lookup, insert, Result, ok, throw, ◌>>=◌, Error, unknown_node, unknown_branch,
  no_transition, no_router, type_error, no_start, step_budget, is_some, ◌==◌, if◌then◌else◌,
}
use red_team_agent_orchestra.Js.{Value, undefined, null, bool, obj, end, or_else}
use red_team_agent_orchestra.Graph.Schema.{RosterItem, Node, Edge, ConditionalEdge, Dict, Graph, at}
use red_team_agent_orchestra.Graph.State.{Writes, initial_state, apply_write, apply_results}
use red_team_agent_orchestra.Graph.Routing.{in_scope_roster, assert_active_requirements}

-- `indexGraph`
pub record Index : Type 0 where
  pub by_id : List (String × Node)
  pub edge_from : List (String × List String)
  pub cond_from : List (String × ConditionalEdge)

unfoldable pub index_nodes : List Node → List (String × Node) → List (String × Node)
index_nodes [] m = m
index_nodes (n ∷ ns) m = index_nodes ns (insert n.id n m)

abbrev list_or_nil : Option (List String) → List String
list_or_nil none = []
list_or_nil (some l) = l

unfoldable pub index_edges : List Edge → List (String × List String) → List (String × List String)
index_edges [] m = m
index_edges (e ∷ es) m =
    index_edges es (insert e.from (list_or_nil (lookup e.from m) ++ e.to ∷ []) m)

unfoldable pub index_conditional :
    List ConditionalEdge → List (String × ConditionalEdge) → List (String × ConditionalEdge)
index_conditional [] m = m
index_conditional (c ∷ cs) m = index_conditional cs (insert c.from c m)

unfoldable pub index_graph : Graph → Index
index_graph graph = record {
  by_id = index_nodes graph.nodes [];
  edge_from = index_edges graph.edges [];
  cond_from = index_conditional graph.conditional_edges [];
}

abbrev first : List String → Option String
first [] = none
first (s ∷ _) = some s

-- `linearNext`
unfoldable pub linear_next : Index → String → Option String
linear_next ix id = first (list_or_nil (lookup id ix.edge_from))

abbrev pub Router : Type 0
Router = Dict → Dict → String

-- `{ ...base, ...extra }` of two registries
unfoldable pub override {ℓ} :
    {A : Type ℓ} → List (String × A) → List (String × A) → List (String × A)
override base [] = base
override base ((k, v) ∷ extra) = override (insert k v base) extra

abbrev pub Handler : Type 0 → Type 0
Handler W = Node → Option RosterItem → Dict → W → Result (Writes × W)

pub record Checkpoint : Type 0 where
  pub step : ℕ
  pub node : Option String
  pub status : String
  pub state : Dict

pub record Config (W : Type 0) : Type 0 where
  pub current : Option String  -- `none` is `undefined`
  pub state : Dict
  pub world : W
  pub path : List String
  pub steps : ℕ
  pub checkpoints : List Checkpoint

-- How one round of the loop ends when it does not throw.
pub data Round (W : Type 0) : Type 0 where
  go_on : Config W → Round W
  pause : Config W → Option String → Round W

pub data Outcome (W : Type 0) : Type 0 where
  completed : Config W → Outcome W
  interrupted : Config W → Option String → Outcome W
  failed : Error → Config W → Outcome W

-- The options of a run, with the defaults of `runGraph` filled in by the caller.
pub record Setup (W : Type 0) : Type 0 where
  pub graph : Graph
  pub params : Dict
  pub routers : List (String × Router)
  pub handlers : List (String × Handler W)
  pub max_steps : ℕ
  pub decision : Option Bool

abbrev or_value {ℓ} : {A : Type ℓ} → Option A → Option A → Option A
or_value none b = b
or_value (some a) b = some a

-- A start that is "" counts as none.
abbrev pub non_blank : Option String → Option String
non_blank none = none
non_blank (some id) = if id == "" then none else some id

abbrev target_of : ConditionalEdge → String → Option String → Result String
target_of cond label none = throw (unknown_branch cond.router label)
target_of cond label (some target) = ok target

-- `v == null`
unfoldable pub is_nullish : Value → Bool
is_nullish undefined = true
is_nullish null = true
is_nullish _ = false

abbrev pub is_true : Value → Bool
is_true (bool true) = true
is_true _ = false

abbrev pub decided : Option Bool → Value
decided none = undefined
decided (some b) = bool b

module _ {W : Type 0} (setup : Setup W) where
  abbrev pub ix : Index
  ix = index_graph setup.graph

  -- `handlers[node.id] || handlers[node.kind]`
  unfoldable pub handler_of : Node → Option (Handler W)
  handler_of n = or_value (lookup n.id setup.handlers) (lookup n.kind setup.handlers)

  unfoldable pub run_by :
      Option (Handler W) → Node → Option RosterItem → Dict → W → Result (Writes × W)
  run_by none n item state world = ok ([], world)
  run_by (some h) n item state world = h n item state world

  -- `checkpoint(status)`
  abbrev pub checkpoint : String → Config W → Config W
  checkpoint status c = record c {
    checkpoints =
        c.checkpoints
        ++ record { step = c.steps; node = c.current; status = status; state = c.state } ∷ [];
  }

  unfoldable pub choose : Option Router → ConditionalEdge → Dict → Result String
  choose none cond state = throw (no_router cond.router)
  choose (some route) cond state =
      let label = route state setup.params in target_of cond label (lookup label cond.branches)

  -- `conditionalNext`
  unfoldable pub conditional_next : ConditionalEdge → Dict → Result String
  conditional_next cond state = choose (lookup cond.router setup.routers) cond state

  -- runs a handler for a node, and folds its writes into the state
  unfoldable pub run_handler : Node → Option RosterItem → Config W → Result (Config W)
  run_handler n item c = run_by (handler_of n) n item c.state c.world >>= λ r.
      apply_results setup.graph c.state r.0 >>= λ state.
      ok (record c { state = state; world = r.1 })

  -- the `for` loop of a fan-out
  unfoldable pub fan_out : Option Node → List RosterItem → Config W → Result (Config W)
  fan_out child [] c = ok c
  fan_out none (item ∷ rest) c = throw (type_error "id")
  fan_out (some child) (item ∷ rest) c =
      run_handler child (some item) c >>= λ d. fan_out (some child) rest d

  abbrev pub node_at : Option String → Option Node
  node_at none = none
  node_at (some id) = lookup id (ix).by_id

  abbrev pub next_after : Option String → Option String
  next_after none = none
  next_after (some id) = linear_next ix id

  unfoldable pub do_fanout : Node → Config W → Result (Round W)
  do_fanout n c = fan_out (node_at n.into) (in_scope_roster setup.graph c.state) c >>= λ d.
      ok (go_on (record (checkpoint "done" d) { current = next_after n.into }))

  unfoldable pub go_to : Option String → String → Config W → Result (Round W)
  go_to none active c = throw (unknown_branch "route_active" active)
  go_to (some target) active c = ok (go_on (record (checkpoint "done" c) { current = some target }))

  unfoldable pub branch_of : Option ConditionalEdge → String → Config W → Result (Round W)
  branch_of none active c = throw (type_error "branches")
  branch_of (some cond) active c = go_to (lookup active cond.branches) active c

  -- the way out of an interrupt that is not rejected
  unfoldable pub take_branch : String → String → Config W → Result (Round W)
  take_branch id active c = branch_of (lookup id (ix).cond_from) active c

  -- `(known != null ? known : decision) === true`
  unfoldable pub approval : Dict → Bool
  approval state =
      let known = at state "approved" in
      is_true (if is_nullish known then decided setup.decision else known)

  -- `known == null && decision == null`
  unfoldable pub undecided : Dict → Bool
  undecided state = is_nullish (at state "approved") && is_nullish (decided setup.decision)

  unfoldable pub settle : Bool → Node → String → String → Config W → Result (Round W)
  settle true n id active c = take_branch id active c
  settle false n id active c = ok (go_on (record (checkpoint "done" c) { current = n.on_reject }))

  unfoldable pub resolve_active : Node → String → String → Config W → Result (Round W)
  resolve_active n id active c =
      let approved = approval c.state in
      apply_write setup.graph c.state "approved" (bool approved) >>= λ state.
      settle approved n id active (record c { state = state })

  unfoldable pub pause_or : Bool → Node → String → String → Config W → Result (Round W)
  pause_or true n id active c = ok (pause (checkpoint "interrupted" c) n.prompt)
  pause_or false n id active c = resolve_active n id active c

  unfoldable pub gate_active : Node → String → String → Config W → Result (Round W)
  gate_active n id active c =
      assert_active_requirements setup.graph (or_else (at c.state "scope") (obj end)) active
      >>= λ _. pause_or (undecided c.state) n id active c

  unfoldable pub pass_gate : Node → String → String → Config W → Result (Round W)
  pass_gate n id active c =
      if active == "none" then take_branch id active c else gate_active n id active c

  unfoldable pub interrupt_by : Option Router → Node → String → Config W → Result (Round W)
  interrupt_by none n id c = throw (no_router "route_active")
  interrupt_by (some route) n id c = pass_gate n id (route c.state setup.params) c

  unfoldable pub do_interrupt : Node → String → Config W → Result (Round W)
  do_interrupt n id c = interrupt_by (lookup "route_active" setup.routers) n id c

  unfoldable pub move_on : Node → Config W → Option String → Result (Round W)
  move_on n c none = throw (no_transition n.id)
  move_on n c (some target) = ok (go_on (record c { current = some target }))

  unfoldable pub leave : Node → String → Config W → Option ConditionalEdge → Result (Round W)
  leave n id c none = move_on n c (linear_next ix id)
  leave n id c (some cond) = conditional_next cond c.state >>= λ target. move_on n c (some target)

  unfoldable pub do_ordinary : Node → String → Config W → Result (Round W)
  do_ordinary n id c =
      run_handler n none c >>= λ d. leave n id (checkpoint "done" d) (lookup id (ix).cond_from)

  -- the body of the `while` loop, after the step count
  unfoldable pub round_at : String → Option Node → Config W → Result (Round W)
  round_at id none c = throw (unknown_node id)
  round_at id (some n) c =
      let d = record c { path = c.path ++ id ∷ [] } in
      if n.kind == "fanout"
      then do_fanout n d
      else if n.kind == "interrupt"
      then do_interrupt n id d
      else do_ordinary n id d

  unfoldable pub round_from : Option String → Config W → Result (Round W)
  round_from none c = throw (unknown_node "undefined")
  round_from (some id) c = round_at id (lookup id (ix).by_id) c

  unfoldable pub round : Config W → Result (Round W)
  round c = round_from c.current (record c { steps = c.steps + 1 })

  abbrev pub at_end : Option String → Bool
  at_end none = false
  at_end (some id) = id == "END"

  unfoldable pub finish : Config W → Outcome W
  finish c = completed (record c { path = c.path ++ "END" ∷ [] })

  -- what follows a round, with the rest of the loop as an argument
  unfoldable pub follow : (Config W → Outcome W) → Config W → Result (Round W) → Outcome W
  follow rest c (throw e) = failed e c
  follow rest c (ok (pause d prompt)) = interrupted d prompt
  follow rest c (ok (go_on d)) = rest d

  -- The fuel is the step budget that is left: at none, the source throws.
  unfoldable pub loop : ℕ → Config W → Outcome W
  loop zero c = if at_end c.current then finish c else failed (step_budget setup.max_steps) c
  loop (suc fuel) c = elim (at_end c.current) [
    | true ↦ finish c
    | false ↦ follow (loop fuel) c (round c)
  ]

  abbrev start_state : Option Dict → Dict
  start_state none = initial_state setup.graph
  start_state (some state) = state

  unfoldable pub begin : Option String → Option Dict → W → Config W
  begin start initial world = record {
    current = or_value (non_blank start) (non_blank (linear_next ix "START"));
    state = start_state initial;
    world = world;
    path = [];
    steps = 0;
    checkpoints = [];
  }

  -- `runGraph`, from `startAt` or the START edge, in `initialState` or a fresh state
  unfoldable pub run_graph : Option String → Option Dict → W → Outcome W
  run_graph start initial world =
      let c = begin start initial world in
      if is_some c.current then loop setup.max_steps c else failed no_start c

-- ===== src/Graph/Runner/Known.antt =====
-- Where the rounds of `runGraph` (tools/graph/run-graph.mjs) lead in a graph that the validator of
-- tools/graph/validate-graph.mjs passes.
use red_team_agent_orchestra.Common.{
  ◌+◌, String, ◌≡◌, refl, ◌⊎◌, inl, inr, Bool, true, false, Bool-cases, Option, none, some, List,
  [], ◌∷◌, ◌++◌, All, lookup, ◌==◌, eq_iff, is_some, Post, Post-bind_any, Post-mono, or-split,
  ◌>>=◌,
}
use red_team_agent_orchestra.Graph.Schema.{Node, ConditionalEdge}
use red_team_agent_orchestra.Graph.Validator.{
  node_ids, is_node_or_end, structural_errors, target_known,
}
use red_team_agent_orchestra.Graph.Validator.Sound.{
  IsSound, rejection_of, structural_errors-IsSound,
}
use red_team_agent_orchestra.Graph.State.{apply_write}
use red_team_agent_orchestra.Graph.Routing.{assert_active_requirements, in_scope_roster}
use red_team_agent_orchestra.Graph.Runner.Trace.{Leads}
use red_team_agent_orchestra.Graph.Runner.{
  Config, Round, go_on, pause, Setup, index_graph, linear_next, first, ix, round, next_after,
  take_branch, go_to, branch_of, settle, pause_or, resolve_active, interrupt_by, pass_gate,
  gate_active, move_on, leave, conditional_next, choose, Router, target_of, do_fanout, do_interrupt,
  do_ordinary, round_at, round_from, fan_out, node_at, run_handler, checkpoint,
}
use red_team_agent_orchestra.Graph.Runner.Indexed.{
  index_nodes-lookup, index_edges-All, index_conditional-All, index_nodes-All, lookup-All,
}

module _ {W : Type 0} (setup : Setup W) (sound : IsSound setup.graph) where
  abbrev ids : List String
  ids = node_ids setup.graph.nodes

  abbrev Known : Option String → Type 0
  Known o = target_known ids o ≡ true

  abbrev Here : Config W → Type 0
  Here d = Known d.current

  first-Known : (l : List String) → All (λ t. is_node_or_end ids t ≡ true) l → Known (first l)
  first-Known [] h = refl
  first-Known (t ∷ l) (p, h) = p

  linear_next-Known : (id : String) → Known (linear_next (ix setup) id)
  unfolding linear_next index_graph
  linear_next-Known id = first-Known _ (
      index_edges-All (λ t. is_node_or_end ids t ≡ true) setup.graph.edges [] sound.edges
        (λ k. unfold lookup in tt) id)

  next_after-Known : (o : Option String) → Known (next_after setup o)
  next_after-Known none = refl
  next_after-Known (some id) = linear_next-Known id

  conditional-Known :
      (id : String) (cond : ConditionalEdge) (label : String) {t : String}
      → lookup id (ix setup).cond_from ≡ some cond
      → lookup label cond.branches ≡ some t
      → Known (some t)
  unfolding index_graph lookup
  conditional-Known id cond label h g =
      lookup-All (λ t. is_node_or_end ids t ≡ true) cond.branches label
        (index_conditional-All (λ c. All (λ b. is_node_or_end ids b.1 ≡ true) c.branches)
          setup.graph.conditional_edges [] sound.branches (λ k c e. cc e) id cond h)
        g

  reject-Known :
      (id : String) (n : Node)
      → lookup id (ix setup).by_id ≡ some n
      → n.kind ≡ "interrupt"
      → Known n.on_reject
  unfolding index_graph lookup
  reject-Known id n h e =
      let known : target_known ids (rejection_of n) ≡ true =
        index_nodes-All (λ m. target_known ids (rejection_of m) ≡ true) setup.graph.nodes []
          sound.rejections (λ k m e. cc e) id n h in
      rw e at known

  take_branch-Known :
      (id active : String) (c : Config W) → Post (Leads Here) (take_branch setup id active c)
  unfolding take_branch
  take_branch-Known id active c = from (lookup id (ix setup).cond_from) refl
    where
      to :
          (cond : ConditionalEdge) (found : Option String)
          → lookup id (ix setup).cond_from ≡ some cond
          → lookup active cond.branches ≡ found
          → Post (Leads Here) (go_to setup found active c)
      to cond none h g = unfold go_to in tt
      to cond (some t) h g = unfold go_to in conditional-Known id cond active h g

      from :
          (found : Option ConditionalEdge)
          → lookup id (ix setup).cond_from ≡ found
          → Post (Leads Here) (branch_of setup found active c)
      from none h = unfold branch_of in tt
      from (some cond) h = unfold branch_of in to cond _ h refl

  module _ (id : String) (n : Node) (found : lookup id (ix setup).by_id ≡ some n) where
    settle-Known :
        (b : Bool) (active : String) (c : Config W)
        → n.kind ≡ "interrupt"
        → Post (Leads Here) (settle setup b n id active c)
    unfolding settle
    settle-Known true active c k = take_branch-Known id active c
    settle-Known false active c k = reject-Known id n found k

    pause_or-Known :
        (b : Bool) (active : String) (c : Config W)
        → n.kind ≡ "interrupt"
        → Here c
        → Post (Leads Here) (pause_or setup b n id active c)
    unfolding pause_or resolve_active
    pause_or-Known true active c k h = h
    pause_or-Known false active c k h =
        Post-bind_any _ (apply_write setup.graph c.state _ _) _ λ s. settle-Known _ active _ k

    interrupt_by-Known :
        (route : Option Router) (c : Config W)
        → n.kind ≡ "interrupt"
        → Here c
        → Post (Leads Here) (interrupt_by setup route n id c)
    unfolding interrupt_by pass_gate gate_active
    interrupt_by-Known none c k h = tt
    interrupt_by-Known (some route) c k h =
        let active = route c.state setup.params in
        elim (Bool-cases (active == "none")) [
          | inl e ↦ rw e (take_branch-Known id active c)
          | inr e ↦ rw e (
              Post-bind_any _ (assert_active_requirements setup.graph _ active) _
                λ _. pause_or-Known _ active c k h)
        ]

    move_on-Known :
        (c : Config W) (t : Option String) → Known t → Post (Leads Here) (move_on setup n c t)
    unfolding move_on
    move_on-Known c none h = tt
    move_on-Known c (some t) h = h

    leave-Known :
        (c : Config W) (cond : Option ConditionalEdge)
        → lookup id (ix setup).cond_from ≡ cond
        → Post (Leads Here) (leave setup n id c cond)
    unfolding leave conditional_next choose
    leave-Known c none h = move_on-Known c _ (linear_next-Known id)
    leave-Known c (some cond) h = routed (lookup cond.router setup.routers)
      where
        targeted :
            (label : String) (t : Option String)
            → lookup label cond.branches ≡ t
            → Post (Leads Here) (target_of cond label t >>= λ u. move_on setup n c (some u))
        targeted label none e = tt
        targeted label (some t) e = move_on-Known c (some t) (conditional-Known id cond label h e)

        routed :
            (route : Option Router)
            → Post
                (Leads Here)
                (choose setup route cond c.state >>= λ u. move_on setup n c (some u))
        routed none = tt
        routed (some route) = targeted (route c.state setup.params) (lookup _ cond.branches) refl

  round_at-Known :
      (id : String) (node : Option Node) (c : Config W)
      → lookup id (ix setup).by_id ≡ node
      → Here c
      → Post (Leads Here) (round_at setup id node c)
  unfolding round_at do_fanout do_interrupt do_ordinary
  round_at-Known id none c found h = tt
  round_at-Known id (some n) c found h =
      let d = record c { path = c.path ++ id ∷ [] } in
      elim (Bool-cases (n.kind == "fanout")) [
        | inl e ↦ rw e (
            Post-bind_any _
              (fan_out setup (node_at setup n.into) (in_scope_roster setup.graph d.state) d) _
              λ _. next_after-Known n.into)
        | inr e ↦ elim (Bool-cases (n.kind == "interrupt")) [
          | inl i ↦
              rw (e, i)
                (interrupt_by-Known id n found (lookup "route_active" setup.routers) d
                  ((eq_iff n.kind "interrupt").0 i) h)
          | inr o ↦
              rw (e, o)
                (Post-bind_any _ (run_handler setup n none d) _ λ b.
                  leave-Known id n found (checkpoint setup "done" b)
                    (lookup id (ix setup).cond_from) refl)
        ]
      ]

  -- In a run of a graph without structural errors, a round from a node of the graph goes on to END or
  -- to a node of the graph, or to nothing where a fan-out has no edge or an interrupt no rejection.
  round-Known : (c : Config W) → Here c → Post (Leads Here) (round setup c)
  unfolding round round_from
  round-Known c h = from c.current refl
    where
      from :
          (q : Option String)
          → c.current ≡ q
          → Post (Leads Here) (round_from setup q (record c { steps = c.steps + 1 }))
      from none e = tt
      from (some id) e =
          round_at-Known id (lookup id (ix setup).by_id) (record c { steps = c.steps + 1 }) refl h

-- A node, END, or nothing.
abbrev pub Stands : {W : Type 0} → Setup W → Option String → Type 0
Stands setup none = Unit
Stands setup (some id) = (id ≡ "END") ⊎ (is_some (lookup id (ix setup).by_id) ≡ true)

Known-Stands :
    {W : Type 0} (setup : Setup W) (o : Option String)
    → target_known (node_ids setup.graph.nodes) o ≡ true
    → Stands setup o
unfolding index_graph
Known-Stands setup none h = tt
Known-Stands setup (some id) h = elim (or-split _ _ h) [
  | inl e ↦ inl ((eq_iff id "END").0 e)
  | inr e ↦ inr (index_nodes-lookup setup.graph.nodes [] id (inr e))
]

-- In a run of a graph without structural errors, every round from END, from a node or from nothing
-- that goes on or pauses leads to END, to a node that the graph has, or to nothing (`undefined`).
pub round-Stands :
    {W : Type 0} (setup : Setup W) (agents : List String) (c : Config W)
    → structural_errors agents setup.graph ≡ []
    → target_known (node_ids setup.graph.nodes) c.current ≡ true
    → Post (Leads (λ d. Stands setup d.current)) (round setup c)
round-Stands {W} setup agents c valid h =
    Post-mono _ _ (round setup c) lead
      (round-Known setup (structural_errors-IsSound agents setup.graph valid) c h)
  where
    lead :
        (r : Round W)
        → Leads (λ d. target_known (node_ids setup.graph.nodes) d.current ≡ true) r
        → Leads (λ d. Stands setup d.current) r
    lead (go_on d) k = Known-Stands setup d.current k
    lead (pause d prompt) k = Known-Stands setup d.current k

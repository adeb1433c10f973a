-- ===== src/Graph/Runner/Pause.antt =====
-- Where `runGraph` of tools/graph/run-graph.mjs is interrupted.
use red_team_agent_orchestra.Common.{
  String, ◌≡◌, refl, Bool, true, false, Bool-cases, Option, none, some, Post, Post-bind_any,
  Post-mono, ◌+◌, [], ◌∷◌, ◌++◌, ◌==◌, inl, inr, lookup, is_some, arith,
}
use red_team_agent_orchestra.Graph.Schema.{Node, ConditionalEdge}
use red_team_agent_orchestra.Graph.State.{apply_write}
use red_team_agent_orchestra.Graph.Routing.{assert_active_requirements, in_scope_roster}
use red_team_agent_orchestra.Graph.Runner.{
  Config, Round, go_on, pause, Setup, Router, run_handler, fan_out, do_fanout, take_branch,
  resolve_active, gate_active, do_interrupt, do_ordinary, round, leave, conditional_next, node_at,
  move_on, round_at, round_from, pass_gate, interrupt_by, branch_of, go_to, settle, pause_or,
  approval,
}

-- A round that pauses stands where it began, at a node.
abbrev pub PausedAt : {W : Type 0} → Config W → Round W → Type 0
PausedAt c (go_on d) = Unit
PausedAt c (pause d prompt) =
    (d.current ≡ c.current) × (d.state ≡ c.state) × (d.world ≡ c.world) × (is_some d.current ≡ true)

abbrev Never : {W : Type 0} → Round W → Type 0
Never (go_on d) = Unit
Never (pause d prompt) = ⊥

Never-PausedAt : {W : Type 0} (c : Config W) (r : Round W) → Never r → PausedAt c r
Never-PausedAt c (go_on d) h = tt
Never-PausedAt c (pause d prompt) h = absurd h

module _ {W : Type 0} (setup : Setup W) where
  take_branch-Never :
      (id active : String) (c : Config W) → Post Never (take_branch setup id active c)
  unfolding take_branch branch_of go_to
  take_branch-Never id active c = ground arith

  resolve_active-Never :
      (n : Node) (id active : String) (c : Config W)
      → Post Never (resolve_active setup n id active c)
  unfolding resolve_active
  resolve_active-Never n id active c =
      Post-bind_any _ (apply_write setup.graph c.state _ _) _
        λ s. settled (approval setup c.state) (record c { state = s })
    where
      settled : (b : Bool) (d : Config W) → Post Never (settle setup b n id active d)
      settled true d = unfold settle in take_branch-Never id active d
      settled false d = unfold settle in tt

  do_fanout-Never : (n : Node) (c : Config W) → Post Never (do_fanout setup n c)
  unfolding do_fanout
  do_fanout-Never n c =
      Post-bind_any _ (fan_out setup (node_at setup n.into) (in_scope_roster setup.graph c.state) c)
        _ λ d. tt

  leave-Never :
      (n : Node) (id : String) (c : Config W) (cond : Option ConditionalEdge)
      → Post Never (leave setup n id c cond)
  unfolding leave move_on
  leave-Never n id c none = ground arith
  leave-Never n id c (some cond) = Post-bind_any _ (conditional_next setup cond c.state) _ λ t. tt

  do_ordinary-Never :
      (n : Node) (id : String) (c : Config W) → Post Never (do_ordinary setup n id c)
  unfolding do_ordinary
  do_ordinary-Never n id c =
      Post-bind_any _ (run_handler setup n none c) _ λ d. leave-Never n id _ _

  module _ (c : Config W) (here : is_some c.current ≡ true) where
    pause_or-PausedAt :
        (b : Bool) (n : Node) (id active : String)
        → Post (PausedAt c) (pause_or setup b n id active c)
    unfolding pause_or
    pause_or-PausedAt true n id active = (refl, refl, refl, here)
    pause_or-PausedAt false n id active =
        Post-mono _ _ (resolve_active setup n id active c) (Never-PausedAt c)
          (resolve_active-Never n id active c)

    pass_gate-PausedAt :
        (n : Node) (id active : String) → Post (PausedAt c) (pass_gate setup n id active c)
    unfolding pass_gate gate_active
    pass_gate-PausedAt n id active = elim (Bool-cases (active == "none")) [
      | inl e ↦ rw e (
          Post-mono _ _ (take_branch setup id active c) (Never-PausedAt c)
            (take_branch-Never id active c))
      | inr e ↦ rw e (
          Post-bind_any _ (assert_active_requirements setup.graph _ active) _
            λ _. pause_or-PausedAt _ n id active)
    ]

    interrupt_by-PausedAt :
        (route : Option Router) (n : Node) (id : String)
        → Post (PausedAt c) (interrupt_by setup route n id c)
    unfolding interrupt_by
    interrupt_by-PausedAt none n id = tt
    interrupt_by-PausedAt (some route) n id = pass_gate-PausedAt n id _

  round_at-PausedAt :
      (id : String) (node : Option Node) (c : Config W)
      → is_some c.current ≡ true
      → Post (PausedAt c) (round_at setup id node c)
  unfolding round_at do_interrupt
  round_at-PausedAt id none c h = tt
  round_at-PausedAt id (some n) c h =
      let d = record c { path = c.path ++ id ∷ [] } in
      elim (Bool-cases (n.kind == "fanout")) [
        | inl e ↦
            rw e (Post-mono _ _ (do_fanout setup n d) (Never-PausedAt c) (do_fanout-Never n d))
        | inr e ↦ elim (Bool-cases (n.kind == "interrupt")) [
          | inl i ↦ rw (e, i) (interrupt_by-PausedAt d h (lookup "route_active" setup.routers) n id)
          | inr o ↦
              rw (e, o)
                (Post-mono _ _ (do_ordinary setup n id d) (Never-PausedAt c)
                  (do_ordinary-Never n id d))
        ]
      ]

  round_from-PausedAt :
      (current : Option String) (c : Config W)
      → c.current ≡ current
      → Post (PausedAt c) (round_from setup current (record c { steps = c.steps + 1 }))
  unfolding round_from
  round_from-PausedAt none c h = tt
  round_from-PausedAt (some id) c h =
      round_at-PausedAt id _ (record c { steps = c.steps + 1 }) (rw h refl)

  pub round-PausedAt : (c : Config W) → Post (PausedAt c) (round setup c)
  unfolding round
  round-PausedAt c = round_from-PausedAt c.current c refl

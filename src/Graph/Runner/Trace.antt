-- ===== src/Graph/Runner/Trace.antt =====
-- What one round of the loop does to the record of the run: its path, its step count.
use red_team_agent_orchestra.Common.{
  ℕ, ◌+◌, String, ◌≡◌, refl, Bool, true, false, Option, none, some, List, [], ◌∷◌, ◌++◌, Post,
  Post-bind, Post-bind_any, arith, lookup, length, length-append, ◌∙◌, Post-mono,
}
use red_team_agent_orchestra.Graph.Schema.{RosterItem, Node, ConditionalEdge}
use red_team_agent_orchestra.Graph.State.{apply_write, apply_results}
use red_team_agent_orchestra.Graph.Routing.{assert_active_requirements, in_scope_roster}
use red_team_agent_orchestra.Graph.Runner.{
  Config, Round, go_on, pause, Setup, run_handler, fan_out, do_fanout, take_branch, resolve_active,
  gate_active, do_interrupt, do_ordinary, round, checkpoint, leave, conditional_next, run_by,
  handler_of, node_at, move_on, round_at, pass_gate, interrupt_by, branch_of, go_to, Router,
  round_from, settle, pause_or,
}

-- `d` has the path `p` and the step count `k`.
pub record HasTrace {W : Type 0} (p : List String) (k : ℕ) (d : Config W) : Type 0 where
  pub path_is : d.path ≡ p
  pub steps_is : d.steps ≡ k

-- Where a round leads, as a predicate of the configuration.
abbrev pub Leads {ℓ} : {W : Type 0} → (Config W → Type ℓ) → Round W → Type ℓ
Leads P (go_on d) = P d
Leads P (pause d prompt) = P d

module _ {W : Type 0} (setup : Setup W) (p : List String) (k : ℕ) where
  abbrev Here : Config W → Type 0
  Here d = HasTrace p k d

  run_handler-HasTrace :
      (n : Node) (item : Option RosterItem) (c : Config W)
      → Here c
      → Post Here (run_handler setup n item c)
  unfolding run_handler
  run_handler-HasTrace n item c h =
      Post-bind_any _ (run_by setup (handler_of setup n) n item c.state c.world) _
        λ r. Post-bind_any _ (apply_results setup.graph c.state r.0) _ λ s. ground arith

  fan_out-HasTrace :
      (child : Option Node) (roster : List RosterItem) (c : Config W)
      → Here c
      → Post Here (fan_out setup child roster c)
  unfolding fan_out
  fan_out-HasTrace child [] c h = h
  fan_out-HasTrace none (item ∷ rest) c h = tt
  fan_out-HasTrace (some n) (item ∷ rest) c h =
      Post-bind _ _ (run_handler setup n (some item) c) _ (run_handler-HasTrace n (some item) c h)
        λ d k. fan_out-HasTrace (some n) rest d k

  do_fanout-HasTrace : (n : Node) (c : Config W) → Here c → Post (Leads Here) (do_fanout setup n c)
  unfolding do_fanout
  do_fanout-HasTrace n c h =
      Post-bind _ _ (fan_out setup (node_at setup n.into) (in_scope_roster setup.graph c.state) c) _
        (fan_out-HasTrace (node_at setup n.into) _ c h) λ d k. ground arith

  take_branch-HasTrace :
      (id active : String) (c : Config W)
      → Here c
      → Post (Leads Here) (take_branch setup id active c)
  unfolding take_branch branch_of go_to
  take_branch-HasTrace id active c h = ground arith

  settle-HasTrace :
      (b : Bool) (n : Node) (id active : String) (c : Config W)
      → Here c
      → Post (Leads Here) (settle setup b n id active c)
  unfolding settle
  settle-HasTrace true n id active c h = take_branch-HasTrace id active c h
  settle-HasTrace false n id active c h = ground arith

  resolve_active-HasTrace :
      (n : Node) (id active : String) (c : Config W)
      → Here c
      → Post (Leads Here) (resolve_active setup n id active c)
  unfolding resolve_active
  resolve_active-HasTrace n id active c h =
      Post-bind_any _ (apply_write setup.graph c.state _ _) _
        λ s. settle-HasTrace _ n id active (record c { state = s }) (ground arith)

  pause_or-HasTrace :
      (b : Bool) (n : Node) (id active : String) (c : Config W)
      → Here c
      → Post (Leads Here) (pause_or setup b n id active c)
  unfolding pause_or
  pause_or-HasTrace true n id active c h = ground arith
  pause_or-HasTrace false n id active c h = resolve_active-HasTrace n id active c h

  gate_active-HasTrace :
      (n : Node) (id active : String) (c : Config W)
      → Here c
      → Post (Leads Here) (gate_active setup n id active c)
  unfolding gate_active
  gate_active-HasTrace n id active c h =
      Post-bind_any _ (assert_active_requirements setup.graph _ active) _
        λ _. pause_or-HasTrace _ n id active c h

  pass_gate-HasTrace :
      (n : Node) (id active : String) (c : Config W)
      → Here c
      → Post (Leads Here) (pass_gate setup n id active c)
  unfolding pass_gate
  pass_gate-HasTrace n id active c h =
      ground (arith, take_branch-HasTrace id active c h, gate_active-HasTrace n id active c h)

  interrupt_by-HasTrace :
      (route : Option Router) (n : Node) (id : String) (c : Config W)
      → Here c
      → Post (Leads Here) (interrupt_by setup route n id c)
  unfolding interrupt_by
  interrupt_by-HasTrace none n id c h = tt
  interrupt_by-HasTrace (some route) n id c h = pass_gate-HasTrace n id _ c h

  move_on-HasTrace :
      (n : Node) (c : Config W) (target : Option String)
      → Here c
      → Post (Leads Here) (move_on setup n c target)
  unfolding move_on
  move_on-HasTrace n c target h = ground arith

  leave-HasTrace :
      (n : Node) (id : String) (c : Config W)
      → Here c
      → (cond : Option ConditionalEdge) → Post (Leads Here) (leave setup n id c cond)
  unfolding leave
  leave-HasTrace n id c h none = move_on-HasTrace n c _ h
  leave-HasTrace n id c h (some cond) =
      Post-bind_any _ (conditional_next setup cond c.state) _
        λ target. move_on-HasTrace n c (some target) h

  do_ordinary-HasTrace :
      (n : Node) (id : String) (c : Config W)
      → Here c
      → Post (Leads Here) (do_ordinary setup n id c)
  unfolding do_ordinary
  do_ordinary-HasTrace n id c h =
      Post-bind _ _ (run_handler setup n none c) _ (run_handler-HasTrace n none c h)
        λ d k. leave-HasTrace n id (checkpoint setup "done" d) (ground arith) _

-- A round adds one step, and one node to the path, whether it goes on or pauses.
module _ {W : Type 0} (setup : Setup W) where
  round_at-HasTrace :
      (p : List String) (k : ℕ) (id : String) (node : Option Node) (c : Config W)
      → HasTrace p k c
      → Post (Leads (HasTrace (p ++ id ∷ []) k)) (round_at setup id node c)
  unfolding round_at do_interrupt
  round_at-HasTrace p k id none c h = tt
  round_at-HasTrace p k id (some n) c h =
      let q = p ++ id ∷ [] in
      let d = record c { path = c.path ++ id ∷ [] } in
      let here : HasTrace q k d = ground arith in
      ground (
        arith,
        do_fanout-HasTrace setup q k n d here,
        interrupt_by-HasTrace setup q k (lookup "route_active" setup.routers) n id d here,
        do_ordinary-HasTrace setup q k n id d here,
      )

  abbrev pub Counted : Config W → Config W → Type 0
  Counted c d = (d.steps ≡ c.steps + 1) × (length d.path ≡ length c.path + 1)

  HasTrace-Counted :
      (c : Config W) (id : String) (r : Round W)
      → Leads (HasTrace (c.path ++ id ∷ []) (c.steps + 1)) r
      → Leads (Counted c) r
  HasTrace-Counted c id (go_on d) h =
      (h.steps_is, rw h.path_is (length-append c.path (id ∷ []) ∙ omega arith))
  HasTrace-Counted c id (pause d prompt) h =
      (h.steps_is, rw h.path_is (length-append c.path (id ∷ []) ∙ omega arith))

  round_from-Counted :
      (current : Option String) (c : Config W)
      → Post (Leads (Counted c)) (round_from setup current (record c { steps = c.steps + 1 }))
  unfolding round_from
  round_from-Counted none c = tt
  round_from-Counted (some id) c =
      let d = record c { steps = c.steps + 1 } in
      Post-mono _ _ (round_at setup id (node_at setup (some id)) d) (HasTrace-Counted c id) (
        round_at-HasTrace c.path (c.steps + 1) id (node_at setup (some id)) d
          (record { path_is = refl; steps_is = refl }))

  pub round-Counted : (c : Config W) → Post (Leads (Counted c)) (round setup c)
  unfolding round
  round-Counted c = round_from-Counted c.current c

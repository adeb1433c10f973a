-- ===== src/Graph/Runner/Simulation.antt =====
-- Rounds of `runGraph` (tools/graph/run-graph.mjs) from configurations that differ in the record of
-- the run, with and without a decision.
use red_team_agent_orchestra.Common.{
  ℕ, ◌+◌, String, ◌≡◌, refl, Bool, true, false, Bool-cases, Option, none, some, List, [], ◌∷◌, ◌++◌,
  Result, ok, throw, ◌>>=◌, ◌⊎◌, arith, inl, inr, lookup, ◌==◌,
}
use red_team_agent_orchestra.Js.{bool}
use red_team_agent_orchestra.Graph.Schema.{RosterItem, Node, Dict, ConditionalEdge}
use red_team_agent_orchestra.Graph.State.{apply_write}
use red_team_agent_orchestra.Graph.Routing.{assert_active_requirements, in_scope_roster}
use red_team_agent_orchestra.Graph.Runner.{
  Config, Checkpoint, Round, go_on, Setup, Router, run_handler, fan_out, do_fanout, take_branch,
  resolve_active, gate_active, do_interrupt, do_ordinary, round, checkpoint, leave,
  conditional_next, run_by, handler_of, node_at, move_on, round_at, round_from, pass_gate,
  interrupt_by, branch_of, go_to, ix, approval, undecided, settle, pause_or, is_nullish, choose,
}

-- The same node, state and world, with another record of the run.
abbrev pub rebook : {W : Type 0} → List String → ℕ → List Checkpoint → Config W → Config W
rebook p k cs c = record c { path = p; steps = k; checkpoints = cs }

abbrev over {ℓ} : {A B : Type ℓ} → (A → B) → Result A → Result B
over f (ok a) = ok (f a)
over f (throw e) = throw e

-- Where the first round goes on, so does the second, to the same node, state and world.
abbrev pub Sim : {W : Type 0} → Result (Round W) → Result (Round W) → Type 0
Sim {W} (ok (go_on d)) r =
    (p : List String) × (k : ℕ) × (cs : List Checkpoint) × (r ≡ ok (go_on (rebook p k cs d)))
Sim _ r = Unit

-- What a decision that is given later may be.
abbrev pub Later : Option Bool → Option Bool → Type 0
Later d d' = (d ≡ none) ⊎ (d ≡ d')

over-bind {ℓ} :
    {A B : Type ℓ} (r : A → A) (t : B → B) (m : Result A) (f g : A → Result B)
    → ((a : A) → g (r a) ≡ over t (f a))
    → (over r m >>= g) ≡ over t (m >>= f)
over-bind r t (ok a) f g h = h a
over-bind r t (throw e) f g h = refl

Sim-over :
    {W : Type 0} (r : Config W → Config W) (m : Result (Config W))
    (f g : Config W → Result (Round W))
    → ((d : Config W) → Sim (f d) (g (r d)))
    → Sim (m >>= f) (over r m >>= g)
Sim-over r (ok d) f g h = h d
Sim-over r (throw e) f g h = tt

Sim-bind :
    {W A : Type 0} (m : Result A) (f g : A → Result (Round W))
    → ((a : A) → Sim (f a) (g a))
    → Sim (m >>= f) (m >>= g)
Sim-bind (ok a) f g h = h a
Sim-bind (throw e) f g h = tt

module _ {W : Type 0} (setup : Setup W) (x y : Option Bool) where
  abbrev pub s₁ : Setup W
  s₁ = record setup { decision = x }

  abbrev pub s₂ : Setup W
  s₂ = record setup { decision = y }

  run_handler-rebook :
      (p : List String) (k : ℕ) (cs : List Checkpoint) (n : Node) (item : Option RosterItem)
      (c : Config W)
      → run_handler s₂ n item (rebook p k cs c) ≡ over (rebook p k cs) (run_handler s₁ n item c)
  unfolding run_handler run_by handler_of
  run_handler-rebook p k cs n item c = ground arith

  fan_out-rebook :
      (p : List String) (k : ℕ) (cs : List Checkpoint) (child : Option Node)
      (roster : List RosterItem) (c : Config W)
      → fan_out s₂ child roster (rebook p k cs c) ≡ over (rebook p k cs) (fan_out s₁ child roster c)
  unfolding fan_out
  fan_out-rebook p k cs child [] c = refl
  fan_out-rebook p k cs none (item ∷ rest) c = refl
  fan_out-rebook p k cs (some n) (item ∷ rest) c = rw (run_handler-rebook p k cs n (some item) c) (
      over-bind (rebook p k cs) (rebook p k cs) (run_handler s₁ n (some item) c) _ _
        (fan_out-rebook p k cs (some n) rest))

  do_fanout-Sim :
      (p : List String) (k : ℕ) (cs : List Checkpoint) (n : Node) (c : Config W)
      → Sim (do_fanout s₁ n c) (do_fanout s₂ n (rebook p k cs c))
  unfolding do_fanout
  do_fanout-Sim p k cs n c =
      let child = node_at s₁ n.into in
      let roster = in_scope_roster setup.graph c.state in
      rw (fan_out-rebook p k cs child roster c)
        (Sim-over (rebook p k cs) (fan_out s₁ child roster c) _ _ λ d. (p, k, _, refl))

  take_branch-Sim :
      (p : List String) (k : ℕ) (cs : List Checkpoint) (id active : String) (c : Config W)
      → Sim (take_branch s₁ id active c) (take_branch s₂ id active (rebook p k cs c))
  unfolding take_branch
  take_branch-Sim p k cs id active c = branch_of-Sim (lookup id (ix s₁).cond_from)
    where
      go_to-Sim :
          (target : Option String)
          → Sim (go_to s₁ target active c) (go_to s₂ target active (rebook p k cs c))
      go_to-Sim none = unfold go_to in tt
      go_to-Sim (some target) = unfold go_to in (p, k, _, refl)

      branch_of-Sim :
          (cond : Option ConditionalEdge)
          → Sim (branch_of s₁ cond active c) (branch_of s₂ cond active (rebook p k cs c))
      branch_of-Sim none = unfold branch_of in tt
      branch_of-Sim (some cond) = unfold branch_of in go_to-Sim _

  settle-Sim :
      (p : List String) (k : ℕ) (cs : List Checkpoint) (b : Bool) (n : Node) (id active : String)
      (c : Config W)
      → Sim (settle s₁ b n id active c) (settle s₂ b n id active (rebook p k cs c))
  unfolding settle
  settle-Sim p k cs true n id active c = take_branch-Sim p k cs id active c
  settle-Sim p k cs false n id active c = (p, k, _, refl)

  resolve_active-Sim :
      (p : List String) (k : ℕ) (cs : List Checkpoint) (n : Node) (id active : String)
      (c : Config W)
      → approval s₁ c.state ≡ approval s₂ c.state
      → Sim (resolve_active s₁ n id active c) (resolve_active s₂ n id active (rebook p k cs c))
  unfolding resolve_active
  resolve_active-Sim p k cs n id active c e = rw (← e) (
      Sim-bind (apply_write setup.graph c.state "approved" (bool (approval s₁ c.state))) _ _
        λ s. settle-Sim p k cs (approval s₁ c.state) n id active (record c { state = s }))

  decided-Later :
      (state : Dict)
      → Later x y
      → undecided s₁ state ≡ false
      → (undecided s₂ state ≡ false) × (approval s₁ state ≡ approval s₂ state)
  unfolding undecided approval is_nullish
  decided-Later state (inl e) h = ground arith
  decided-Later state (inr e) h = ground arith

  gate_active-Sim :
      (p : List String) (k : ℕ) (cs : List Checkpoint) (n : Node) (id active : String)
      (c : Config W)
      → Later x y
      → Sim (gate_active s₁ n id active c) (gate_active s₂ n id active (rebook p k cs c))
  unfolding gate_active
  gate_active-Sim p k cs n id active c l =
      Sim-bind (assert_active_requirements setup.graph _ active) _ _ λ _. paused
    where
      paused :
          Sim
            (pause_or s₁ (undecided s₁ c.state) n id active c)
            (pause_or s₂ (undecided s₂ c.state) n id active (rebook p k cs c))
      paused = elim (Bool-cases (undecided s₁ c.state)) [
        | inl e ↦ unfold pause_or in rw e tt
        | inr e ↦
            let (later, agreed) = decided-Later c.state l e in
            unfold pause_or in rw (e, later) (resolve_active-Sim p k cs n id active c agreed)
      ]

  pass_gate-Sim :
      (p : List String) (k : ℕ) (cs : List Checkpoint) (n : Node) (id active : String)
      (c : Config W)
      → Later x y
      → Sim (pass_gate s₁ n id active c) (pass_gate s₂ n id active (rebook p k cs c))
  unfolding pass_gate
  pass_gate-Sim p k cs n id active c l = elim (Bool-cases (active == "none")) [
    | inl e ↦ rw e (take_branch-Sim p k cs id active c)
    | inr e ↦ rw e (gate_active-Sim p k cs n id active c l)
  ]

  interrupt_by-Sim :
      (p : List String) (k : ℕ) (cs : List Checkpoint) (route : Option Router) (n : Node)
      (id : String) (c : Config W)
      → Later x y
      → Sim (interrupt_by s₁ route n id c) (interrupt_by s₂ route n id (rebook p k cs c))
  unfolding interrupt_by
  interrupt_by-Sim p k cs none n id c l = tt
  interrupt_by-Sim p k cs (some route) n id c l = pass_gate-Sim p k cs n id _ c l

  move_on-Sim :
      (p : List String) (k : ℕ) (cs : List Checkpoint) (n : Node) (c : Config W)
      (target : Option String)
      → Sim (move_on s₁ n c target) (move_on s₂ n (rebook p k cs c) target)
  unfolding move_on
  move_on-Sim p k cs n c none = tt
  move_on-Sim p k cs n c (some target) = (p, k, cs, refl)

  leave-Sim :
      (p : List String) (k : ℕ) (cs : List Checkpoint) (n : Node) (id : String) (c : Config W)
      (cond : Option ConditionalEdge)
      → Sim (leave s₁ n id c cond) (leave s₂ n id (rebook p k cs c) cond)
  unfolding leave conditional_next choose
  leave-Sim p k cs n id c none = move_on-Sim p k cs n c _
  leave-Sim p k cs n id c (some cond) =
      Sim-bind (choose s₁ (lookup cond.router setup.routers) cond c.state) _ _
        λ target. move_on-Sim p k cs n c (some target)

  do_ordinary-Sim :
      (p : List String) (k : ℕ) (cs : List Checkpoint) (n : Node) (id : String) (c : Config W)
      → Sim (do_ordinary s₁ n id c) (do_ordinary s₂ n id (rebook p k cs c))
  unfolding do_ordinary
  do_ordinary-Sim p k cs n id c = rw (run_handler-rebook p k cs n none c) (
      Sim-over (rebook p k cs) (run_handler s₁ n none c) _ _
        λ d. leave-Sim p k _ n id (checkpoint s₁ "done" d) _)

  round_at-Sim :
      (p : List String) (k : ℕ) (cs : List Checkpoint) (id : String) (node : Option Node)
      (c : Config W)
      → Later x y
      → Sim (round_at s₁ id node c) (round_at s₂ id node (rebook p k cs c))
  unfolding round_at do_interrupt
  round_at-Sim p k cs id none c l = tt
  round_at-Sim p k cs id (some n) c l =
      let q = p ++ id ∷ [] in
      let d = record c { path = c.path ++ id ∷ [] } in
      elim (Bool-cases (n.kind == "fanout")) [
        | inl e ↦ rw e (do_fanout-Sim q k cs n d)
        | inr e ↦ elim (Bool-cases (n.kind == "interrupt")) [
          | inl i ↦
              rw (e, i) (interrupt_by-Sim q k cs (lookup "route_active" setup.routers) n id d l)
          | inr o ↦ rw (e, o) (do_ordinary-Sim q k cs n id d)
        ]
      ]

  pub round-Sim :
      (p : List String) (k : ℕ) (cs : List Checkpoint) (c : Config W)
      → Later x y
      → Sim (round s₁ c) (round s₂ (rebook p k cs c))
  unfolding round round_from
  round-Sim p k cs c l = from c.current
    where
      from :
          (current : Option String)
          → Sim
              (round_from s₁ current (record c { steps = c.steps + 1 }))
              (round_from s₂ current (record (rebook p k cs c) { steps = k + 1 }))
      from none = tt
      from (some id) = round_at-Sim p (k + 1) cs id _ (record c { steps = c.steps + 1 }) l

-- ===== src/Graph/Runner/Authorization.antt =====
-- One round of `runGraph` (tools/graph/run-graph.mjs) that stands at an interrupt node
-- with an active lane.
use red_team_agent_orchestra.Common.{
  ◌+◌, String, ◌≡◌, refl, ◌≢◌, ◌⊎◌, inl, inr, Bool, true, false, Bool-cases, Option, none, some,
  List, [], ◌∷◌, ◌++◌, lookup, ok, >>=-eq-ok, ◌&&◌, if◌then◌else◌, ◌==◌, eq_iff, arith, sym, ap,
  ◌∙◌,
}
use red_team_agent_orchestra.Js.{Value, undefined, null, bool, obj, end, or_else}
use red_team_agent_orchestra.Graph.Schema.{Node, at, ConditionalEdge}
use red_team_agent_orchestra.Graph.State.{apply_write}
use red_team_agent_orchestra.Graph.Routing.{lane_of, assert_active_requirements, requirements_for}
use red_team_agent_orchestra.Graph.Routing.Requirements.{
  IsAttested, assert_active_requirements-IsAttested,
}
use red_team_agent_orchestra.Graph.Runner.{
  Config, Round, go_on, Setup, Router, round, round_from, round_at, do_interrupt, interrupt_by,
  pass_gate, gate_active, pause_or, resolve_active, settle, take_branch, branch_of, go_to, approval,
  ix, undecided, is_true, is_nullish, decided,
}

abbrev IsNullish : Value → Type 0
IsNullish v = (v ≡ undefined) ⊎ (v ≡ null)

-- What `state.approved` and the decision of the call say: the first, if it is there, is `true`;
-- else the second is an approval.
abbrev IsApproved : Value → Option Bool → Type 0
IsApproved known decision = (known ≡ bool true) ⊎ (IsNullish known × (decision ≡ some true))

-- `state.approved` is there and not `true`, or it is not there and the call rejects.
abbrev IsRejected : Value → Option Bool → Type 0
IsRejected known decision =
    ((known ≢ undefined) × (known ≢ null) × (known ≢ bool true))
    ⊎ (IsNullish known × (decision ≡ some false))

nullish-decided :
    (known : Value) (decision : Option Bool)
    → IsNullish known
    → is_nullish (decided decision) ≡ false
    → (is_true (decided decision) ≡ true → IsApproved known decision)
      × (is_true (decided decision) ≡ false → IsRejected known decision)
unfolding is_nullish
nullish-decided known none n h = absurd (cc)
nullish-decided known (some true) n h = (λ e. inr (n, refl), λ e. absurd (cc))
nullish-decided known (some false) n h = (λ e. absurd (cc), λ e. inr (n, refl))

decided-IsApproved :
    (known : Value) (decision : Option Bool)
    → (is_nullish known && is_nullish (decided decision)) ≡ false
    → (is_true (if is_nullish known then decided decision else known) ≡ true
        → IsApproved known decision)
      × (is_true (if is_nullish known then decided decision else known) ≡ false
          → IsRejected known decision)
unfolding is_nullish
decided-IsApproved undefined decision h = nullish-decided undefined decision (inl refl) h
decided-IsApproved null decision h = nullish-decided null decision (inr refl) h
decided-IsApproved (bool true) decision h = (λ e. inl refl, λ e. absurd (cc))
decided-IsApproved (bool false) decision h =
    (λ e. absurd (cc), λ e. inl (λ q. cc, λ q. cc, λ q. cc))
decided-IsApproved known decision h = (λ e. absurd (cc), λ e. inl (λ q. cc, λ q. cc, λ q. cc))

module _ {W : Type 0} (setup : Setup W) where
  -- the node that a conditional edge out of `id` gives for a label
  abbrev BranchTarget : String → String → String → Type 0
  BranchTarget id active target =
      (cond : ConditionalEdge) × (lookup id (ix setup).cond_from ≡ some cond)
      × (lookup active cond.branches ≡ some target)

  -- How a run leaves an interrupt for a lane that the router names.
  abbrev pub IsGated : Node → String → String → Config W → Config W → Type 0
  IsGated n id active c d =
      ((rs : List String) × (requirements_for setup.graph.nodes (lane_of active).mode ≡ some rs)
        × IsAttested (or_else (at c.state "scope") (obj end)) (lane_of active) rs)
      × ((IsApproved (at c.state "approved") setup.decision
            × (target : String) × (d.current ≡ some target)
            × BranchTarget id active target)
          ⊎ (IsRejected (at c.state "approved") setup.decision × (d.current ≡ n.on_reject)))

  go_to-target :
      (found : Option String) (active : String) (c : Config W) {d : Config W}
      → go_to setup found active c ≡ ok (go_on d)
      → (target : String) × (found ≡ some target) × (d.current ≡ some target)
  unfolding go_to
  go_to-target none active c h = cc
  go_to-target (some target) active c h = (target, refl, ground arith)

  branch_of-target :
      (found : Option ConditionalEdge) (active : String) (c : Config W) {d : Config W}
      → branch_of setup found active c ≡ ok (go_on d)
      → (target : String) × (d.current ≡ some target)
        × ((cond : ConditionalEdge) × (found ≡ some cond)
            × (lookup active cond.branches ≡ some target))
  unfolding branch_of
  branch_of-target none active c h = cc
  branch_of-target (some cond) active c h =
      let (target, found, at) = go_to-target (lookup active cond.branches) active c h in
      (target, at, (cond, refl, found))

  settle-leaves :
      (b : Bool) (n : Node) (id active : String) (c : Config W) {d : Config W}
      → settle setup b n id active c ≡ ok (go_on d)
      → ((b ≡ true) × (target : String) × (d.current ≡ some target) × BranchTarget id active target)
        ⊎ ((b ≡ false) × (d.current ≡ n.on_reject))
  unfolding settle take_branch
  settle-leaves true n id active c h =
      let (target, at, by) = branch_of-target (lookup id (ix setup).cond_from) active c h in
      inl (refl, target, at, by)
  settle-leaves false n id active c h = inr (refl, ground arith)

  pause_or-leaves :
      (b : Bool) (n : Node) (id active : String) (c : Config W) {d : Config W}
      → undecided setup c.state ≡ b
      → pause_or setup b n id active c ≡ ok (go_on d)
      → (IsApproved (at c.state "approved") setup.decision
          × (target : String) × (d.current ≡ some target)
          × BranchTarget id active target)
        ⊎ (IsRejected (at c.state "approved") setup.decision × (d.current ≡ n.on_reject))
  unfolding pause_or resolve_active approval undecided
  pause_or-leaves true n id active c u h = cc
  pause_or-leaves false n id active c {d} u h =
      let approved = approval setup c.state in
      let (s, wrote, settled) =
        >>=-eq-ok (apply_write setup.graph c.state "approved" (bool approved))
          (λ s. settle setup approved n id active (record c { state = s })) {last = go_on d} h in
      let (approves, rejects) = decided-IsApproved (at c.state "approved") setup.decision u in
      elim (settle-leaves approved n id active (record c { state = s }) settled) [
        | inl (e, target, rest, by) ↦ inl (approves e, target, rest, by)
        | inr (e, rest) ↦ inr (rejects e, rest)
      ]

  gate_active-IsGated :
      (n : Node) (id active : String) (c : Config W) {d : Config W}
      → gate_active setup n id active c ≡ ok (go_on d)
      → IsGated n id active c d
  unfolding gate_active
  gate_active-IsGated n id active c {d} h =
      let scope = or_else (at c.state "scope") (obj end) in
      let (u, held, later) =
        >>=-eq-ok {First = Unit {0}} {Second = Round W}
          (assert_active_requirements setup.graph scope active)
          (λ _. pause_or setup (undecided setup c.state) n id active c) h in
      (
        assert_active_requirements-IsAttested setup.graph scope active held,
        pause_or-leaves _ n id active c refl later,
      )

  round_at-interrupt :
      (n : Node) (id : String) (c : Config W)
      → n.kind ≡ "interrupt"
      → round_at setup id (some n) c
        ≡ do_interrupt setup n id (record c { path = c.path ++ id ∷ [] })
  unfolding round_at
  round_at-interrupt n id c kind = rw kind

  pass_gate-active :
      (n : Node) (id active : String) (c : Config W)
      → active ≢ "none"
      → pass_gate setup n id active c ≡ gate_active setup n id active c
  unfolding pass_gate
  pass_gate-active n id active c h = elim (Bool-cases (active == "none")) [
    | inl e ↦ absurd (h ((eq_iff active "none").0 e))
    | inr e ↦ rw e
  ]

  round-gate_active :
      (c : Config W) (id : String) (n : Node) (route : Router)
      → c.current ≡ some id
      → lookup id (ix setup).by_id ≡ some n
      → n.kind ≡ "interrupt"
      → lookup "route_active" setup.routers ≡ some route
      → route c.state setup.params ≢ "none"
      → round setup c
        ≡ gate_active setup n id
            (route c.state setup.params)
            (record c { steps = c.steps + 1; path = c.path ++ id ∷ [] })
  unfolding round round_from do_interrupt interrupt_by
  round-gate_active c id n route here found kind routed active =
      let e = record c { steps = c.steps + 1 } in
      ap (λ q. round_from setup q e) here
      ∙ ap (λ m. round_at setup id m e) found
      ∙ round_at-interrupt n id e kind
      ∙ rw routed (pass_gate-active n id _ _ active)

  -- When a round goes on from an interrupt node, with an active lane named by the router, then the
  -- scope meets the requirements of the lane's gate, which hold the switch and the attestation, and
  -- one of two things holds. Either `state.approved` is `true`, or it is undefined or null and the
  -- call's decision is an approval, and the run goes to the router's branch for that lane. Or
  -- `state.approved` is something else, or it is undefined or null and the decision is a rejection,
  -- and the run goes where `on_reject` says.
  pub round-IsGated :
      (c d : Config W) (id : String) (n : Node) (route : Router)
      → c.current ≡ some id
      → lookup id (ix setup).by_id ≡ some n
      → n.kind ≡ "interrupt"
      → lookup "route_active" setup.routers ≡ some route
      → route c.state setup.params ≢ "none"
      → round setup c ≡ ok (go_on d)
      → IsGated n id (route c.state setup.params) c d
  round-IsGated c d id n route here found kind routed active h =
      gate_active-IsGated n id (route c.state setup.params) _
        (sym (round-gate_active c id n route here found kind routed active) ∙ h)

-- ===== src/Graph/Validator/Sound.antt =====
-- What `validateGraph` of tools/graph/validate-graph.mjs says of a graph in which it finds no
-- structural error.
use red_team_agent_orchestra.Common.{
  String, ◌≡◌, refl, inl, inr, Bool, true, false, not, Bool-cases, Option, none, some, List, [],
  ◌∷◌, ◌++◌, includes, All, ◌==◌, eq_iff, if◌then◌else◌, arith, keys, eqb, length,
}
use red_team_agent_orchestra.Graph.Schema.{Node, Edge, ConditionalEdge, Graph}
use red_team_agent_orchestra.Graph.Validator.{
  Problem, complain, check_edge, check_edges, check_conditions, check_branches, check_nodes,
  check_kind, check_memory_write, check_memory_block, check_interrupt, check_judge,
  structural_errors, node_ids, is_node_or_end, guard_namespaces, target_known, text_of, given,
  check_roster, start_targets, no_start_edge, empty_roster,
}

append-nil_split {ℓ} : {A : Type ℓ} (xs ys : List A) → xs ++ ys ≡ [] → (xs ≡ []) × (ys ≡ [])
append-nil_split [] ys h = (refl, h)
append-nil_split (x ∷ xs) ys h = cc

complain-nil : (b : Bool) (p : Problem) → complain b p ≡ [] → b ≡ false
complain-nil true p h = cc
complain-nil false p h = refl

edge_known : (ids : List String) (e : Edge) → check_edge ids e ≡ [] → is_node_or_end ids e.to ≡ true
unfolding check_edge
edge_known ids e h = ground arith

edges_known :
    (ids : List String) (es : List Edge)
    → check_edges ids es ≡ []
    → All (λ e. is_node_or_end ids e.to ≡ true) es
unfolding check_edges
edges_known ids [] h = tt
edges_known ids (e ∷ es) h =
    let (first, rest) = append-nil_split (check_edge ids e) (check_edges ids es) h in
    (edge_known ids e first, edges_known ids es rest)

branches_known :
    (ids : List String) (from : String) (bs : List (String × String))
    → check_branches ids from bs ≡ []
    → All (λ b. is_node_or_end ids b.1 ≡ true) bs
unfolding check_branches
branches_known ids from [] h = tt
branches_known ids from ((label, target) ∷ bs) h =
    let (first, rest) = append-nil_split _ (check_branches ids from bs) h in
    (ground arith, branches_known ids from bs rest)

conditions_known :
    (ids : List String) (cs : List ConditionalEdge)
    → check_conditions ids cs ≡ []
    → All (λ c. All (λ b. is_node_or_end ids b.1 ≡ true) c.branches) cs
unfolding check_conditions
conditions_known ids [] h = tt
conditions_known ids (c ∷ cs) h =
    let (first, rest) = append-nil_split _ (check_conditions ids cs) h in
    let (_, branches) = append-nil_split _ (check_branches ids c.from c.branches) first in
    (branches_known ids c.from c.branches branches, conditions_known ids cs rest)

check_interrupt-reject :
    (ids : List String) (conds : List ConditionalEdge) (n : Node)
    → check_interrupt ids conds n ≡ []
    → target_known ids n.on_reject ≡ true
unfolding check_interrupt
check_interrupt-reject ids conds n h = ground arith

-- Where an interrupt leads when it is rejected; a node of another kind leads nowhere.
abbrev pub rejection_of : Node → Option String
rejection_of n = if n.kind == "interrupt" then n.on_reject else none

reject_known :
    (agents channels ids : List String) (conds : List ConditionalEdge) (n : Node)
    → check_kind agents channels ids conds n ≡ []
    → target_known ids (rejection_of n) ≡ true
unfolding check_kind check_interrupt
reject_known agents channels ids conds n h = elim (Bool-cases (n.kind == "interrupt")) [
  | inl e ↦ rw e (check_interrupt-reject ids conds n (rw ((eq_iff n.kind "interrupt").0 e) at h))
  | inr e ↦ rw e refl
]

interrupts_known :
    (agents channels ids : List String) (conds : List ConditionalEdge) (ns : List Node)
    → check_nodes agents channels ids conds ns ≡ []
    → All (λ n. target_known ids (rejection_of n) ≡ true) ns
unfolding check_nodes
interrupts_known agents channels ids conds [] h = tt
interrupts_known agents channels ids conds (n ∷ ns) h =
    let (first, rest) = append-nil_split _ (check_nodes agents channels ids conds ns) h in
    let (_, kind) = append-nil_split _ (check_kind agents channels ids conds n) first in
    (
      reject_known agents channels ids conds n kind,
      interrupts_known agents channels ids conds ns rest,
    )

abbrev block_namespaces : Option (Option String) → List String
block_namespaces none = []
block_namespaces (some ns) = text_of ns ∷ []

-- The namespaces that a node writes, of kind memory_write or judge.
abbrev pub written_namespaces : Node → List String
written_namespaces n =
    if n.kind == "memory_write"
    then text_of n.namespace ∷ []
    else if n.kind == "judge"
    then block_namespaces n.memory_write
    else []

-- A node that writes memory writes no guardrail namespace.
abbrev pub IsFirewalled : Node → Type 0
IsFirewalled n = All (λ ns. includes guard_namespaces ns ≡ false) (written_namespaces n)

check_memory_write-firewall :
    (id : String) (ns : Option String)
    → check_memory_write id ns ≡ []
    → includes guard_namespaces (text_of ns) ≡ false
unfolding check_memory_write
check_memory_write-firewall id ns h = ground arith

block-firewall :
    (id : String) (block : Option (Option String))
    → check_memory_block id block ≡ []
    → All (λ ns. includes guard_namespaces ns ≡ false) (block_namespaces block)
block-firewall id none h = tt
block-firewall id (some ns) h = (check_memory_write-firewall id ns h, tt)

check_judge-firewall :
    (n : Node)
    → check_judge n ≡ []
    → All (λ ns. includes guard_namespaces ns ≡ false) (block_namespaces n.memory_write)
unfolding check_judge
check_judge-firewall n h =
    block-firewall n.id n.memory_write (append-nil_split (complain (not (given n.writes)) _) _ h).1

check_kind-IsFirewalled :
    (agents channels ids : List String) (conds : List ConditionalEdge) (n : Node)
    → check_kind agents channels ids conds n ≡ []
    → IsFirewalled n
unfolding check_kind check_judge
check_kind-IsFirewalled agents channels ids conds n h =
    elim (Bool-cases (n.kind == "memory_write")) [
      | inl e ↦ rw e (
        check_memory_write-firewall n.id n.namespace (rw ((eq_iff n.kind "memory_write").0 e) at h),
        tt,
      )
      | inr e ↦ elim (Bool-cases (n.kind == "judge")) [
        | inl j ↦ rw (e, j) (check_judge-firewall n (rw ((eq_iff n.kind "judge").0 j) at h))
        | inr j ↦ rw (e, j) tt
      ]
    ]

nodes_IsFirewalled :
    (agents channels ids : List String) (conds : List ConditionalEdge) (ns : List Node)
    → check_nodes agents channels ids conds ns ≡ []
    → All IsFirewalled ns
unfolding check_nodes
nodes_IsFirewalled agents channels ids conds [] h = tt
nodes_IsFirewalled agents channels ids conds (n ∷ ns) h =
    let (first, rest) = append-nil_split _ (check_nodes agents channels ids conds ns) h in
    let (_, kind) = append-nil_split _ (check_kind agents channels ids conds n) first in
    (
      check_kind-IsFirewalled agents channels ids conds n kind,
      nodes_IsFirewalled agents channels ids conds ns rest,
    )

-- What the parts of a graph without structural errors satisfy.
pub record IsSound (graph : Graph) : Type 0 where
  pub firewalled : All IsFirewalled graph.nodes
  pub edges : All (λ e. is_node_or_end (node_ids graph.nodes) e.to ≡ true) graph.edges
  pub branches :
      All
        (λ c. All (λ b. is_node_or_end (node_ids graph.nodes) b.1 ≡ true) c.branches)
        graph.conditional_edges
  pub rejections :
      All (λ n. target_known (node_ids graph.nodes) (rejection_of n) ≡ true) graph.nodes

-- In a graph without structural errors no node of kind memory_write, and no memory_write block of a
-- judge node, names a guardrail namespace, and every edge, every branch of a conditional edge and
-- every rejection of an interrupt leads to END or to the id of a node.
pub structural_errors-IsSound :
    (agents : List String) (graph : Graph) → structural_errors agents graph ≡ [] → IsSound graph
unfolding structural_errors
structural_errors-IsSound agents graph h =
    let ids = node_ids graph.nodes in
    let conds = graph.conditional_edges in
    let channels = keys graph.channels in
    let (a, conditions) = append-nil_split _ (check_conditions ids conds) h in
    let (b, _) =
      append-nil_split _ (complain (eqb (start_targets graph.edges) 0) no_start_edge) a in
    let (c, edges) = append-nil_split _ (check_edges ids graph.edges) b in
    let (d, _) = append-nil_split _ (check_roster agents graph.roster) c in
    let (e, _) = append-nil_split _ (complain (eqb (length graph.roster) 0) empty_roster) d in
    let (_, nodes) = append-nil_split _ (check_nodes agents channels ids conds graph.nodes) e in
    record {
      firewalled = nodes_IsFirewalled agents channels ids conds graph.nodes nodes;
      edges = edges_known ids graph.edges edges;
      branches = conditions_known ids conds conditions;
      rejections = interrupts_known agents channels ids conds graph.nodes nodes;
    }

-- ===== src/Graph/Runner/Indexed.antt =====
-- What `indexGraph` of tools/graph/run-graph.mjs finds in a graph.
use red_team_agent_orchestra.Common.{
  String, ◌≡◌, ◌⊎◌, inl, inr, true, Bool-cases, some, List, [], ◌∷◌, ◌++◌, includes, All, lookup,
  insert, lookup-insert, ◌==◌, eq_iff, arith, is_some, if◌then◌else◌, All-append,
}
use red_team_agent_orchestra.Graph.Schema.{Node, Edge, ConditionalEdge}
use red_team_agent_orchestra.Graph.Validator.{node_ids}
use red_team_agent_orchestra.Graph.Runner.{index_nodes, index_edges, index_conditional, list_or_nil}

-- Every node of the graph is in the index under its id, and the index has no other.
pub index_nodes-lookup :
    (ns : List Node) (m : List (String × Node)) (id : String)
    → (is_some (lookup id m) ≡ true) ⊎ (includes (node_ids ns) id ≡ true)
    → is_some (lookup id (index_nodes ns m)) ≡ true
unfolding index_nodes node_ids
index_nodes-lookup [] m id (inl h) = h
index_nodes-lookup [] m id (inr h) = cc
index_nodes-lookup (n ∷ ns) m id h = index_nodes-lookup ns (insert n.id n m) id (next h)
  where
    next :
        (is_some (lookup id m) ≡ true) ⊎ (includes (node_ids (n ∷ ns)) id ≡ true)
        → (is_some (lookup id (insert n.id n m)) ≡ true) ⊎ (includes (node_ids ns) id ≡ true)
    next g = ground (arith, lookup-insert n.id id n m, eq_iff n.id id)

-- what the index of edges holds satisfies what all the edges do
pub index_edges-All :
    (P : String → Type 0) (es : List Edge) (m : List (String × List String))
    → All (λ e. P e.to) es
    → ((k : String) → All P (list_or_nil (lookup k m)))
    → (k : String) → All P (list_or_nil (lookup k (index_edges es m)))
unfolding index_edges
index_edges-All P [] m h a k = a k
index_edges-All P (e ∷ es) m (p, h) a k =
    index_edges-All P es (insert e.from (list_or_nil (lookup e.from m) ++ e.to ∷ []) m) h
      (λ j. rw lookup-insert (added j)) k
  where
    added :
        (j : String)
        → All P (
            list_or_nil (
              if e.from == j
              then some (list_or_nil (lookup e.from m) ++ e.to ∷ [])
              else lookup j m))
    added j = elim (Bool-cases (e.from == j)) [
      | inl eq ↦ rw eq (All-append P (list_or_nil (lookup e.from m)) (e.to ∷ []) (a e.from) (p, tt))
      | inr ne ↦ rw ne (a j)
    ]

pub index_conditional-All :
    (P : ConditionalEdge → Type 0) (cs : List ConditionalEdge) (m : List (String × ConditionalEdge))
    → All P cs
    → ((k : String) (c : ConditionalEdge) → lookup k m ≡ some c → P c)
    → (k : String) (c : ConditionalEdge) → lookup k (index_conditional cs m) ≡ some c
    → P c
unfolding index_conditional
index_conditional-All P [] m h a k c e = a k c e
index_conditional-All P (b ∷ cs) m (p, h) a k c e =
    index_conditional-All P cs (insert b.from b m) h added k c e
  where
    added : (j : String) (d : ConditionalEdge) → lookup j (insert b.from b m) ≡ some d → P d
    added j d f = elim (Bool-cases (b.from == j)) [
      | inl eq ↦ let same : b ≡ d = ground (arith, lookup-insert b.from j b m) in rw (← same) p
      | inr ne ↦ a j d (ground (arith, lookup-insert b.from j b m))
    ]

pub index_nodes-All :
    (P : Node → Type 0) (ns : List Node) (m : List (String × Node))
    → All P ns
    → ((k : String) (n : Node) → lookup k m ≡ some n → P n)
    → (k : String) (n : Node) → lookup k (index_nodes ns m) ≡ some n
    → P n
unfolding index_nodes
index_nodes-All P [] m h a k n e = a k n e
index_nodes-All P (b ∷ ns) m (p, h) a k n e = index_nodes-All P ns (insert b.id b m) h added k n e
  where
    added : (j : String) (d : Node) → lookup j (insert b.id b m) ≡ some d → P d
    added j d f = elim (Bool-cases (b.id == j)) [
      | inl eq ↦ let same : b ≡ d = ground (arith, lookup-insert b.id j b m) in rw (← same) p
      | inr ne ↦ a j d (ground (arith, lookup-insert b.id j b m))
    ]

pub lookup-All :
    (P : String → Type 0) (bs : List (String × String)) (k : String) {t : String}
    → All (λ b. P b.1) bs
    → lookup k bs ≡ some t
    → P t
unfolding lookup
lookup-All P [] k a h = cc
lookup-All P ((j, v) ∷ bs) k {t} (p, a) h = elim (Bool-cases (j == k)) [
  | inl e ↦ let same : v ≡ t = ground arith in rw (← same) p
  | inr e ↦ lookup-All P bs k a (ground arith)
]

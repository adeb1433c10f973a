-- ===== src/Graph/Memory.antt =====
-- `makeMemoryStore` of tools/graph/run-graph.mjs, in memory: `persist` and its files are left out.
use red_team_agent_orchestra.Common.{
  String, Option, none, some, List, [], ◌∷◌, ◌++◌, lookup, insert, includes, Result, ok, throw,
  ◌>>=◌, namespace_required, guardrail_namespace, ◌==◌, if◌then◌else◌,
}
use red_team_agent_orchestra.Js.{Value}
use red_team_agent_orchestra.Graph.Validator.{guard_namespaces}

-- The entries of each namespace.
abbrev pub Memory : Type 0
Memory = List (String × List Value)

-- `assertNamespace`
unfoldable pub assert_namespace : String → Result (Unit {0})
assert_namespace ns =
    if ns == ""
    then throw namespace_required
    else if includes guard_namespaces ns
    then throw (guardrail_namespace ns)
    else ok tt

abbrev pub entries_or_nil {ℓ} : {A : Type ℓ} → Option (List A) → List A
entries_or_nil none = []
entries_or_nil (some l) = l

unfoldable pub load : String → Memory → Result (List Value)
load ns mem = assert_namespace ns >>= λ _. ok (entries_or_nil (lookup ns mem))

unfoldable pub save : String → Value → Memory → Result Memory
save ns entry mem = assert_namespace ns >>= λ _.
    load ns mem >>= λ entries. ok (insert ns (entries ++ entry ∷ []) mem)

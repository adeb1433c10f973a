-- ===== src/Graph/Handlers.antt =====
-- `buildSecurityContext` and `defaultHandlers` of tools/graph/run-graph.mjs, for handlers that return
-- no promise. Times (`ts`) are left out of what they store.
pub mod Evaluator
use red_team_agent_orchestra.Common.{
  ℕ, ◌+◌, ◌*◌, String, Option, none, some, List, [], ◌∷◌, length, false, Result, ok, ◌>>=◌, ◌==◌,
  if◌then◌else◌,
}
use red_team_agent_orchestra.Js.{
  Value, undefined, null, bool, num, str, arr, obj, Items, nil, cons, Props, end, prop, get,
  or_else, elements, of_list,
}
use red_team_agent_orchestra.Js.Text.{trim}
use red_team_agent_orchestra.Graph.Schema.{RosterItem, Node, Dict, at}
use red_team_agent_orchestra.Graph.State.{Writes}
use red_team_agent_orchestra.Graph.Routing.{num_or}
use red_team_agent_orchestra.Graph.Memory.{Memory, load, save}
use red_team_agent_orchestra.Graph.Runner.{Handler}

-- `typeof ref === 'string' && ref.trim() ? ref : null`
unfoldable pub inventory_ref : Value → Value
inventory_ref (str s) = if trim s == "" then null else str s
inventory_ref _ = null

abbrev signal : String → Items → Props
signal status refs = prop "status" (str status) (prop "evidence_refs" (arr refs) end)

abbrev arm_signal : Value → Props
arm_signal (str s) = signal "unverified" (cons (str s) nil)
arm_signal _ = signal "unavailable" nil

abbrev inventory_status : Value → String
inventory_status (str s) = "referenced"
inventory_status _ = "missing"

unfoldable pub build_security_context : Dict → Value
build_security_context state =
    let ref = inventory_ref (at state "inventory_ref") in
    let scope = at state "scope" in
    let missing = obj (signal "unavailable" nil) in
    obj (
      prop "version" (str "security-context/v1") (
        prop "status" (str "summary-only") (
          prop "scope"
            (obj (
              prop "mode" (or_else (get scope "mode") (str "read-only-assessment")) (
                prop "domains" (or_else (get scope "domains") (arr nil))
                  (prop "resource_types" (or_else (get scope "resource_types") (arr nil)) end))))
            (prop "inventory"
              (obj (prop "ref" ref (prop "status" (str (inventory_status ref)) end)))
              (prop "signals"
                (obj (
                  prop "defender_endpoint" missing (
                    prop "entra_identity" missing (
                      prop "sentinel" missing (
                        prop "defender_cloud" missing (
                          prop "arm" (obj (arm_signal ref)) (
                            prop "behavior_analytics" missing (
                              prop "exposure_management" missing
                                (prop "threat_intelligence" missing end)))))))))
                (prop "handoff"
                  (obj (
                    prop "instructions"
                      (arr (
                        cons
                          (str
                            "Treat unavailable and unverified signals as coverage gaps, not clean results.")
                          (cons (str "Use evidence_refs to retrieve source summaries.") (
                            cons
                              (str
                                "Verify source provenance and collection success before treating a reference as evidence.")
                              (cons (str "Never infer a signal that is not present.") nil)))))
                      end))
                  end))))))

-- What the caller of `runGraph` gives the default handlers.
pub record Host : Type 0 where
  pub scope : Value
  pub quality : Option ℕ
  pub dispatch : Option (Handler Memory)
  pub judge : Option (Value → Value)
  pub security_context : Option (Dict → Value)

-- `[node.writes]`
abbrev pub key_of : Option String → String
key_of none = "undefined"
key_of (some k) = k

abbrev namespace_of : Option String → String
namespace_of none = "methodology"
namespace_of (some ns) = if ns == "" then "methodology" else ns

unfoldable pub handle_validate : Host → Handler Memory
handle_validate host n item state mem = ok (
  (
    "scope",
    or_else host.scope
        (obj (prop "mode" (str "read-only-assessment") (prop "m365_in_scope" (bool false) end))),
  )
      ∷ [],
  mem,
)

unfoldable pub handle_memory_read : Handler Memory
handle_memory_read n item state mem = load (namespace_of n.namespace) mem >>= λ entries.
    ok (("memory", obj (prop "entries" (arr (of_list entries)) end)) ∷ [], mem)

abbrev context_by : Option (Dict → Value) → Dict → Value
context_by none state = build_security_context state
context_by (some build) state = build state

unfoldable pub handle_context : Host → Handler Memory
handle_context host n item state mem =
    ok ((key_of n.writes, context_by host.security_context state) ∷ [], mem)

unfoldable pub handle_dispatch : Host → Handler Memory
handle_dispatch host n item state mem = elim host.dispatch [
  | none ↦ ok ([], mem)
  | some run ↦ run n item state mem
]

abbrev source_of : Option String → Dict → Value
source_of none state = arr nil
source_of (some channel) state = if channel == "" then arr nil else at state channel

unfoldable pub handle_reduce : Handler Memory
handle_reduce n item state mem =
    ok ((key_of n.writes, or_else (source_of n.reads state) (arr nil)) ∷ [], mem)

abbrev quality_or : Option ℕ → ℕ
quality_or none = 100
quality_or (some q) = q

-- what the default evaluator writes: a revision is 1, which is 100 hundredths
unfoldable pub critique_writes : ℕ → Dict → Writes
critique_writes quality state =
    ("critique", obj (prop "quality" (num quality) (prop "notes" (arr nil) end)))
    ∷ ("revision", num (num_or 0 (at state "revision") + 100))
    ∷ []

unfoldable pub handle_evaluator : Host → Handler Memory
handle_evaluator host n item state mem = ok (critique_writes (quality_or host.quality) state, mem)

abbrev judged : Option (Value → Value) → Value → Value
judged none v = v
judged (some judge) v = judge v

unfoldable pub handle_judge : Host → Handler Memory
handle_judge host n item state mem = ok (
  ("confirmed_findings", judged host.judge (or_else (at state "candidate_findings") (arr nil)))
      ∷ [],
  mem,
)

unfoldable pub handle_memory_write : Handler Memory
handle_memory_write n item state mem =
    save (namespace_of n.namespace)
      (obj (
        prop "node" (str n.id)
          (prop "confirmed" (num (100 * length (elements (at state "confirmed_findings")))) end)))
      mem
    >>= λ next. ok ([], next)

unfoldable pub default_handlers : Host → List (String × Handler Memory)
default_handlers host =
    ("validate", handle_validate host)
    ∷ ("memory_read", handle_memory_read)
    ∷ ("context", handle_context host)
    ∷ ("dispatch", handle_dispatch host)
    ∷ ("reduce", handle_reduce)
    ∷ ("evaluator", handle_evaluator host)
    ∷ ("judge", handle_judge host)
    ∷ ("memory_write", handle_memory_write)
    ∷ []

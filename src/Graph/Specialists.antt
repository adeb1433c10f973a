-- ===== src/Graph/Specialists.antt =====
-- `runGraphAsync` of tools/graph/run-graph.mjs. The specialists of a fan-out run together, each on a
-- copy of the state, and their answers are folded in roster order. What a specialist's handler
-- answers, after the race with its deadline, is an argument; so are whether a dispatch loses the race
-- with its deadline, and what `Number` makes of a value that is no number, in hundredths. Events are
-- left out.
pub mod Gaps
use red_team_agent_orchestra.Common.{
  ℕ, zero, suc, ◌+◌, String, Bool, true, false, Option, none, some, List, [], ◌∷◌, ◌++◌, lookup,
  Result, ok, throw, ◌>>=◌, unknown_node, type_error, invalid_timeout, deadline_exceeded, no_start,
  step_budget, is_some, ◌==◌, if◌then◌else◌,
}
use Prim.Native.String
use red_team_agent_orchestra.Js.{
  Value, undefined, null, num, str, obj, arr, cons, nil, end, prop, get, elements, or_else,
  stringify,
}
use red_team_agent_orchestra.Graph.Schema.{RosterItem, Node, Dict, Graph, at}
use red_team_agent_orchestra.Graph.State.{Writes, apply_results}
use red_team_agent_orchestra.Graph.Routing.{in_scope_roster}
use red_team_agent_orchestra.Graph.Runner.{
  Config, Round, go_on, pause, Outcome, completed, interrupted, failed, Setup, checkpoint, node_at,
  next_after, do_interrupt, do_ordinary, at_end, finish, follow, begin, ix,
}

-- How a specialist ends: with writes, after its deadline, or with an error's message.
pub data Answer : Type 0 where
  answered : Writes → Answer
  late : Answer
  broken : String → Answer

abbrev pub Specialist : Type 0
Specialist = Node → RosterItem → Dict → Answer

abbrev text_or_undefined : Option String → Value
text_or_undefined none = undefined
text_or_undefined (some s) = str s

abbrev first_of : List Value → Value
first_of [] = undefined
first_of (v ∷ vs) = v

unfoldable pub subscription_of : Value → Value
subscription_of scope =
    or_else (get (first_of (elements (get scope "subscriptions"))) "id")
      (or_else (get scope "subscription_id") (or_else (get scope "subscriptionId") (str "unknown")))

unfoldable pub coverage_gap : Value → RosterItem → String → String → Value
coverage_gap scope item status reason = obj (
    prop "domain" (text_or_undefined item.domain) (
      prop "check_id" (str "__specialist__") (
        prop "subscription_id" (subscription_of scope) (
          prop "type" (str "*") (
            prop "status" (str status)
              (prop "count" (num 100) (prop "reason" (str reason) end)))))))

infixr 65 ◌<>◌
abbrev ◌<>◌ : String → String → String
s <> t = String.◌++◌ s t

unfoldable pub deadline_reason : ℕ → String
deadline_reason timeout = "specialist deadline exceeded (" <> stringify (num timeout) <> "s)"

abbrev pub gap_writes : Value → Writes
gap_writes gap = ("coverage_gaps", arr (cons gap nil)) ∷ []

-- the result that a fan-out folds for a specialist
unfoldable pub result_of : Value → ℕ → RosterItem → Answer → Writes
result_of scope timeout item (answered writes) = writes
result_of scope timeout item late =
    gap_writes (coverage_gap scope item "partial" (deadline_reason timeout))
result_of scope timeout item (broken message) =
    gap_writes (coverage_gap scope item "failed" ("specialist failed: " <> message))

-- every specialist in scope, asked in the same state
unfoldable pub ask : Specialist → Node → Dict → List RosterItem → List (RosterItem × Answer)
ask specialist child state [] = []
ask specialist child state (item ∷ rest) =
    (item, specialist child item state) ∷ ask specialist child state rest

unfoldable pub apply_answers : Graph → Value → ℕ → List (RosterItem × Answer) → Dict → Result Dict
apply_answers graph scope timeout [] state = ok state
apply_answers graph scope timeout ((item, answer) ∷ rest) state =
    apply_results graph state (result_of scope timeout item answer)
    >>= apply_answers graph scope timeout rest

-- `Number.isFinite(n) && n > 0`, of a number that is finite or none
abbrev positive : Option ℕ → Option ℕ
positive none = none
positive (some zero) = none
positive (some (suc n)) = some (suc n)

-- `Number(v ?? standard)`, where it is positive
unfoldable pub timeout_of : (Value → Option ℕ) → ℕ → Value → Option ℕ
timeout_of number standard undefined = positive (some standard)
timeout_of number standard null = positive (some standard)
timeout_of number standard (num n) = positive (some n)
timeout_of number standard v = positive (number v)

module _ {W : Type 0} (setup : Setup W) (specialist : Specialist) (scope : Value)
    (number : Value → Option ℕ) (overdue : Node → Config W → Bool) where
  unfoldable pub answers_of :
      Option Node → Dict → List RosterItem → Result (List (RosterItem × Answer))
  answers_of none state [] = ok []
  answers_of none state (item ∷ rest) = throw (type_error "id")
  answers_of (some child) state items = ok (ask specialist child state items)

  unfoldable pub fan_out_within : Option ℕ → Node → Config W → Result (Round W)
  fan_out_within none n c = throw (invalid_timeout "specialist_timeout_seconds")
  fan_out_within (some timeout) n c =
      answers_of (node_at setup n.into) c.state (in_scope_roster setup.graph c.state) >>= λ answers.
      apply_answers setup.graph scope timeout answers c.state >>= λ state. ok (
        go_on (record (checkpoint setup "done" (record c { state = state })) {
          current = next_after setup n.into;
        }))

  -- `runBoundedDispatch`, and what follows a node that has run
  unfoldable pub dispatch_within : Option ℕ → Node → String → Config W → Result (Round W)
  dispatch_within none n id c = throw (invalid_timeout "dispatch_timeout_seconds")
  dispatch_within (some timeout) n id c =
      if overdue n c then throw (deadline_exceeded n.id timeout) else do_ordinary setup n id c

  unfoldable pub round_at_async : String → Option Node → Config W → Result (Round W)
  round_at_async id none c = throw (unknown_node id)
  round_at_async id (some n) c =
      let d = record c { path = c.path ++ id ∷ [] } in
      if n.kind == "fanout"
      then fan_out_within (timeout_of number 90000 (at setup.params "specialist_timeout_seconds")) n
          d
      else if n.kind == "interrupt"
      then do_interrupt setup n id d
      else if n.kind == "dispatch"
      then dispatch_within (timeout_of number 60000 (at setup.params "dispatch_timeout_seconds")) n
          id d
      else do_ordinary setup n id d

  unfoldable pub round_from_async : Option String → Config W → Result (Round W)
  round_from_async none c = throw (unknown_node "undefined")
  round_from_async (some id) c = round_at_async id (lookup id (ix setup).by_id) c

  unfoldable pub round_async : Config W → Result (Round W)
  round_async c = round_from_async c.current (record c { steps = c.steps + 1 })

  unfoldable pub loop_async : ℕ → Config W → Outcome W
  loop_async zero c =
      if at_end setup c.current then finish setup c else failed (step_budget setup.max_steps) c
  loop_async (suc fuel) c = elim (at_end setup c.current) [
    | true ↦ finish setup c
    | false ↦ follow setup (loop_async fuel) c (round_async c)
  ]

  unfoldable pub run_graph_async : Option String → Option Dict → W → Outcome W
  run_graph_async start initial world =
      let c = begin setup start initial world in
      if is_some c.current then loop_async setup.max_steps c else failed no_start c

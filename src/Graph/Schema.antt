-- ===== src/Graph/Schema.antt =====
-- The parsed graph (graph/redteam.graph.json, schemas/graph.schema.json) as tools/graph/run-graph.mjs
-- and tools/graph/validate-graph.mjs read it, and the run state. A field that the JSON may leave out,
-- or that the validator tests with `typeof`, is an `Option`: `none` is a missing or ill-typed field.
use red_team_agent_orchestra.Common.{String, Bool, Option, none, some, List, lookup}
use red_team_agent_orchestra.Js.{Value, undefined}

pub record Channel : Type 0 where
  pub types : List String  -- `type`: one name or several
  pub reducer : String

pub record RosterItem : Type 0 where
  pub domain : Option String
  pub agent : Option String
  pub when : Option String
  pub scope_domains : Option (List String)
  pub resource_types : Option (List String)

pub record Gated : Type 0 where
  pub mode : String
  pub requires : Option (List String)

pub record Node : Type 0 where
  pub id : String
  pub kind : String
  pub reads : Option String
  pub writes : Option String
  pub emits : List String
  pub agent : Option String
  pub lane : Option String
  pub gated : Option Gated
  pub over : Option String
  pub into : Option String
  pub reduce_into : Option String
  pub reducer : Option String
  pub evaluator : Option String
  pub prompt : Option String
  pub on_approve : Option String
  pub on_reject : Option String
  pub namespace : Option String
  pub is_mutable : Bool  -- `mutable === true`
  pub memory_write : Option (Option String)  -- the namespace of a judge's `memory_write` block

pub record Edge : Type 0 where
  pub from : String
  pub to : String

pub record ConditionalEdge : Type 0 where
  pub from : String
  pub router : String
  pub branches : List (String × String)

-- A plain JavaScript object that the runner reads and writes by name: the state, the parameters.
abbrev pub Dict : Type 0
Dict = List (String × Value)

pub record Graph : Type 0 where
  pub channels : List (String × Channel)
  pub params : Dict
  pub roster : List RosterItem
  pub nodes : List Node
  pub edges : List Edge
  pub conditional_edges : List ConditionalEdge

abbrev value_or : Option Value → Value
value_or none = undefined
value_or (some v) = v

-- `d[k]`
unfoldable pub at : Dict → String → Value
unfolding lookup
at d k = value_or (lookup k d)

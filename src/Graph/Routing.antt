-- ===== src/Graph/Routing.antt =====
-- The conditional edges of tools/graph/run-graph.mjs: defaultRouters, inScopeRoster, getPath and
-- assertActiveRequirements.
pub mod Requirements
use red_team_agent_orchestra.Common.{
  ℕ, String, Bool, true, false, ◌&&◌, ◌||◌, not, Option, none, some, List, [], ◌∷◌, any, keep, ltb,
  includes, Result, ok, throw, active_gate, missing_requirements, ◌==◌, if◌then◌else◌,
}
use red_team_agent_orchestra.Js.{Value, bool, num, str, arr, obj, items, get, or_else, end, text_or}
use red_team_agent_orchestra.Js.Text.{lower, ends_with, begins_with, drop_last, split, trim}
use red_team_agent_orchestra.Graph.Schema.{RosterItem, Gated, Node, Graph, Dict, at}

-- `v || 0` and `v ?? d`, of a number
unfoldable pub num_or : ℕ → Value → ℕ
num_or d (num n) = n
num_or d _ = d

unfoldable pub route_after_evaluate : Dict → Dict → String
route_after_evaluate state params =
    let rev = num_or 0 (at state "revision") in
    let quality = num_or 100 (get (at state "critique") "quality") in
    if ltb rev (num_or 0 (at params "max_revisions"))
      && ltb quality (num_or 0 (at params "quality_threshold"))
    then "refine"
    else "proceed"

unfoldable pub mode_of : Dict → String
mode_of state = text_or "" (or_else (get (at state "scope") "mode") (str "read-only-assessment"))

unfoldable pub route_active : Dict → Dict → String
route_active state params =
    if mode_of state == "external-active-testing"
    then "external_active"
    else if mode_of state == "cluster-active-testing"
    then "cluster_active"
    else "none"

unfoldable pub texts : List Value → List String
texts [] = []
texts (str s ∷ vs) = s ∷ texts vs
texts (_ ∷ vs) = texts vs

-- An array of names; entries of another type match no name.
unfoldable pub names_of : Value → List String
names_of (arr vs) = texts (items vs)
names_of _ = []

-- `typeMatches`: either side can name a provider wildcard.
unfoldable pub type_matches : String → String → Bool
type_matches selected supported =
    let candidate = lower selected in
    let pattern = lower supported in
    (ends_with candidate "/*" && begins_with pattern (drop_last candidate))
    || (ends_with pattern "/*" && begins_with candidate (drop_last pattern))
    || candidate == pattern

abbrev is_true : Value → Bool
is_true (bool true) = true
is_true _ = false

abbrev is_array : Value → Bool
is_array (arr vs) = true
is_array _ = false

unfoldable pub when_holds : Value → Option String → Bool
when_holds scope none = true
when_holds scope (some flag) =
    flag == "" || is_true (get scope flag) || includes (names_of (get scope "flags")) flag

abbrev is_empty {ℓ} : {A : Type ℓ} → List A → Bool
is_empty [] = true
is_empty (_ ∷ _) = false

unfoldable pub domains_match : List String → Option (List String) → Bool
domains_match selected none = true
domains_match selected (some supported) =
    is_empty selected || any (λ d. includes selected d) supported

unfoldable pub types_match : List String → Option (List String) → Bool
types_match selected none = is_empty selected
types_match selected (some supported) =
    is_empty selected
    || (not (is_empty supported) && any (λ s. any (λ t. type_matches s t) supported) selected)

unfoldable pub in_scope : Value → RosterItem → Bool
in_scope scope r =
    when_holds scope r.when
    && domains_match (names_of (get scope "domains")) r.scope_domains
    && types_match (names_of (get scope "resource_types")) r.resource_types

unfoldable pub in_scope_roster : Graph → Dict → List RosterItem
in_scope_roster graph state = keep (in_scope (or_else (at state "scope") (obj end))) graph.roster

unfoldable pub walk : Value → List String → Value
walk v [] = v
walk v (key ∷ keys) = walk (get v key) keys

-- `getPath`: the keys are what the dots part.
unfoldable pub get_path : Value → String → Value
get_path v path = walk v (split b'.' path)

abbrev is_gated_by : String → Option Gated → Bool
is_gated_by mode none = false
is_gated_by mode (some g) = g.mode == mode

abbrev requires_of : Option Gated → Option (List String)
requires_of none = none
requires_of (some g) = g.requires

-- `graph.nodes.find((n) => n.gated?.mode === mode)?.gated?.requires`
unfoldable pub requirements_for : List Node → String → Option (List String)
requirements_for [] mode = none
requirements_for (n ∷ ns) mode =
    if is_gated_by mode n.gated then requires_of n.gated else requirements_for ns mode

-- What a lane asks for: the names `assertActiveRequirements` builds from it.
pub record Lane : Type 0 where
  pub mode : String
  pub enabled_path : String
  pub attestation_path : String

unfoldable pub lane_of : String → Lane
lane_of lane =
    if lane == "external_active"
    then record {
      mode = "external-active-testing";
      enabled_path = "external_testing.enabled";
      attestation_path = "external_testing.authorization.attestation_id";
    }
    else record {
      mode = "cluster-active-testing";
      enabled_path = "cluster_testing.enabled";
      attestation_path = "cluster_testing.authorization.attestation_id";
    }

-- `typeof value !== 'string' || !value.trim()`
unfoldable pub is_blank : Value → Bool
is_blank (str s) = trim s == ""
is_blank _ = true

unfoldable pub is_missing : Value → Lane → String → Bool
is_missing scope lane path =
    let value = get_path scope path in
    if path == lane.enabled_path
    then not (is_true value)
    else if path == lane.attestation_path
    then is_blank value
    else true

unfoldable pub assert_none_missing : String → List String → Result (Unit {0})
assert_none_missing mode [] = ok tt
assert_none_missing mode (m ∷ ms) = throw (missing_requirements mode (m ∷ ms))

unfoldable pub assert_requirements : Value → Lane → Option (List String) → Result (Unit {0})
assert_requirements scope lane none = throw (active_gate lane.mode)
assert_requirements scope lane (some requirements) =
    if includes requirements lane.enabled_path && includes requirements lane.attestation_path
    then assert_none_missing lane.mode (keep (is_missing scope lane) requirements)
    else throw (active_gate lane.mode)

unfoldable pub assert_active_requirements : Graph → Value → String → Result (Unit {0})
assert_active_requirements graph scope name =
    let lane = lane_of name in
    assert_requirements scope lane (requirements_for graph.nodes lane.mode)

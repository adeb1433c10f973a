-- ===== src/Learning/Firewall.antt =====
-- `assertMethodologyNamespace` of tools/graph/self-improve.mjs.
use Prim.Native.Char.{code}
use Prim.Native.String
use red_team_agent_orchestra.Common.{
  String, ◌≡◌, refl, false, Bool-cases, inl, inr, not, List, [], ◌∷◌, includes, eqb, Result, ok,
  throw, namespace_required, guardrail_namespace, foreign_namespace, ◌==◌, eq_iff, arith,
  if◌then◌else◌,
}
use red_team_agent_orchestra.Js.Text.{split}
use red_team_agent_orchestra.Graph.Validator.{guard_namespaces}

-- `ns.replaceAll('\\', '/')`
unfoldable pub forward_slashes : String → String
forward_slashes String.[] = String.[]
forward_slashes (String.◌∷◌ c s) =
    if eqb (code c) 0x5c
    then String.◌++◌ "/" (forward_slashes s)
    else String.◌∷◌ c (forward_slashes s)

abbrev head_or : List String → String
head_or [] = ""
head_or (s ∷ _) = s

-- the first part of a namespace
unfoldable pub top : String → String
top ns = head_or (split b'/' (forward_slashes ns))

abbrev pub methodology : String
methodology = "methodology"

unfoldable pub assert_methodology_namespace : String → Result String
assert_methodology_namespace ns =
    if ns == ""
    then throw namespace_required
    else if includes guard_namespaces ns
    then throw (guardrail_namespace ns)
    else if not (top ns == methodology)
    then throw (foreign_namespace ns)
    else ok ns

-- A namespace that learning may write.
pub record IsMethodology (ns : String) : Type 0 where
  pub topped : top ns ≡ methodology
  pub unguarded : includes guard_namespaces ns ≡ false

unguarded_by :
    (ns : String) {out : String}
    → assert_methodology_namespace ns ≡ ok out
    → includes guard_namespaces ns ≡ false
unfolding assert_methodology_namespace
unguarded_by ns h = elim (Bool-cases (includes guard_namespaces ns)) [
  | inl e ↦ ground (arith, e)
  | inr e ↦ e
]

pub assert-IsMethodology :
    (ns : String) {out : String} → assert_methodology_namespace ns ≡ ok out → IsMethodology ns
unfolding assert_methodology_namespace
assert-IsMethodology ns h = elim (Bool-cases (top ns == methodology)) [
  | inl e ↦ record { topped = (eq_iff (top ns) methodology).0 e; unguarded = unguarded_by ns h }
  | inr e ↦ ground (arith, e)
]

pub assert-methodology : assert_methodology_namespace methodology ≡ ok methodology
unfolding assert_methodology_namespace top forward_slashes split
assert-methodology = refl

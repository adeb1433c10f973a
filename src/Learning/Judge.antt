-- ===== src/Learning/Judge.antt =====
-- The false-positive gate of tools/graph/self-improve.mjs: `fpSignature`, `loadFpSuppressions` and
-- `judgeFindings`. A signature that is an array or an object is never the same as another; the time
-- of a suppression is left out.
pub mod Kept
pub mod Learns
use red_team_agent_orchestra.Common.{
  String, Bool, true, false, ◌&&◌, ◌||◌, not, List, [], ◌∷◌, ◌++◌, any, ltb, Result, ok, throw,
  ◌>>=◌, if◌then◌else◌,
}
use red_team_agent_orchestra.Js.{
  Value, undefined, null, bool, num, str, obj, end, prop, get, truthy, or_else, same, stringify,
  elements,
}
use red_team_agent_orchestra.Learning.Firewall.{methodology}
use red_team_agent_orchestra.Learning.Store.{Store, load, append}
use red_team_agent_orchestra.Learning.Params.{is_kind}

unfoldable pub fp_signature : Value → Value
fp_signature f =
    or_else
      (or_else (get f "fp_signature") (
        or_else (get f "check_id") (
          or_else (get f "rule_id")
            (or_else (get f "finding_id") (or_else (get f "id") (get f "dedupe_key"))))))
      (if truthy f then str (stringify f) else str "null")

-- `set.has(sig)`
unfoldable pub has : List Value → Value → Bool
has sigs sig = any (λ s. same s sig) sigs

abbrev pub is_suppression : Value → Bool
is_suppression e = is_kind "fp_suppression" e && truthy (get e "signature")

unfoldable pub suppressions : List Value → List Value
suppressions [] = []
suppressions (e ∷ es) =
    if is_suppression e then get e "signature" ∷ suppressions es else suppressions es

unfoldable pub load_fp_suppressions : Store → Result (List Value)
load_fp_suppressions s = load methodology s >>= λ entries. ok (suppressions entries)

abbrev less : Value → Value → Bool
less (num a) (num b) = ltb a b
less _ _ = false

-- The marks of a false positive that the finding carries itself.
unfoldable pub is_marked : Value → Bool
is_marked f =
    same (get f "false_positive") (bool true)
    || same (get f "status") (str "false_positive")
    || less (get f "confidence") (get f "min_confidence")

unfoldable pub suppression : Value → Value → Value
suppression f sig = obj (
    prop "kind" (str "fp_suppression") (
      prop "signature" sig (
        prop "reason" (or_else (get f "fp_reason") (str "auto-suppressed by Agent-as-a-Judge"))
          end)))

-- The variables of the loop.
pub record Gate : Type 0 where
  pub store : Store
  pub suppressed : List Value
  pub confirmed : List Value
  pub newly : List Value

abbrev pub suppress : Value → Gate → Store → Gate
suppress sig g t = record {
  store = t;
  suppressed = g.suppressed ++ sig ∷ [];
  confirmed = g.confirmed;
  newly = g.newly ++ sig ∷ [];
}

abbrev pub confirm : Value → Gate → Gate
confirm f g = record {
  store = g.store;
  suppressed = g.suppressed;
  confirmed = g.confirmed ++ f ∷ [];
  newly = g.newly;
}

unfoldable pub judge_one : Value → Gate → Result Gate
judge_one f g =
    let sig = fp_signature f in
    if has g.suppressed sig
    then ok g
    else if is_marked f
    then append methodology (suppression f sig) g.store >>= (λ t. ok (suppress sig g t))
    else ok (confirm f g)

unfoldable pub judge_each : List Value → Gate → Result Gate
judge_each [] g = ok g
judge_each (f ∷ fs) g = judge_one f g >>= judge_each fs

abbrev pub opened : Store → List Value → Gate
opened s sigs = record { store = s; suppressed = sigs; confirmed = []; newly = [] }

-- With a store; `candidates` that are no array are none.
unfoldable pub judge_findings : Value → Store → Result Gate
judge_findings candidates s =
    load_fp_suppressions s >>= λ sigs. judge_each (elements candidates) (opened s sigs)

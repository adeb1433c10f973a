-- ===== src/Learning/Consolidate.antt =====
-- `consolidateMethodology` of tools/graph/self-improve.mjs: experiences of several runs become
-- knowledge. A group keeps the three texts that the source prints as its key and parses again.
-- `String(v)` and the order of `localeCompare` are parameters; times, the audit log and events are
-- left out.
pub mod Groups
pub mod RunIds
pub mod Backed
use Prim.Native.String
use red_team_agent_orchestra.Common.{
  ℕ, ◌*◌, String, Bool, true, false, ◌&&◌, not, Option, none, some, List, [], ◌∷◌, ◌++◌, keep,
  length, includes, ltb, ◌==◌, Result, ok, ◌>>=◌, if◌then◌else◌,
}
use red_team_agent_orchestra.Js.{
  Value, num, str, bool, obj, arr, of_list, end, prop, get, same, truthy, stringify,
}
use red_team_agent_orchestra.Learning.Firewall.{methodology}
use red_team_agent_orchestra.Learning.Store.{Store, load, append}
use red_team_agent_orchestra.Learning.Params.{is_kind}
use red_team_agent_orchestra.Learning.Candidate.{
  is_text, text_of, unattributed, contract_version, contract_commit,
}
use red_team_agent_orchestra.Learning.Promotion.{precedes, required_runs}

pub record Group : Type 0 where
  pub agent : String
  pub signature : String
  pub outcome : String
  pub runs : List Value

-- What the language gives: the text of a value, and the order of texts in a locale.
pub record Locale : Type 0 where
  pub shown : Value → String
  pub before : String → String → Bool

abbrev pub outcomes : List String
outcomes = "confirmed" ∷ "false-positive" ∷ "needs-review" ∷ []

-- an experience that can be learnt from
unfoldable pub is_experience : Value → Bool
is_experience e =
    is_kind "experience" e
    && same (get e "contract") (str contract_version)
    && same (get e "source_commit") (str contract_commit)
    && same (get e "executable") (bool false)
    && truthy (get e "run_id")
    && not (same (get e "run_id") (str unattributed))
    && is_text (get e "agent_id")
    && is_text (get e "signature")
    && includes outcomes (text_of (get e "outcome"))

unfoldable pub is_of : Group → Value → Bool
is_of g e =
    same (get e "agent_id") (str g.agent)
    && same (get e "signature") (str g.signature)
    && same (get e "outcome") (str g.outcome)

-- `groups.get(key).push(entry)`, in a new group if there is none
unfoldable pub add_experience : Value → List Group → List Group
add_experience e [] =
    record {
      agent = text_of (get e "agent_id");
      signature = text_of (get e "signature");
      outcome = text_of (get e "outcome");
      runs = get e "run_id" ∷ [];
    }
    ∷ []
add_experience e (g ∷ gs) =
    if is_of g e
    then record g { runs = g.runs ++ get e "run_id" ∷ [] } ∷ gs
    else g ∷ add_experience e gs

unfoldable pub groups_of : List Value → List Group → List Group
groups_of [] gs = gs
groups_of (e ∷ es) gs =
    if is_experience e then groups_of es (add_experience e gs) else groups_of es gs

-- the last entry of knowledge for a group
unfoldable pub previous_of : Group → List Value → Option Value → Option Value
previous_of g [] found = found
previous_of g (e ∷ es) found =
    if is_kind "knowledge" e && is_of g e then previous_of g es (some e) else previous_of g es found

abbrev pub is_known : List Value → Option Value → Bool
is_known runs none = false
is_known runs (some e) = stringify (get e "run_ids") == stringify (arr (of_list runs))

infixr 65 ◌<>◌
abbrev ◌<>◌ : String → String → String
s <> t = String.◌++◌ s t

unfoldable pub lesson_of : Group → String
lesson_of g =
    if g.outcome == "confirmed"
    then "Re-verify recurring confirmed pattern: " <> g.signature
    else "Review recurring outcome " <> g.outcome <> ": " <> g.signature

unfoldable pub knowledge : Group → List Value → Value
knowledge g runs = obj (
    prop "kind" (str "knowledge") (
      prop "contract" (str contract_version) (
        prop "source_commit" (str contract_commit) (
          prop "agent_id" (str g.agent) (
            prop "signature" (str g.signature) (
              prop "outcome" (str g.outcome) (
                prop "occurrences" (num (100 * length runs)) (
                  prop "run_ids" (arr (of_list runs))
                    (prop "lesson" (str (lesson_of g)) (prop "executable" (bool false) end))))))))))

-- `[...new Set(runs)]`
unfoldable pub distinct_runs : List Value → List Value
distinct_runs [] = []
distinct_runs (v ∷ vs) = v ∷ keep (λ w. not (same v w)) (distinct_runs vs)

-- `runs.sort()`, by the runs' texts
unfoldable pub insert_run : Locale → Value → List Value → List Value
insert_run locale v [] = v ∷ []
insert_run locale v (w ∷ ws) =
    if precedes (locale.shown v) (locale.shown w) then v ∷ w ∷ ws else w ∷ insert_run locale v ws

unfoldable pub sort_runs : Locale → List Value → List Value
sort_runs locale [] = []
sort_runs locale (v ∷ vs) = insert_run locale v (sort_runs locale vs)

-- What is promoted for a group, if anything is.
unfoldable pub learnt_of : Locale → ℕ → List Value → Group → Option Value
learnt_of locale least entries g =
    let runs = sort_runs locale (distinct_runs g.runs) in
    if ltb (length runs) (required_runs least)
    then none
    else if is_known runs (previous_of g entries none)
    then none
    else some (knowledge g runs)

abbrev pub record_learnt : Option Value → Store → Result Store
record_learnt none s = ok s
record_learnt (some k) s = append methodology k s

abbrev pub with_learnt : Option Value → List Value → List Value
with_learnt none ks = ks
with_learnt (some k) ks = k ∷ ks

-- The loop over the groups: the store, and the knowledge that was promoted.
unfoldable pub promote_groups :
    Locale → ℕ → List Value → List Group → Store → Result (Store × List Value)
promote_groups locale least entries [] s = ok (s, [])
promote_groups locale least entries (g ∷ gs) s =
    record_learnt (learnt_of locale least entries g) s >>= λ t.
    promote_groups locale least entries gs t >>= λ r.
    ok (r.0, with_learnt (learnt_of locale least entries g) r.1)

-- the key of a group
abbrev pub key_of : Group → String
key_of g = stringify (arr (of_list (str g.agent ∷ str g.signature ∷ str g.outcome ∷ [])))

unfoldable pub insert_group : Locale → Group → List Group → List Group
insert_group locale g [] = g ∷ []
insert_group locale g (h ∷ hs) =
    if locale.before (key_of h) (key_of g) then h ∷ insert_group locale g hs else g ∷ h ∷ hs

unfoldable pub sort_groups : Locale → List Group → List Group
sort_groups locale [] = []
sort_groups locale (g ∷ gs) = insert_group locale g (sort_groups locale gs)

-- `least` is `minDistinctRuns`, a whole number.
unfoldable pub consolidate_methodology : Locale → ℕ → Store → Result (Store × List Value)
consolidate_methodology locale least s = load methodology s >>= λ entries.
    promote_groups locale least entries (sort_groups locale (groups_of entries [])) s

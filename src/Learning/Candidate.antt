-- ===== src/Learning/Candidate.antt =====
-- Candidates and promoted tunings of tools/graph/self-improve.mjs: `AEF_LEARNING_CONTRACT`,
-- `candidateFingerprint`, `normalizeSignals`, `isValidLearningCandidate`, `isValidPromotedTuning`
-- and `createLearningCandidate`. SHA-256 is the parameter `sha256`, from a text to its digest in
-- hexadecimal. The time of a record, `ts`, is left out.
pub mod Created
use Prim.Native.Char.{code}
use Prim.Native.String
use red_team_agent_orchestra.Common.{
  ℕ, zero, suc, ◌*◌, ◌/◌, String, Bool, true, false, ◌&&◌, ◌||◌, not, Option, none, some, List, [],
  ◌∷◌, map, length, keep, includes, leb, eqb, ◌==◌, if◌then◌else◌,
}
use red_team_agent_orchestra.Js.{
  Value, num, str, obj, arr, bool, null, Props, end, prop, get, elements, truthy, same, stringify,
}
use red_team_agent_orchestra.Js.Text.{lower}
use red_team_agent_orchestra.Learning.Params.{
  normalize_learned_params, has_valid_learned_params, clamp, is_kind,
}

abbrev pub contract_version : String
contract_version = "aef-memory-loop/v1"

abbrev pub contract_commit : String
contract_commit = "48ee1ef7cd9f2cc91762f4b4c08150d954d443ec"

abbrev pub min_distinct_runs : ℕ
min_distinct_runs = 2

abbrev pub unattributed : String
unattributed = "unattributed"

-- `typeof v === 'string' && v.length > 0`
unfoldable pub is_text : Value → Bool
is_text (str s) = not (s == "")
is_text _ = false

-- the text of a value that is one
unfoldable pub text_of : Value → String
text_of (str s) = s
text_of _ = ""

-- `typeof runId === 'string' && runId && runId !== 'unattributed'`
unfoldable pub is_attributed : Value → Bool
is_attributed v = is_text v && not (text_of v == unattributed)

-- `[...new Set(texts)]`
unfoldable pub distinct : List String → List String
distinct [] = []
distinct (s ∷ ss) = s ∷ keep (λ t. not (t == s)) (distinct ss)

abbrev pub is_array : Value → Bool
is_array (arr vs) = true
is_array _ = false

-- `/[a-z]/i`, `/[a-z0-9_-]/i`
abbrev is_letter : ℕ → Bool
is_letter n = (leb 97 n && leb n 122) || (leb 65 n && leb n 90)

abbrev is_name : ℕ → Bool
is_name n = is_letter n || (leb 48 n && leb n 57) || eqb n 95 || eqb n 45

-- at most so many characters, all of them of a name
abbrev names_up_to : ℕ → String → Bool
names_up_to n String.[] = true
names_up_to zero (String.◌∷◌ c s) = false
names_up_to (suc n) (String.◌∷◌ c s) = is_name (code c) && names_up_to n s

unfoldable pub is_severity : String → Bool
is_severity String.[] = false
is_severity (String.◌∷◌ c s) = is_letter (code c) && names_up_to 31 s

abbrev truncated : ℕ → Value
truncated n = num (n / 100 * 100)

-- the first `n` properties whose name is a severity's and whose value is a number
abbrev severities_of : ℕ → Props → Props
severities_of n end = end
severities_of zero ps = end
severities_of (suc n) (prop k (num m) ps) =
    let more = severities_of n ps in
    let all_of = severities_of (suc n) ps in
    if is_severity k then prop k (truncated m) more else all_of
severities_of (suc n) (prop k v ps) = severities_of (suc n) ps

abbrev severities : Value → Props
severities (obj ps) = severities_of 16 ps
severities _ = end

abbrev count_of : Value → Value
count_of (num n) = truncated n
count_of _ = num 0

abbrev ratio_of : Value → Value
ratio_of (num n) = num (clamp n 0 100)
ratio_of _ = num 0

unfoldable pub normalize_signals : Value → Value
normalize_signals signals = obj (
    prop "count" (count_of (get signals "count")) (
      prop "withEvidence" (count_of (get signals "withEvidence")) (
        prop "evidenceRatio" (ratio_of (get signals "evidenceRatio"))
          (prop "severities" (obj (severities (get signals "severities"))) end))))

abbrev number_or_null : Value → Value
number_or_null (num n) = num n
number_or_null _ = null

-- `String(a || d)`, of a text
abbrev pub text_or_default : String → String → String
text_or_default a d = if a == "" then d else a

unfoldable pub attributed_runs : Value → List String
attributed_runs e = distinct (map text_of (keep is_attributed (elements (get e "run_ids"))))

module _ (sha256 : String → String) where
  unfoldable pub candidate_fingerprint : String → Value → String
  candidate_fingerprint agent params = sha256 (
      stringify (
        obj (
          prop "agent_id" (str agent)
            (prop "params" (normalize_learned_params (obj end) params) end))))

  unfoldable pub is_valid_learning_candidate : Value → Bool
  is_valid_learning_candidate c =
      is_kind "learning_candidate" c
      && is_text (get c "agent_id")
      && is_text (get c "run_id")
      && same (get c "executable") (bool false)
      && same (get c "contract") (str contract_version)
      && same (get c "source_commit") (str contract_commit)
      && has_valid_learned_params (get c "params")
      && same (get c "fingerprint") (
          str (
            candidate_fingerprint (text_of (get c "agent_id"))
              (normalize_learned_params (obj end) (get c "params"))))

  unfoldable pub is_valid_promoted_tuning : Value → Bool
  is_valid_promoted_tuning e =
      is_kind "param_tuning" e
      && same (get e "status") (str "promoted")
      && same (get e "contract") (str contract_version)
      && same (get e "source_commit") (str contract_commit)
      && is_text (get e "agent_id")
      && has_valid_learned_params (get e "params")
      && is_array (get e "run_ids")
      && leb min_distinct_runs (length (attributed_runs e))
      && eqb (length (attributed_runs e)) (length (elements (get e "run_ids")))
      && same (get e "fingerprint")
          (str (candidate_fingerprint (text_of (get e "agent_id")) (get e "params")))

  -- The texts are `options.runId` and `options.agentId`, empty where they are missing.
  unfoldable pub create_learning_candidate : Value → Value → String → String → Value → Value → Value
  create_learning_candidate base proposed run agent quality signals =
      let owner = text_or_default agent "orchestrator" in
      let params = normalize_learned_params base proposed in
      obj (
        prop "kind" (str "learning_candidate") (
          prop "contract" (str contract_version) (
            prop "source_commit" (str contract_commit) (
              prop "run_id" (str (text_or_default run unattributed)) (
                prop "agent_id" (str owner) (
                  prop "fingerprint" (str (candidate_fingerprint owner params)) (
                    prop "params" params (
                      prop "quality" (number_or_null quality) (
                        prop "signals" (normalize_signals signals) (
                          prop "executable" (bool false)
                            (prop "status" (str "episode") end)))))))))))

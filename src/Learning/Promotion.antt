-- ===== src/Learning/Promotion.antt =====
-- `promoteLearningCandidate` and `applyLearnedParams` of tools/graph/self-improve.mjs. The audit log
-- is left out.
pub mod Runs
pub mod Earned
pub mod Applied
pub mod Decided
pub mod Effect
use Prim.Native.Char.{code}
use Prim.Native.String
use red_team_agent_orchestra.Common.{
  ℕ, ◌+◌, ◌*◌, ◌/◌, String, Bool, true, false, ◌&&◌, ◌||◌, not, Option, none, some, List, [], ◌∷◌,
  map, length, keep, any, ltb, leb, eqb, ◌==◌, Result, ok, ◌>>=◌, if◌then◌else◌,
}
use red_team_agent_orchestra.Js.{
  Value, num, str, obj, arr, null, undefined, Props, end, prop, get, of_list, read, write, or_else,
  spread, same, stringify, nil,
}
use red_team_agent_orchestra.Learning.Firewall.{methodology}
use red_team_agent_orchestra.Learning.Store.{Store, load, append}
use red_team_agent_orchestra.Learning.Params.{normalize_learned_params, is_kind, numbers, sum}
use red_team_agent_orchestra.Learning.Candidate.{
  is_valid_learning_candidate, is_valid_promoted_tuning, is_attributed, text_of, distinct,
  contract_version, contract_commit, min_distinct_runs,
}

-- The order of `sort()`, by the characters' numbers.
unfoldable pub precedes : String → String → Bool
precedes String.[] t = true
precedes (String.◌∷◌ c s) String.[] = false
precedes (String.◌∷◌ c s) (String.◌∷◌ d t) =
    ltb (code c) (code d) || (eqb (code c) (code d) && precedes s t)

unfoldable pub insort : String → List String → List String
insort s [] = s ∷ []
insort s (t ∷ ts) = if precedes s t then s ∷ t ∷ ts else t ∷ insort s ts

unfoldable pub sort : List String → List String
sort [] = []
sort (s ∷ ss) = insort s (sort ss)

abbrev pub texts : List String → Value
texts ss = arr (of_list (map str ss))

-- `round2` of the average of hundredths
abbrev pub average : List ℕ → Value
average [] = null
average (n ∷ ns) = num ((2 * sum (n ∷ ns) + length (n ∷ ns)) / (2 * length (n ∷ ns)))

-- `peers.map((entry) => entry[key])`
abbrev pub pluck : String → List Value → List Value
pluck key [] = []
pluck key (e ∷ es) = get e key ∷ pluck key es

-- What a promotion answers, and the store it leaves.
pub record Promotion : Type 0 where
  pub promoted : Bool
  pub reason : String
  pub run_ids : List String
  pub params : Value
  pub store : Store

abbrev pub refused : String → List String → Store → Promotion
refused why runs s = record {
  promoted = false;
  reason = why;
  run_ids = runs;
  params = undefined;
  store = s;
}

-- The tuning that a promotion writes.
unfoldable pub tuning : Value → List String → Value → Value
tuning c runs quality = obj (
    prop "kind" (str "param_tuning") (
      prop "contract" (str contract_version) (
        prop "source_commit" (str contract_commit) (
          prop "agent_id" (get c "agent_id") (
            prop "fingerprint" (get c "fingerprint") (
              prop "params" (normalize_learned_params (obj end) (get c "params")) (
                prop "quality" quality
                  (prop "run_ids" (texts runs) (prop "status" (str "promoted") end)))))))))

abbrev pub latest : List Value → Option Value
latest [] = none
latest (e ∷ []) = some e
latest (e ∷ e' ∷ es) = latest (e' ∷ es)

-- `{ ...baseParams, ...params }`
unfoldable pub overlay : Props → Props → Props
overlay base end = base
overlay base (prop k v ps) = overlay (write base k v) ps

abbrev pub merge_latest : Value → Option Value → Value
merge_latest base none = obj (spread base)
merge_latest base (some t) =
    obj (overlay (spread base) (spread (normalize_learned_params base (get t "params"))))

unfoldable pub runs_of : List Value → List String
runs_of peers = sort (distinct (map text_of (pluck "run_id" peers)))

abbrev pub required_runs : ℕ → ℕ
required_runs least = if leb min_distinct_runs least then least else min_distinct_runs

module _ (sha256 : String → String) where
  unfoldable pub is_peer : Value → Value → Bool
  is_peer c e =
      is_valid_learning_candidate sha256 e
      && same (get e "fingerprint") (get c "fingerprint")
      && same (get e "agent_id") (get c "agent_id")
      && is_attributed (get e "run_id")

  unfoldable pub peers_of : Value → List Value → List Value
  peers_of c entries = keep (is_peer c) entries

  unfoldable pub is_already : Value → List String → Value → Bool
  is_already c runs e =
      is_valid_promoted_tuning sha256 e
      && same (get e "fingerprint") (get c "fingerprint")
      && stringify (or_else (get e "run_ids") (arr nil)) == stringify (texts runs)

  -- The write at the end of a promotion.
  unfoldable pub promote : Value → List Value → List String → Store → Result Promotion
  promote c peers runs s =
      append methodology (tuning c runs (average (numbers (pluck "quality" peers)))) s >>= λ t.
      ok (record {
        promoted = true;
        reason = "";
        run_ids = runs;
        params = normalize_learned_params (obj end) (get c "params");
        store = t;
      })

  -- What is decided once the entries are there.
  unfoldable pub weigh : Value → ℕ → Store → List Value → Result Promotion
  weigh c least s entries =
      let peers = peers_of c entries in
      let runs = runs_of peers in
      if ltb (length runs) (required_runs least)
      then ok (refused "insufficient-independent-evidence" runs s)
      else if any (is_already c runs) entries
      then ok (refused "already-promoted" runs s)
      else promote c peers runs s

  -- `least` is `minDistinctRuns`, a whole number.
  unfoldable pub promote_learning_candidate : Value → ℕ → Store → Result Promotion
  promote_learning_candidate c least s =
      if not (is_kind "learning_candidate" c)
      then ok (refused "invalid-candidate" [] s)
      else if not (is_valid_learning_candidate sha256 c)
      then ok (refused "safety-or-schema-gate" [] s)
      else load methodology s >>= weigh c least s

  unfoldable pub apply_learned_params : Value → Store → Result Value
  apply_learned_params base s = load methodology s >>= λ entries.
      ok (merge_latest base (latest (keep (is_valid_promoted_tuning sha256) entries)))

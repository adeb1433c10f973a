-- ===== src/Learning/Params.antt =====
-- The tuned parameters of tools/graph/self-improve.mjs: `PARAM_BOUNDS`, `clamp`,
-- `normalizeLearnedParams`, `hasValidLearnedParams` and `tuneParams`. Numbers are in hundredths, so
-- `round2` of a clamped number is that number.
pub mod Bounds
use red_team_agent_orchestra.Common.{
  ℕ, ◌+◌, ◌-◌, ◌*◌, ◌/◌, ◌%◌, String, Bool, true, false, ◌&&◌, ◌||◌, Option, none, some, List, [],
  ◌∷◌, length, keep, ltb, leb, eqb, ◌==◌, if◌then◌else◌,
}
use red_team_agent_orchestra.Js.{
  Value, num, str, obj, Props, end, prop, get, read, write, spread, same, stringify,
}
use red_team_agent_orchestra.Graph.Routing.{num_or}

abbrev biggest : ℕ → ℕ → ℕ
biggest a b = if leb a b then b else a

abbrev smallest : ℕ → ℕ → ℕ
smallest a b = if leb a b then a else b

-- `clamp(v, { min, max })`
unfoldable pub clamp : ℕ → ℕ → ℕ → ℕ
clamp v lo hi = biggest lo (smallest hi v)

abbrev pub revisions_min : ℕ
revisions_min = 0

abbrev pub revisions_max : ℕ
revisions_max = 400

abbrev pub threshold_min : ℕ
threshold_min = 50

abbrev pub threshold_max : ℕ
threshold_max = 95

abbrev pub params_of : ℕ → ℕ → Value
params_of m q = obj (prop "max_revisions" (num m) (prop "quality_threshold" (num q) end))

unfoldable pub normalize_learned_params : Value → Value → Value
normalize_learned_params base proposed =
    params_of
      (clamp (num_or (num_or 200 (get base "max_revisions")) (get proposed "max_revisions"))
        revisions_min revisions_max)
      (clamp (num_or (num_or 85 (get base "quality_threshold")) (get proposed "quality_threshold"))
        threshold_min threshold_max)

-- `Object.keys(params).sort()` are the two names
unfoldable pub has_bounds_keys : Props → Bool
has_bounds_keys (prop a v (prop b w end)) =
    (a == "max_revisions" && b == "quality_threshold")
    || (a == "quality_threshold" && b == "max_revisions")
has_bounds_keys _ = false

-- `lo <= v && v <= hi`. It is false of a value that is no number: what JavaScript makes of such a
-- value does not matter, since the last test of `has_valid_learned_params` refuses it.
abbrev pub within : ℕ → ℕ → Value → Bool
within lo hi (num n) = leb lo n && leb n hi
within lo hi _ = false

-- `Number.isInteger`
abbrev pub is_integer : Value → Bool
is_integer (num n) = eqb (n % 100) 0
is_integer _ = false

unfoldable pub has_valid_learned_params : Value → Bool
has_valid_learned_params (obj ps) =
    has_bounds_keys ps
    && within revisions_min revisions_max (read ps "max_revisions")
    && is_integer (read ps "max_revisions")
    && within threshold_min threshold_max (read ps "quality_threshold")
    && stringify (normalize_learned_params (obj end) (obj ps)) == stringify (obj ps)
has_valid_learned_params _ = false

-- the last `n` of a list, `list.slice(-n)`
abbrev last_of : {A : Type 0} → ℕ → List A → List A
last_of n [] = []
last_of n (x ∷ xs) = if leb (length (x ∷ xs)) n then x ∷ xs else last_of n xs

abbrev pub numbers : List Value → List ℕ
numbers [] = []
numbers (num n ∷ vs) = n ∷ numbers vs
numbers (_ ∷ vs) = numbers vs

abbrev pub sum : List ℕ → ℕ
sum [] = 0
sum (n ∷ ns) = n + sum ns

-- `e && e.kind === kind`
unfoldable pub is_kind : String → Value → Bool
is_kind kind e = same (get e "kind") (str kind)

abbrev qualities : List Value → List Value
qualities [] = []
qualities (e ∷ es) = get e "quality" ∷ qualities es

-- The qualities of the last five tunings of the store's entries.
unfoldable pub recent : List Value → List ℕ
recent entries = numbers (qualities (last_of 5 (keep (is_kind "param_tuning") entries)))

-- The threshold, after the average of the recent qualities; `avg > 0.9` is `sum > 90 * count`.
unfoldable pub tuned_threshold : ℕ → List ℕ → ℕ
tuned_threshold q qs =
    if leb 3 (length qs)
    then (if ltb (90 * length qs) (sum qs)
        then clamp (q + 2) threshold_min threshold_max
        else if ltb (sum qs) (60 * length qs)
        then clamp (q - 5) threshold_min threshold_max
        else q)
    else q

unfoldable pub tuned_revisions : ℕ → ℕ → ℕ
tuned_revisions m ratio = if ltb ratio 60 then clamp (m + 100) revisions_min revisions_max else m

-- `entries` are those of the store's methodology namespace, none if there is no store.
unfoldable pub tune_params : Value → Value → List Value → Value
tune_params base signals entries = obj (
    write
      (write (spread base) "max_revisions" (
        num (
          clamp
            (tuned_revisions (num_or 200 (get base "max_revisions"))
              (num_or 100 (get signals "evidenceRatio")))
            revisions_min revisions_max)))
      "quality_threshold"
      (num (
        clamp (tuned_threshold (num_or 85 (get base "quality_threshold")) (recent entries))
          threshold_min threshold_max)))

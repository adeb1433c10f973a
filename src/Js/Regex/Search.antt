-- ===== src/Js/Regex/Search.antt =====
-- `test`, `exec`, `match`, `replace` and `split` with a pattern. The patterns that are used again
-- and again (`g`) match at least one character.
use Prim.Native.Char.{code}
use Prim.Native.String
use red_team_agent_orchestra.Common.{
  ℕ, zero, suc, ◌-◌, String, Bool, Option, none, some, List, [], ◌∷◌, is_some,
}
use red_team_agent_orchestra.Js.Regex.{Pattern, Spot, Match, match_at, find_group, text_or_empty}

abbrev spot : Option ℕ → String → Spot
spot prev s = record { prev = prev; place = 0; rest = s }

-- the first match in a text, given the character before it
unfoldable pub first_from : Pattern → Option ℕ → String → Option Match
first_from p prev String.[] = match_at p (spot prev "")
first_from p prev (String.◌∷◌ c s) = elim (match_at p (spot prev (String.◌∷◌ c s))) [
  | some m ↦ some m
  | none ↦ first_from p (some (code c)) s
]

-- `p.exec(s)`
unfoldable pub exec : Pattern → String → Option Match
exec p s = first_from p none s

-- `p.test(s)`
unfoldable pub test : Pattern → String → Bool
test p s = is_some (exec p s)

-- `m[n]`, or "" if the group took no part
unfoldable pub captured : ℕ → Match → String
captured n m = text_or_empty (find_group n m.groups)

-- `s.replace(p, x)`, of the first match
unfoldable pub replace_from : Pattern → String → Option ℕ → String → String
replace_from p x prev String.[] = elim (match_at p (spot prev "")) [ some m ↦ x | none ↦ "" ]
replace_from p x prev (String.◌∷◌ c s) = elim (match_at p (spot prev (String.◌∷◌ c s))) [
  | some m ↦ String.◌++◌ x m.stop.rest
  | none ↦ String.◌∷◌ c (replace_from p x (some (code c)) s)
]

unfoldable pub replace : Pattern → String → String → String
replace p x s = replace_from p x none s

-- how many characters a match takes
abbrev pub taken : Option Match → ℕ
taken none = 0
taken (some m) = m.stop.place

abbrev pub glue : String → List String → List String
glue c [] = c ∷ []
glue c (p ∷ ps) = String.◌++◌ c p ∷ ps

-- `s.split(p)`; `skip` characters belong to a separator
unfoldable pub split_from : Pattern → ℕ → Option ℕ → String → List String
split_from p skip prev String.[] = "" ∷ []
split_from p (suc skip) prev (String.◌∷◌ c s) = split_from p skip (some (code c)) s
split_from p zero prev (String.◌∷◌ c s) = elim (taken (match_at p (spot prev (String.◌∷◌ c s)))) [
  | zero ↦ glue (String.◌∷◌ c String.[]) (split_from p zero (some (code c)) s)
  | suc n ↦ "" ∷ split_from p n (some (code c)) s
]

unfoldable pub split_by : Pattern → String → List String
split_by p s = split_from p zero none s

abbrev pub listed : Option Match → List Match → List Match
listed none ms = ms
listed (some m) ms = m ∷ ms

-- `while ((m = p.exec(s)) !== null)`, with the flag `g`
unfoldable pub all_from : Pattern → ℕ → Option ℕ → String → List Match
all_from p skip prev String.[] = []
all_from p (suc skip) prev (String.◌∷◌ c s) = all_from p skip (some (code c)) s
all_from p zero prev (String.◌∷◌ c s) =
    let m = match_at p (spot prev (String.◌∷◌ c s)) in
    listed m (all_from p (taken m - 1) (some (code c)) s)

unfoldable pub all_matches : Pattern → String → List Match
all_matches p s = all_from p zero none s

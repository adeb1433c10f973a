-- ===== src/Guards/Invocation.antt =====
-- The words of a segment from the program it runs, past wrappers like `timeout 30` and `sudo`, and
-- the flags among them: what guardrails/core/cluster-core.mjs and guardrails/core/egress-core.mjs
-- have in the same words.
use Prim.Native.Char.{code}
use red_team_agent_orchestra.Common.{
  ℕ, zero, suc, String, false, ◌||◌, Option, none, some, List, [], ◌∷◌, keep, includes, eqb, ◌==◌,
  if◌then◌else◌,
}
use red_team_agent_orchestra.Js.Text.{is_space, trim, lower, begins_with}
use red_team_agent_orchestra.Js.Regex.{
  Pattern, one, ◌▹◌, many, opening, closing, is_word, is_alpha, is_digit, some_of, maybe, exactly,
  among, Class,
}
use red_team_agent_orchestra.Js.Regex.Search.{test, replace, split_by}
use red_team_agent_orchestra.Guards.Commands.{gap, normalize_exe, non_empty}
use red_team_agent_orchestra.Guards.Azure.{not_space}

-- WRAPPERS
abbrev wrappers : List String
wrappers =
    "env" ∷ "time" ∷ "nice" ∷ "ionice" ∷ "nohup" ∷ "setsid" ∷ "stdbuf" ∷ "unbuffer" ∷ "timeout"
    ∷ "watch" ∷ "sudo" ∷ "doas" ∷ "xargs" ∷ "proxychains" ∷ "proxychains4" ∷ []

-- The source's `norm`.
unfoldable pub norm : String → String
norm token = lower (normalize_exe token)

abbrev starts_name : Class
starts_name c = is_alpha c || eqb c 95

-- `[A-Za-z_][\w]*=`
abbrev assigned : Pattern
assigned = one starts_name ▹ many false (one is_word) ▹ exactly "="

-- `/^\d+(\.\d+)?[smhd]?$/i`
abbrev duration : Pattern
duration =
    opening
    ▹ some_of is_digit
    ▹ maybe (exactly "." ▹ some_of is_digit)
    ▹ maybe (one (among "smhdSMHD"))
    ▹ closing

unfoldable pub drop_flags : List String → List String
drop_flags [] = []
drop_flags (t ∷ ts) = if begins_with t "-" then drop_flags ts else t ∷ ts

unfoldable pub drop_duration : List String → List String
drop_duration [] = []
drop_duration (t ∷ ts) = if test duration t then ts else t ∷ ts

unfoldable pub drop_assignments : List String → List String
drop_assignments [] = []
drop_assignments (t ∷ ts) =
    if test (opening ▹ assigned ▹ many false (one not_space) ▹ closing) t
    then drop_assignments ts
    else t ∷ ts

-- what is left after a wrapper
abbrev past_wrapper : String → List String → List String
past_wrapper w ts =
    let rest = drop_duration (drop_flags ts) in
    if w == "env" || w == "sudo" || w == "doas" then drop_assignments rest else rest

-- At most as many wrappers as `guard` says are passed.
unfoldable pub past_wrappers : ℕ → List String → List String
past_wrappers zero ts = ts
past_wrappers (suc guard) [] = []
past_wrappers (suc guard) (t ∷ ts) =
    if includes wrappers (norm t) then past_wrappers guard (past_wrapper (norm t) ts) else t ∷ ts

-- A segment of white space only has no words.
unfoldable pub invoked : String → List String
invoked segment = past_wrappers 6 (
    keep non_empty (
      split_by gap (
        replace
          (opening
            ▹ assigned
            ▹ some_of not_space
            ▹ gap
            ▹ many false (assigned ▹ some_of not_space ▹ gap))
          "" (replace (opening ▹ some_of (λ c. among "&" c || is_space c)) "" (trim segment)))))

-- What is before the first `=`, and what is after it.
unfoldable pub before_equals : String → String
before_equals String.[] = ""
before_equals (String.◌∷◌ c s) = if eqb (code c) 61 then "" else String.◌∷◌ c (before_equals s)

unfoldable pub after_equals : String → Option String
after_equals String.[] = none
after_equals (String.◌∷◌ c s) = if eqb (code c) 61 then some s else after_equals s

unfoldable pub flag_name : String → String
flag_name t = lower (replace (opening ▹ exactly "-" ▹ maybe (exactly "-")) "" (before_equals t))

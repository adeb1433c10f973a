-- ===== src/Guards/Azure/Rest.antt =====
-- The HTTP method of `az rest` and of `Invoke-AzRestMethod`: `cleanVal`, `azRestMethod`,
-- `hasBodyFlag` and `iarmMethod` of guardrails/core/guardrails-core.mjs.
use red_team_agent_orchestra.Common.{
  String, Bool, false, ◌||◌, Option, none, some, List, [], ◌∷◌, any, ◌==◌, if◌then◌else◌,
}
use red_team_agent_orchestra.Js.Text.{begins_with, upper}
use red_team_agent_orchestra.Js.Regex.{
  Pattern, one, ◌▹◌, either, many, group, opening, closing, is_alpha, some_of, maybe, exactly, text,
  among, dot, Match, find_group,
}
use red_team_agent_orchestra.Js.Regex.Search.{exec, test, captured}
use red_team_agent_orchestra.Guards.Commands.{unquote, head_or_empty}
use red_team_agent_orchestra.Guards.Azure.{not_space, tail_or_empty}

-- A value that is not there is "".
unfoldable pub clean_val : String → String
clean_val v =
    let s = unquote v in
    if v == ""
    then "UNSET"
    else if test (opening ▹ some_of is_alpha ▹ closing) s
    then upper s
    else "DYNAMIC"

-- `/^(?:--method|-m)(?:=(.*))?$/i`
abbrev method_flag : Pattern
method_flag =
    opening
    ▹ either (text "--method") (text "-m")
    ▹ maybe (exactly "=" ▹ group 1 (many false dot))
    ▹ closing

-- `/^-m(.+)$/i`
abbrev attached : Pattern
attached = opening ▹ text "-m" ▹ group 1 (dot ▹ many false dot) ▹ closing

abbrev value_or : Option String → String → String
value_or none next = next
value_or (some v) next = v

abbrev attached_method : Option Match → Option String
attached_method none = none
attached_method (some m) =
    if begins_with (captured 1 m) "-" then none else some (clean_val (captured 1 m))

-- what one word says of the method, given the word after it
unfoldable pub method_at : String → String → Option Match → Option String
method_at t next none = attached_method (exec attached t)
method_at t next (some m) = some (clean_val (value_or (find_group 1 m.groups) next))

-- The words after the first.
unfoldable pub rest_method : List String → Option String
rest_method [] = none
rest_method (t ∷ ts) = elim (method_at t (head_or_empty ts) (exec method_flag t)) [
  | some method ↦ some method
  | none ↦ rest_method ts
]

unfoldable pub az_rest_method : List String → Option String
az_rest_method tokens = rest_method (tail_or_empty tokens)

-- `([=@].*)?$`
abbrev body_value : Pattern
body_value = maybe (one (among "=@") ▹ many false dot) ▹ closing

abbrev is_body_flag : String → Bool
is_body_flag t =
    test (opening ▹ text "--body" ▹ body_value) t
    || test (opening ▹ text "-b" ▹ body_value) t
    || test (opening ▹ exactly "-b" ▹ one not_space) t

unfoldable pub has_body_flag : List String → Bool
has_body_flag tokens = any is_body_flag (tail_or_empty tokens)

-- `/^-M(?:e(?:t(?:h(?:o(?:d)?)?)?)?)?(?:[:=](.*))?$/i`
abbrev method_parameter : Pattern
method_parameter =
    opening
    ▹ text "-M"
    ▹ maybe (text "e" ▹ maybe (text "t" ▹ maybe (text "h" ▹ maybe (text "o" ▹ maybe (text "d")))))
    ▹ maybe (one (among ":=") ▹ group 1 (many false dot))
    ▹ closing

abbrev non_empty_or : String → String → String
non_empty_or v next = if v == "" then next else v

unfoldable pub parameter_method : List String → Option String
parameter_method [] = none
parameter_method (t ∷ ts) = elim (exec method_parameter t) [
  | some m ↦ some (clean_val (non_empty_or (captured 1 m) (head_or_empty ts)))
  | none ↦ parameter_method ts
]

unfoldable pub iarm_method : List String → Option String
iarm_method tokens = parameter_method (tail_or_empty tokens)

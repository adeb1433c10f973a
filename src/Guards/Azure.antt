-- ===== src/Guards/Azure.antt =====
-- Which Azure commands only read: guardrails/core/guardrails-core.mjs, with `violation` on one
-- segment and `evaluate` on a tool call.
pub mod Rest
pub mod Sound
pub mod Verdict
use Prim.Native.String
use red_team_agent_orchestra.Common.{
  ℕ, zero, suc, ◌-◌, String, Bool, true, false, ◌&&◌, ◌||◌, not, Option, none, some, List, [], ◌∷◌,
  any, includes, ◌==◌, if◌then◌else◌,
}
use red_team_agent_orchestra.Js.Text.{is_space, begins_with, lower, join}
use red_team_agent_orchestra.Js.Regex.{
  Pattern, one, ◌▹◌, either, many, opening, closing, edge, Class, is_word, is_alpha, is_digit,
  some_of, maybe, exactly, text, one_of, among,
}
use red_team_agent_orchestra.Js.Regex.Search.{test, replace, split_by}
use red_team_agent_orchestra.Guards.Commands.{gap, normalize_exe, head_or_empty}

-- `\S`
abbrev pub not_space : Class
not_space c = not (is_space c)

abbrev ends_or_dash : Pattern
ends_or_dash = either (exactly "-") closing

-- AZ_READ_OP
abbrev pub az_read_op : Pattern
az_read_op =
    opening
    ▹ one_of (
        "list" ∷ "show" ∷ "get" ∷ "describe" ∷ "check" ∷ "exists" ∷ "history" ∷ "versions"
        ∷ "version" ∷ "locations" ∷ "wait" ∷ "search" ∷ "query" ∷ "download" ∷ "validate" ∷ "export"
        ∷ "preview" ∷ [])
    ▹ ends_or_dash

abbrev space_or_end : Pattern
space_or_end = either (one is_space) closing

abbrev under : String → List String → Pattern
under command subs = text command ▹ gap ▹ one_of subs

-- AZ_BENIGN
abbrev pub az_benign : Pattern
az_benign =
    opening
    ▹ text "az"
    ▹ maybe (text "d")
    ▹ gap
    ▹ either
        (under "account"
          ("show" ∷ "list" ∷ "set" ∷ "get-access-token" ∷ "clear" ∷ "list-locations" ∷ []))
        (either (one_of ("login" ∷ "logout" ∷ "logoff" ∷ [])) (
          either (text "config" ▹ gap ▹ text "get" ▹ space_or_end) (
            either (under "cloud" ("show" ∷ "list" ∷ "set" ∷ [])) (
              either (under "extension" ("add" ∷ "list" ∷ "show" ∷ "update" ∷ [])) (
                either (under "graph" ("query" ∷ [])) (
                  either (text "version")
                    (either (text "upgrade" ▹ space_or_end) (text "find"))))))))
    ▹ edge

-- PS_READ_VERBS
abbrev pub ps_read_verbs : List String
ps_read_verbs = "get" ∷ "find" ∷ "search" ∷ "test" ∷ "measure" ∷ "resolve" ∷ "export" ∷ []

-- PS_BENIGN
abbrev pub ps_benign : Pattern
ps_benign =
    opening
    ▹ one_of (
        "Connect-AzAccount" ∷ "Disconnect-AzAccount" ∷ "Set-AzContext" ∷ "Select-AzSubscription"
        ∷ "Clear-AzContext" ∷ "Save-AzContext" ∷ "Import-AzContext" ∷ "Enable-AzContextAutosave"
        ∷ "Disable-AzContextAutosave" ∷ "Set-AzDefault" ∷ "Get-AzContext" ∷ "Get-AzSubscription"
        ∷ [])
    ▹ closing

abbrev wrappers : List String
wrappers =
    "env" ∷ "time" ∷ "nice" ∷ "nohup" ∷ "setsid" ∷ "stdbuf" ∷ "xargs" ∷ "timeout" ∷ "watch" ∷ []

-- `/^[A-Za-z]+-Az[A-Za-z0-9]/`
abbrev cmdlet : Pattern
cmdlet = opening ▹ some_of is_alpha ▹ exactly "-Az" ▹ one (λ c. is_alpha c || is_digit c)

abbrev is_az : String → Bool
is_az name = name == "az" || name == "azd"

unfoldable pub is_az_token : String → Bool
is_az_token token = let n = normalize_exe token in is_az n || test cmdlet n

abbrev pub words : String → List String
words s = split_by gap s

-- the words from the first one that is an Azure command, if it is one of these
unfoldable pub from_az : List String → Option (List String)
from_az [] = none
from_az (t ∷ ts) = if is_az_token t then some (t ∷ ts) else from_az ts

abbrev joined_or : String → Option (List String) → String
joined_or s none = s
joined_or s (some ts) = join " " ts

-- The first word is a wrapper then; where it is an Azure command itself, the text stays.
abbrev unwrapped : String → List String → String
unwrapped s [] = s
unwrapped s (t ∷ ts) =
    if includes wrappers (lower (normalize_exe t)) && not (is_az_token t)
    then joined_or s (from_az ts)
    else s

-- `VAR=value `
abbrev assignment : Pattern
assignment = some_of is_word ▹ exactly "=" ▹ some_of not_space ▹ gap

unfoldable pub strip : String → String
strip segment =
    let s = replace (opening ▹ exactly "sudo" ▹ gap) "" (
      replace (opening ▹ many false assignment) ""
        (replace (opening ▹ some_of (λ c. among "&" c || is_space c)) "" segment)) in
    unwrapped s (words s)

unfoldable pub first_token : String → String
first_token segment = normalize_exe (head_or_empty (words (strip segment)))

unfoldable pub is_az_invocation : String → Bool
is_az_invocation segment = is_az (first_token segment)

unfoldable pub is_az_pwsh_invocation : String → Bool
is_az_pwsh_invocation segment = test cmdlet (first_token segment)

-- AZ_GLOBAL_BOOL and AZ_GLOBAL_VALUE
abbrev az_global_bool : List String
az_global_bool = "--debug" ∷ "--verbose" ∷ "--only-show-errors" ∷ "-h" ∷ "--help" ∷ []

abbrev az_global_value : List String
az_global_value = "-o" ∷ "--output" ∷ "--query" ∷ "--subscription" ∷ []

abbrev pub tail_or_empty : List String → List String
tail_or_empty [] = []
tail_or_empty (t ∷ ts) = ts

-- What one flag does to the scan, given whether a word of the path was seen.
pub data Flag : Type 0 where
  skip_one skip_two stop : Flag

abbrev flag_of : Bool → String → Flag
flag_of seen t =
    let key = lower (head_or_empty (split_by (exactly "=") t)) in
    if seen
    then stop
    else if includes az_global_value key
    then (if test (exactly "=") t then skip_one else skip_two)
    else if includes az_global_bool key
    then skip_one
    else stop

-- `skip` words belong to a flag. What is kept of `path` is its last word, "" if it has none.
unfoldable pub last_of_path : Bool → String → List String → String
last_of_path skip last [] = last
last_of_path true last (t ∷ ts) = last_of_path false last ts
last_of_path false last (t ∷ ts) = elim (begins_with t "-") [
  | false ↦ last_of_path false (lower t) ts
  | true ↦ elim (flag_of (not (last == "")) t) [
    | skip_one ↦ last_of_path false last ts
    | skip_two ↦ last_of_path true last ts
    | stop ↦ last
  ]
]

unfoldable pub operation_token : String → String
operation_token segment = last_of_path false "" (tail_or_empty (words (strip segment)))

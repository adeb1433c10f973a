-- ===== src/Guards/Commands.antt =====
-- Commands, and the texts and segments in them: `splitSegments`, `normalizeExe`, `extractInner`,
-- `gatherCommandTexts`, `extractCommand` and `engagementMode` of guardrails/core/guardrails-core.mjs.
pub mod Gathered
use Prim.Native.Char.{code}
use Prim.Native.String
use red_team_agent_orchestra.Common.{
  ℕ, zero, suc, String, Bool, true, false, ◌&&◌, ◌||◌, not, Option, none, some, List, [], ◌∷◌, ◌++◌,
  map, keep, includes, eqb, ◌==◌, if◌then◌else◌,
}
use red_team_agent_orchestra.Js.{Value, undefined, null, str, obj, get, truthy}
use red_team_agent_orchestra.Js.Text.{trim, is_space, begins_with}
use red_team_agent_orchestra.Js.Regex.{
  Pattern, nothing, one, ◌▹◌, either, many, group, same_as, unless, opening, closing, line_opening,
  line_closing, edge, Match, Class, is_word, is_alpha, is_digit, some_of, maybe, exactly, text,
  one_of, among, dot, any_char, spaces, Groups,
}
use red_team_agent_orchestra.Js.Regex.Search.{exec, test, captured, replace, split_by, all_matches}
use red_team_agent_orchestra.Guards.Host.{Host}

abbrev pub non_empty : String → Bool
non_empty s = not (s == "")

-- `\s+`
abbrev pub gap : Pattern
gap = some_of is_space

abbrev separator : Pattern
separator = either (exactly "&&") (either (exactly "||") (one (among "\n;|&(){}`")))

unfoldable pub split_segments : String → List String
split_segments command = keep non_empty (map trim (split_by separator command))

abbrev pub is_quote : Class
is_quote = among "'\""

-- `.replace(/^['"]+/, "").replace(/['"]+$/, "")`
unfoldable pub unquote : String → String
unquote s = replace (some_of is_quote ▹ closing) "" (replace (opening ▹ some_of is_quote) "" s)

unfoldable pub normalize_exe : String → String
normalize_exe token =
    replace (exactly "." ▹ one_of ("exe" ∷ "cmd" ∷ "bat" ∷ "ps1" ∷ "com" ∷ []) ▹ closing) ""
      (replace (opening ▹ many false dot ▹ one (among "\\/")) "" (unquote token))

abbrev pub head_or_empty : List String → String
head_or_empty [] = ""
head_or_empty (s ∷ _) = s

-- Shells, up to the flag that a command follows.
abbrev shell : Pattern
shell =
    edge
    ▹ one_of (
        "pwsh" ∷ "powershell" ∷ "pwsh.exe" ∷ "powershell.exe" ∷ "bash" ∷ "sh" ∷ "zsh" ∷ "cmd"
        ∷ "cmd.exe" ∷ [])
    ▹ edge
    ▹ many true (one (λ c. not (eqb c 10)))
    ▹ one_of ("-Command" ∷ "-Commands" ∷ "-c" ∷ "/c" ∷ "/k" ∷ [])
    ▹ gap

-- `(['"])([\s\S]*?)\1`, as the groups `n` and `n + 1`
abbrev quoted : ℕ → Pattern
quoted n = group n (one is_quote) ▹ group (suc n) (many true any_char) ▹ same_as n

abbrev start_process : Pattern
start_process =
    edge
    ▹ text "Start-Process"
    ▹ edge
    ▹ gap
    ▹ group 1 (maybe (one is_quote))
    ▹ group 2 (some_of (λ c. is_word c || eqb c 46 || eqb c 45))
    ▹ same_as 1
    ▹ maybe (many true (one (λ c. not (eqb c 10))) ▹ text "-ArgumentList" ▹ gap ▹ quoted 3)

abbrev encoded : Pattern
encoded =
    text "-EncodedCommand"
    ▹ gap
    ▹ group 1 (some_of (λ c. is_alpha c || is_digit c || among "+/=" c))

abbrev groups_at : ℕ → List Match → List String
groups_at n ms = map (captured n) ms

unfoldable pub extract_inner : Host → String → List String
extract_inner host command =
    groups_at 2 (all_matches (shell ▹ quoted 1) command)
    ++ groups_at 1 (
        all_matches (shell ▹ unless (one is_quote) ▹ group 1 (dot ▹ many false dot) ▹ line_closing)
          command)
    ++ groups_at 2 (
        all_matches (edge ▹ one_of ("Invoke-Expression" ∷ "iex" ∷ []) ▹ edge ▹ gap ▹ quoted 1)
          command)
    ++ map (λ m. trim (String.◌++◌ (captured 2 m) (String.◌++◌ " " (captured 4 m))))
        (all_matches start_process command)
    ++ map (λ m. host.decode (captured 1 m)) (all_matches encoded command)

unfoldable pub visit_all :
    (String → List String → List String) → List String → List String → List String
visit_all visit [] out = out
visit_all visit (s ∷ ss) out = visit_all visit ss (visit s out)

unfoldable pub reversed : List String → List String → List String
reversed [] out = out
reversed (s ∷ ss) out = reversed ss (s ∷ out)

-- The stack of the source, popped from its end: what is within a command comes before the rest. A
-- command that was seen is one of `out`.
unfoldable pub visit : Host → ℕ → String → List String → List String
visit host zero command out =
    if command == "" || includes out command then out else out ++ command ∷ []
visit host (suc depth) command out =
    if command == "" || includes out command
    then out
    else visit_all (visit host depth) (reversed (extract_inner host command) [])
        (out ++ command ∷ [])

unfoldable pub gather_command_texts : Host → String → List String
gather_command_texts host command = visit host 3 command []

abbrev punctuation : Class
punctuation = among "._-"

-- EXEC_TOOL
abbrev exec_tool : Pattern
exec_tool =
    either opening (one punctuation)
    ▹ one_of (
        "exec" ∷ "execute" ∷ "shell" ∷ "bash" ∷ "sh" ∷ "zsh" ∷ "pwsh" ∷ "powershell" ∷ "cmd"
        ∷ "command" ∷ "run" ∷ "terminal" ∷ "process" ∷ "spawn" ∷ [])
    ▹ either (one punctuation) closing

-- `a ?? b`
abbrev or_nullish : Value → Value → Value
or_nullish undefined b = b
or_nullish null b = b
or_nullish a b = a

abbrev input_of : Bool → Value → String
input_of true (str s) = s
input_of _ _ = ""

abbrev direct_or : Value → Bool → Value → String
direct_or (str s) exec_like input = s
direct_or _ exec_like input = input_of exec_like input

abbrev command_in : Value → Bool → String
command_in (str s) exec_like = if exec_like then s else ""
command_in args exec_like =
    direct_or (or_nullish (get args "command") (or_nullish (get args "script") (get args "cmd")))
      exec_like (get args "input")

unfoldable pub extract_command : Value → String → String
extract_command args tool =
    if truthy args then command_in args (tool == "" || test exec_tool tool) else ""

abbrev read_only : String
read_only = "read-only-assessment"

-- `/^\s*mode:\s*['"]?([\w-]+)['"]?/m`
abbrev mode_line : Pattern
mode_line =
    line_opening
    ▹ spaces
    ▹ exactly "mode:"
    ▹ spaces
    ▹ maybe (one is_quote)
    ▹ group 1 (some_of (λ c. is_word c || eqb c 45))
    ▹ maybe (one is_quote)

abbrev mode_or : Option Match → String
mode_or none = read_only
mode_or (some m) = captured 1 m

abbrev mode_in : Option String → String
mode_in none = read_only
mode_in (some content) = mode_or (exec mode_line content)

-- `cwd || d`
abbrev pub or_default : String → String → String
or_default s d = if s == "" then d else s

unfoldable pub engagement_mode : Host → String → String
engagement_mode host cwd =
    mode_in (host.file (host.join (or_default cwd "." ∷ "engagement.yaml" ∷ [])))

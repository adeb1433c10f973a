-- ===== src/Guards/Engagement.antt =====
-- What the scope locks read of engagement.yaml and of the active session: the parts that
-- guardrails/core/cluster-core.mjs and guardrails/core/egress-core.mjs have in the same words.
pub mod Gate
use Prim.Native.Char.{code}
use Prim.Native.String
use red_team_agent_orchestra.Common.{
  ℕ, String, Bool, true, false, ◌&&◌, not, Option, none, some, List, [], ◌∷◌, map, eqb, ◌==◌,
  if◌then◌else◌, Result, throw, ok, Error, type_error, ◌>>=◌,
}
use red_team_agent_orchestra.Js.{Value, str, arr, undefined, null, get, truthy, elements}
use red_team_agent_orchestra.Js.Text.{is_space, trim, join, lower}
use red_team_agent_orchestra.Js.Regex.{
  Pattern, one, ◌▹◌, many, group, opening, closing, line_opening, line_closing, Class, some_of,
  maybe, exactly, one_of, among, dot, spaces, Match,
}
use red_team_agent_orchestra.Js.Regex.Search.{exec, test, captured, split_by}
use red_team_agent_orchestra.Guards.Host.{Host}
use red_team_agent_orchestra.Guards.Commands.{gap, is_quote, or_default}
use red_team_agent_orchestra.Guards.Azure.{not_space}

-- `s.split(/\r?\n/)`
abbrev pub lines_of : String → List String
lines_of s = split_by (maybe (one (eqb 13)) ▹ one (eqb 10)) s

abbrev starts_block : String → String → Bool
starts_block key line = test (opening ▹ exactly key ▹ spaces ▹ exactly ":") line

unfoldable pub lines_after : String → List String → Option (List String)
lines_after key [] = none
lines_after key (l ∷ ls) = if starts_block key l then some ls else lines_after key ls

abbrev is_top : String → Bool
is_top line = test (opening ▹ one not_space) line && not (trim line == "")

unfoldable pub until_top : List String → List String
until_top [] = []
until_top (l ∷ ls) = if is_top l then [] else l ∷ until_top ls

abbrev joined : Option (List String) → Option String
joined none = none
joined (some ls) = some (join "\n" (until_top ls))

unfoldable pub slice_top_block : String → String → Option String
slice_top_block content key = joined (lines_after key (lines_of content))

-- `[^'"#\n]`
abbrev plain : Class
plain c = not (among "'\"#\n" c)

abbrev entry : String → Pattern
entry key =
    line_opening
    ▹ gap
    ▹ exactly key
    ▹ spaces
    ▹ exactly ":"
    ▹ spaces
    ▹ maybe (one is_quote)
    ▹ group 1 (one plain ▹ many true (one plain))
    ▹ maybe (one is_quote)
    ▹ spaces
    ▹ maybe (exactly "#" ▹ many false dot)
    ▹ line_closing

abbrev value_of : Option Match → Option String
value_of none = none
value_of (some m) = some (trim (captured 1 m))

-- A block that is "" has no entry, as the pattern takes at least a character.
unfoldable pub scalar : String → String → Option String
scalar block key = value_of (exec (entry key) block)

abbrev is_yes : Option String → Bool
is_yes none = false
is_yes (some v) = test (opening ▹ one_of ("true" ∷ "yes" ∷ "on" ∷ "1" ∷ []) ▹ closing) v

-- `boolScalar(block, key) === true`
unfoldable pub bool_scalar : String → String → Bool
bool_scalar block key = is_yes (scalar block key)

pub record Config : Type 0 where
  pub mode : String
  pub enabled : Bool
  pub attested_by : Option String
  pub attestation_id : Option String
  pub window_start : Option String
  pub window_end : Option String

abbrev disabled : String → Config
disabled mode = record {
  mode = mode;
  enabled = false;
  attested_by = none;
  attestation_id = none;
  window_start = none;
  window_end = none;
}

abbrev config_of : String → Option String → Config
config_of mode none = disabled mode
config_of mode (some block) = record {
  mode = mode;
  enabled = bool_scalar block "enabled";
  attested_by = scalar block "attested_by";
  attestation_id = scalar block "attestation_id";
  window_start = scalar block "authorized_window_start";
  window_end = scalar block "authorized_window_end";
}

abbrev block_in : String → Option String → Option String
block_in key none = none
block_in key (some content) = slice_top_block content key

unfoldable pub config_in : Host → String → String → String → Config
config_in host cwd key mode =
    config_of mode
      (block_in key (host.file (host.join (or_default cwd "." ∷ "engagement.yaml" ∷ []))))

abbrev session_at : Host → String → String → Option String
session_at host cwd name =
    if name == ""
    then none
    else if test (one (among "\\/")) name
    then some (host.resolve (or_default cwd "." ∷ name ∷ []))
    else some (host.resolve (or_default cwd "." ∷ "engagements" ∷ name ∷ []))

abbrev session_in : Host → String → Option String → Option String
session_in host cwd none = none
session_in host cwd (some marker) = session_at host cwd (trim marker)

unfoldable pub current_session_dir : Host → String → Option String
current_session_dir host cwd =
    session_in host cwd
      (host.file (host.join (or_default cwd "." ∷ "engagements" ∷ ".current-session" ∷ [])))

-- `JSON.parse(readFileSync(path))`, or nothing where there is no session, no file or no JSON
abbrev parsed : Host → Option String → Option Value
parsed host none = none
parsed host (some content) = host.parse_json content

abbrev pub document : Host → Option String → Option Value
document host none = none
document host (some path) = parsed host (host.file path)

abbrev string_of : Host → Value → Result String
string_of host (str s) = ok s
string_of host v = elim (host.shown v) [ some s ↦ ok s | none ↦ throw (type_error "String") ]

unfoldable pub lower_all : Host → List Value → Result (List String)
lower_all host [] = ok []
lower_all host (v ∷ vs) = string_of host v >>= λ s. lower_all host vs >>= λ ss. ok (lower s ∷ ss)

-- `(v || []).map((h) => String(h).toLowerCase())`
unfoldable pub names_of : Host → Value → Result (List String)
names_of host (arr vs) = lower_all host (elements (arr vs))
names_of host v = if truthy v then throw (type_error "map") else ok []

-- `doc && doc.allowlist ? doc.allowlist : {}`, of which only properties are read
abbrev pub allowlist_in : Value → Value
allowlist_in doc = get doc "allowlist"

-- `doc.content_hash`
abbrev pub hash_of : Value → Result Value
hash_of undefined = throw (type_error "content_hash")
hash_of null = throw (type_error "content_hash")
hash_of doc = ok (get doc "content_hash")

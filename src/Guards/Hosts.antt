-- ===== src/Guards/Hosts.antt =====
-- Which hosts are on the internet: tools/external/host-classify.mjs.
pub mod Blocks
use Prim.Native.Char.{code}
use Prim.Native.String
use red_team_agent_orchestra.Common.{
  ℕ, zero, suc, ◌+◌, ◌-◌, ◌*◌, String, Bool, true, false, ◌&&◌, ◌||◌, not, Option, none, some, List,
  [], ◌∷◌, any, all, map, leb, ltb, eqb, is_some, ◌==◌, if◌then◌else◌,
}
use red_team_agent_orchestra.Js.Text.{trim, lower}
use red_team_agent_orchestra.Js.Regex.{
  Pattern, one, ◌▹◌, either, many, group, opening, closing, Match, Class, is_digit, is_alpha,
  some_of, maybe, up_to, exactly, text, among, text_length,
}
use red_team_agent_orchestra.Js.Regex.Search.{exec, test, captured, replace, split_by}
use red_team_agent_orchestra.Guards.Host.{Host}
use red_team_agent_orchestra.Guards.Commands.{head_or_empty}

abbrev dot_or_end : Pattern
dot_or_end = either closing (exactly ".")

-- PRIVATE_FQDN_MARKERS
abbrev private_fqdn_markers : List Pattern
private_fqdn_markers =
    (either opening (exactly ".") ▹ text "privatelink.")
    ∷ (text ".internal" ▹ dot_or_end)
    ∷ (text ".local" ▹ closing)
    ∷ (text ".cluster.local" ▹ closing)
    ∷ (text ".svc" ▹ dot_or_end)
    ∷ []

-- `(\d{1,3})`
abbrev octet : ℕ → Pattern
octet n = group n (one is_digit ▹ up_to 2 (one is_digit))

abbrev dotted : Pattern
dotted =
    opening
    ▹ octet 1
    ▹ exactly "."
    ▹ octet 2
    ▹ exactly "."
    ▹ octet 3
    ▹ exactly "."
    ▹ octet 4
    ▹ closing

-- a number in a base, from its digits, after what is before it
unfoldable pub digits : ℕ → (ℕ → ℕ) → ℕ → String → ℕ
digits base value n String.[] = n
digits base value n (String.◌∷◌ c s) = digits base value (n * base + value (code c)) s

unfoldable pub decimal : String → ℕ
decimal s = digits 10 (λ c. c - 48) 0 s

pub record Octets : Type 0 where
  pub a : ℕ
  pub b : ℕ
  pub c : ℕ
  pub d : ℕ

abbrev captured_octets : Match → Octets
captured_octets m = record {
  a = decimal (captured 1 m);
  b = decimal (captured 2 m);
  c = decimal (captured 3 m);
  d = decimal (captured 4 m);
}

unfoldable pub in_range : Octets → Option Octets
in_range o = if any (λ n. ltb 255 n) (o.a ∷ o.b ∷ o.c ∷ o.d ∷ []) then none else some o

abbrev octets_of : Option Match → Option Octets
octets_of none = none
octets_of (some m) = in_range (captured_octets m)

unfoldable pub parse_ipv4 : String → Option Octets
parse_ipv4 s = octets_of (exec dotted (trim s))

abbrev is_hex : Class
is_hex c = is_digit c || (leb 97 c && leb c 102) || (leb 65 c && leb c 70)

abbrev hex_or_colon : Class
hex_or_colon c = is_hex c || eqb c 58

abbrev alphanumeric : Class
alphanumeric c = is_alpha c || is_digit c

unfoldable pub looks_like_ip : String → Bool
looks_like_ip s =
    is_some (parse_ipv4 s)
    || (test (exactly ":") s
        && test
            (opening ▹ some_of hex_or_colon ▹ maybe (exactly "%" ▹ some_of alphanumeric) ▹ closing)
            s)

-- The list of the source, one condition in each line.
unfoldable pub is_reserved : Octets → Bool
is_reserved o =
    (eqb o.a 0 || eqb o.a 10 || eqb o.a 127)
    || (eqb o.a 169 && eqb o.b 254)
    || (eqb o.a 172 && leb 16 o.b && leb o.b 31)
    || (eqb o.a 192 && eqb o.b 168)
    || (eqb o.a 100 && leb 64 o.b && leb o.b 127)
    || (eqb o.a 192 && eqb o.b 0 && eqb o.c 2)
    || (eqb o.a 198 && (eqb o.b 18 || eqb o.b 19))
    || (eqb o.a 198 && eqb o.b 51 && eqb o.c 100)
    || (eqb o.a 203 && eqb o.b 0 && eqb o.c 113)
    || leb 224 o.a

abbrev pub is_public_address : Option Octets → Bool
is_public_address none = false
is_public_address (some o) = not (is_reserved o)

unfoldable pub is_public_ipv4 : String → Bool
is_public_ipv4 s = is_public_address (parse_ipv4 s)

abbrev hex_digit : ℕ → ℕ
hex_digit c = if leb c 57 then c - 48 else if leb 97 c then c - 87 else c - 55

-- `parseInt(s || '0', 16)`, of hex digits
unfoldable pub hex : String → ℕ
hex s = digits 16 hex_digit 0 s

unfoldable pub is_global_unicast : String → Bool
is_global_unicast h =
    test (opening ▹ some_of hex_or_colon ▹ closing) h
    && not (h == "::" || h == "::1")
    && not (test (opening ▹ exactly "fe" ▹ one (among "89ab")) h)
    && not (test (opening ▹ exactly "f" ▹ one (among "cd")) h)
    && not (test (opening ▹ exactly "ff") h)
    && leb 0x2000 (hex (head_or_empty (split_by (exactly ":") h)))
    && leb (hex (head_or_empty (split_by (exactly ":") h))) 0x3fff

unfoldable pub is_public_ipv6 : String → Bool
is_public_ipv6 s =
    test (exactly ":") s
    && is_global_unicast
        (replace (exactly "%" ▹ some_of alphanumeric ▹ closing) "" (lower (trim s)))

abbrev lower_or_digit : Class
lower_or_digit c = (leb 97 c && leb c 122) || is_digit c

-- `[a-z0-9]([a-z0-9-]{0,62})`
abbrev label : Pattern
label = one lower_or_digit ▹ up_to 62 (one (λ c. lower_or_digit c || eqb c 45))

abbrev fqdn : Pattern
fqdn = opening ▹ label ▹ exactly "." ▹ label ▹ many false (exactly "." ▹ label) ▹ closing

abbrev last_dot : Pattern
last_dot = exactly "." ▹ closing

unfoldable pub is_public_name : String → Bool
is_public_name h =
    not (h == "" || ltb 253 (text_length h))
    && not (test (exactly "*") h)
    && not (looks_like_ip h)
    && test fqdn h
    && all (λ marker. not (test marker h)) private_fqdn_markers

unfoldable pub is_public_fqdn : String → Bool
is_public_fqdn name = is_public_name (replace last_dot "" (lower (trim name)))

pub data Kind : Type 0 where
  fqdn_kind ip_kind : Kind

pub record Target : Type 0 where
  pub host : String
  pub kind : Kind
  pub url : Option String

abbrev target : String → Kind → Option String → Option Target
target name kind url = some (record { host = name; kind = kind; url = url })

abbrev port : Pattern
port = exactly ":" ▹ one is_digit ▹ up_to 4 (one is_digit) ▹ closing

abbrev without_port : String → String
without_port v =
    if test (opening ▹ some_of (λ c. not (eqb c 58)) ▹ port) v then replace port "" v else v

-- The host of a value: lower case, without brackets, a last dot and a port.
unfoldable pub bare_host : String → String
bare_host v = without_port (
    lower (
      replace last_dot ""
        (replace (exactly "]" ▹ closing) "" (replace (opening ▹ exactly "[") "" v))))

unfoldable pub classify_host : String → Option String → Option Target
classify_host v url =
    if v == ""
    then none
    else if is_public_ipv4 v || is_public_ipv6 v
    then target v ip_kind url
    else if is_public_fqdn v
    then target v fqdn_kind url
    else none

abbrev starts_alphanumeric : Class
starts_alphanumeric c = alphanumeric c || among "+.-" c

-- `/^[a-z][a-z0-9+.-]*:\/\//i`
abbrev pub scheme : Pattern
scheme = opening ▹ one is_alpha ▹ many false (one starts_alphanumeric) ▹ exactly "://"

abbrev classify_url : String → Option String → Option Target
classify_url url none = none
classify_url url (some name) = classify_host (bare_host name) (some url)

unfoldable pub classify_value : Host → String → Option Target
classify_value host v =
    if v == ""
    then none
    else if test scheme v
    then classify_url v (host.hostname v)
    else classify_host (bare_host (head_or_empty (split_by (exactly "/") v))) none

unfoldable pub classify_candidate : Host → String → Option Target
classify_candidate host raw = classify_value host (trim raw)

-- ===== src/Guards/Egress.antt =====
-- What a segment would reach on the internet: `probeInvocation` and `parseProbeSegment` of
-- guardrails/core/egress-core.mjs.
pub mod Allowlist
pub mod Lock
pub mod Sound
use red_team_agent_orchestra.Common.{
  String, Bool, true, false, ◌&&◌, ◌||◌, not, Option, none, some, List, [], ◌∷◌, ◌++◌, any,
  includes, ◌==◌, if◌then◌else◌,
}
use red_team_agent_orchestra.Js.Text.{begins_with}
use red_team_agent_orchestra.Js.Regex.{
  Pattern, one, ◌▹◌, opening, closing, is_alpha, maybe, exactly, text, one_of, among,
}
use red_team_agent_orchestra.Js.Regex.Search.{test, split_by}
use red_team_agent_orchestra.Guards.Host.{Host}
use red_team_agent_orchestra.Guards.Commands.{head_or_empty}
use red_team_agent_orchestra.Guards.Azure.{tail_or_empty}
use red_team_agent_orchestra.Guards.Invocation.{norm, invoked, flag_name, after_equals}
use red_team_agent_orchestra.Guards.Hosts.{Target, scheme, classify_candidate}

abbrev probe_tools : List String
probe_tools =
    "curl" ∷ "wget" ∷ "http" ∷ "httpie" ∷ "invoke-webrequest" ∷ "iwr" ∷ "invoke-restmethod" ∷ "irm"
    ∷ "test-netconnection" ∷ "tnc" ∷ "httpx" ∷ "httprobe" ∷ "whatweb" ∷ "wafw00f" ∷ "wappalyzer"
    ∷ "nuclei" ∷ "nikto" ∷ "wpscan" ∷ "nuclei.exe" ∷ "testssl" ∷ "testssl.sh" ∷ "sslscan" ∷ "sslyze"
    ∷ "openssl" ∷ "zap" ∷ "zap.sh" ∷ "zap-cli" ∷ "zap-baseline" ∷ "zap-baseline.py"
    ∷ "zap-full-scan" ∷ "zap-full-scan.py" ∷ "owasp-zap" ∷ "sqlmap" ∷ "sqlmap.py" ∷ "commix"
    ∷ "gobuster" ∷ "ffuf" ∷ "feroxbuster" ∷ "dirb" ∷ "dirsearch" ∷ "dirsearch.py" ∷ "nmap"
    ∷ "masscan" ∷ "ncat" ∷ "nc" ∷ "netcat" ∷ []

abbrev target_value_flags : List String
target_value_flags =
    "u" ∷ "url" ∷ "target" ∷ "targets" ∷ "host" ∷ "hosts" ∷ "uri" ∷ "connect" ∷ "server" ∷ []

abbrev list_file_flags : List String
list_file_flags =
    "l" ∷ "list" ∷ "il" ∷ "target-file" ∷ "targetfile" ∷ "urls" ∷ "hostfile" ∷ "host-file" ∷ []

abbrev nontarget_value_flags : List String
nontarget_value_flags =
    "o" ∷ "output" ∷ "on" ∷ "ox" ∷ "og" ∷ "oa" ∷ "oj" ∷ "oz" ∷ "w" ∷ "wordlist" ∷ "h" ∷ "header"
    ∷ "headers" ∷ "t" ∷ "threads" ∷ "c" ∷ "concurrency" ∷ "rl" ∷ "rate" ∷ "rate-limit"
    ∷ "rate-per-second" ∷ "d" ∷ "data" ∷ "data-raw" ∷ "data-binary" ∷ "b" ∷ "cookie" ∷ "cookies"
    ∷ "a" ∷ "user-agent" ∷ "ua" ∷ "e" ∷ "referer" ∷ "x" ∷ "proxy" ∷ "proxychain" ∷ "r" ∷ "config"
    ∷ "conf" ∷ "p" ∷ "port" ∷ "ports" ∷ "timeout" ∷ "retries" ∷ "retry" ∷ "m" ∷ "method" ∷ "tags"
    ∷ "templates" ∷ "template" ∷ "severity" ∷ "s" ∷ "level" ∷ "risk" ∷ "dbms" ∷ "technique"
    ∷ "delay" ∷ "mc" ∷ "fc" ∷ "fs" ∷ "ms" ∷ "max-time" ∷ "connect-timeout" ∷ "resolve" ∷ "interface"
    ∷ "iface" ∷ []

-- FILE_EXT_RE
abbrev file_extension : Pattern
file_extension =
    exactly "."
    ▹ one_of (
        "txt" ∷ "json" ∷ "yaml" ∷ "yml" ∷ "csv" ∷ "tsv" ∷ "xml" ∷ "conf" ∷ "cfg" ∷ "ini" ∷ "log"
        ∷ "lst" ∷ "list" ∷ "tmpl" ∷ "nuclei" ∷ "py" ∷ "sh" ∷ "ps1" ∷ "bat" ∷ "cmd" ∷ "html" ∷ "htm"
        ∷ "js" ∷ "mjs" ∷ "md" ∷ "pem" ∷ "crt" ∷ "key" ∷ "cookies" ∷ "cookie" ∷ [])
    ▹ closing

abbrev slash : Pattern
slash = one (among "\\/")

unfoldable pub last_of : String → List String → String
last_of last [] = last
last_of last (s ∷ ss) = last_of s ss

abbrev last_part : String → String
last_part t = let part = last_of "" (split_by slash t) in if part == "" then t else part

unfoldable pub is_file_like_token : String → Bool
is_file_like_token t =
    t == ""
    || not (test scheme t)
      && (test (opening ▹ exactly "." ▹ maybe (exactly ".") ▹ slash) t
          || test (opening ▹ slash) t
          || test (opening ▹ exactly "~" ▹ slash) t
          || test (opening ▹ one is_alpha ▹ exactly ":" ▹ slash) t
          || test file_extension (last_part t))

abbrev is_client : String → Bool
is_client t = test (opening ▹ text "s_" ▹ one_of ("client" ∷ "time" ∷ []) ▹ closing) t

abbrev pub probe_tool : List String → String
probe_tool tokens = norm (head_or_empty tokens)

-- The words from the program, if it is a probe.
unfoldable pub probe_invocation : String → Option (List String)
probe_invocation segment =
    let tokens = invoked segment in
    if includes probe_tools (probe_tool tokens)
      && (not (probe_tool tokens == "openssl") || any is_client tokens)
    then some tokens
    else none

pub record Probe : Type 0 where
  pub targets : List String
  pub files : List String

-- What the next word is: a word of the command, or the value of the flag before it.
pub data Next : Type 0 where
  reading target_next file_next skip_next : Next

abbrev with_target : Option Target → Probe → Probe
with_target none p = p
with_target (some t) p =
    if includes p.targets t.host
    then p
    else record { targets = p.targets ++ t.host ∷ []; files = p.files }

unfoldable pub add_target : Host → String → Probe → Probe
add_target host v p = with_target (classify_candidate host v) p

unfoldable pub add_file : String → Probe → Probe
add_file v p = if v == "" then p else record { targets = p.targets; files = p.files ++ v ∷ [] }

unfoldable pub read_flag : Host → String → Option String → Probe → Next × Probe
read_flag host name (some v) p =
    if includes target_value_flags name
    then (reading, add_target host v p)
    else if includes list_file_flags name
    then (reading, add_file v p)
    else (reading, p)
read_flag host name none p =
    if includes target_value_flags name
    then (target_next, p)
    else if includes list_file_flags name
    then (file_next, p)
    else if includes nontarget_value_flags name
    then (skip_next, p)
    else (reading, p)

unfoldable pub read_word : Host → Next → String → Probe → Next × Probe
read_word host target_next t p = (reading, add_target host t p)
read_word host file_next t p = (reading, add_file t p)
read_word host skip_next t p = (reading, p)
read_word host reading t p =
    if t == "--"
    then (reading, p)
    else if begins_with t "-"
    then read_flag host (flag_name t) (after_equals t) p
    else if is_file_like_token t
    then (reading, p)
    else (reading, add_target host t p)

unfoldable pub read_words : Host → Next → List String → Probe → Probe
read_words host next [] p = p
read_words host next (t ∷ ts) p =
    let step = read_word host next t p in read_words host step.0 ts step.1

abbrev probe_of : Host → Option (List String) → Option (String × Probe)
probe_of host none = none
probe_of host (some tokens) = some (
  probe_tool tokens,
  read_words host reading (tail_or_empty tokens) (record { targets = []; files = [] }),
)

unfoldable pub parse_probe_segment : Host → String → Option (String × Probe)
parse_probe_segment host segment = probe_of host (probe_invocation segment)

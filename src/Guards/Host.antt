-- ===== src/Guards/Host.antt =====
-- What the guards take from Node: files, paths, dates, URLs, base64 and the text of a value. What
-- throws or cannot be read is `none`. Times are milliseconds, counted from the first date there is.
use red_team_agent_orchestra.Common.{ℕ, String, Option, List}
use red_team_agent_orchestra.Js.{Value}

pub record Host : Type 0 where
  pub file : String → Option String  -- `readFileSync`, in utf8
  pub join : List String → String  -- `path.join`
  pub resolve : List String → String  -- `path.resolve`
  pub parse_json : String → Option Value
  pub parse_date : String → Option ℕ  -- `Date.parse`
  pub now : ℕ  -- `new Date().getTime()`
  pub hostname : String → Option String  -- `new URL(s).hostname`
  pub url_host : String → Option String  -- `new URL(s).host`
  pub decode : String → String  -- `Buffer.from(s, "base64").toString("utf16le")`
  pub shown : Value → Option String  -- `String(v)`, of a value that is no text

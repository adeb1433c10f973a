-- ===== src/Examples/Guarded.antt =====
-- Commands that the guards are asked about.
use red_team_agent_orchestra.Common.{◌≡◌, refl, String, Option, none, some, [], ◌∷◌}
use red_team_agent_orchestra.Js.{str, get, truthy, read}
use red_team_agent_orchestra.Js.Text.{trim, lower, upper, begins_with, join}
use red_team_agent_orchestra.Examples.Patterns.{matching}
use red_team_agent_orchestra.Guards.Host.{Host}
use red_team_agent_orchestra.Guards.Commands.{
  split_segments, unquote, normalize_exe, extract_inner, visit_all, reversed, visit,
  gather_command_texts, extract_command, engagement_mode,
}
use red_team_agent_orchestra.Guards.Scan.{first_of, scan_text, scan}
use red_team_agent_orchestra.Guards.Azure.{
  is_az_token, from_az, strip, first_token, is_az_invocation, is_az_pwsh_invocation, last_of_path,
  operation_token,
}
use red_team_agent_orchestra.Guards.Azure.Rest.{
  clean_val, method_at, rest_method, az_rest_method, has_body_flag, parameter_method, iarm_method,
}
use red_team_agent_orchestra.Guards.Azure.Verdict.{
  unknown_operation, allow, writing_rest, deny, violation, rest_violation, az_violation,
  cmdlet_violation, pwsh_violation, verdict_of, evaluate,
}

-- The files of an engagement: no base64 text is decoded, and no URL read.
abbrev pub host : (String → Option String) → Host
host file = record {
  file = file;
  join = λ parts. join "/" parts;
  resolve = λ parts. join "/" parts;
  parse_json = λ s. none;
  parse_date = λ s. none;
  now = 0;
  hostname = λ s. none;
  url_host = λ s. none;
  decode = λ s. "";
  shown = λ v. none;
}

abbrev pub no_file : String → Option String
no_file s = none

unfoldable pub guarding : Unit {0}
unfolding trim lower upper begins_with join get truthy read split_segments unquote normalize_exe
    extract_inner visit_all reversed visit gather_command_texts extract_command engagement_mode
    first_of scan_text scan is_az_token from_az strip first_token is_az_invocation
    is_az_pwsh_invocation last_of_path operation_token clean_val method_at rest_method
    az_rest_method has_body_flag parameter_method iarm_method violation rest_violation az_violation
    cmdlet_violation pwsh_violation verdict_of evaluate matching
guarding = tt

segments :
    split_segments "az vm list | jq . && echo done" ≡ "az vm list" ∷ "jq ." ∷ "echo done" ∷ []
unfolding guarding
segments = refl

gathered :
    gather_command_texts (host no_file) "bash -c 'az group delete -n rg'"
    ≡ "bash -c 'az group delete -n rg'" ∷ "az group delete -n rg" ∷ []
unfolding guarding
gathered = refl

reads : violation "az -o json vm list --query id" ≡ none
unfolding guarding
reads = refl

deletes : violation "timeout 30 az.exe group delete -n rg" ≡ some (unknown_operation "delete")
unfolding guarding
deletes = refl

puts : violation "az rest --method=put --url u" ≡ some (writing_rest "PUT")
unfolding guarding
puts = refl

removes : violation "Get-AzVM -Name x" ≡ none
unfolding guarding
removes = refl

denied :
    evaluate (host no_file) (str "bash -c 'az group delete -n rg'") "." "bash"
    ≡ deny (record { segment = "az group delete -n rg"; reason = unknown_operation "delete" })
unfolding guarding
denied = refl

-- A flag `-c` that is written together with another one does not make a text of its own.
bundled_flags : evaluate (host no_file) (str "bash -lc 'az group delete -n rg'") "." "bash" ≡ allow
unfolding guarding
bundled_flags = refl

-- Of two methods, the first one is read.
two_methods : violation "az rest --method get --url u --method delete" ≡ none
unfolding guarding
two_methods = refl

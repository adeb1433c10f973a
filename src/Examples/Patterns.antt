-- ===== src/Examples/Patterns.antt =====
-- Patterns on texts.
use red_team_agent_orchestra.Common.{◌≡◌, refl, true, false, ◌∷◌, []}
use red_team_agent_orchestra.Js.Text.{is_space}
use red_team_agent_orchestra.Js.Regex.{
  Pattern, one, ◌▹◌, many, group, same_as, opening, edge, prefix, text_length, find_group,
  is_line_end, is_digit, is_alpha, is_word, where_true, match_one, match_text, repeat, run,
  match_at, some_of, up_to, exactly, text, one_of, among, dot, any_char,
}
use red_team_agent_orchestra.Js.Regex.Search.{
  first_from, exec, test, captured, replace_from, replace, split_from, split_by, all_from,
  all_matches,
}

unfoldable pub matching : Unit {0}
unfolding is_space prefix text_length find_group is_line_end is_digit is_alpha is_word where_true
    match_one match_text repeat run match_at up_to exactly text one_of among first_from exec test
    captured replace_from replace split_from split_by all_from all_matches
matching = tt

abbrev quoted : Pattern
quoted =
    text "iex"
    ▹ edge
    ▹ some_of is_space
    ▹ group 1 (one (among "'\""))
    ▹ group 2 (many true any_char)
    ▹ same_as 1

quoted_finds : test quoted "x; IEX 'az vm' list'" ≡ true
unfolding matching
quoted_finds = refl

quoted_misses : test quoted "iexx 'az vm'" ≡ false
unfolding matching
quoted_misses = refl

words : split_by (some_of is_space) "az  vm list" ≡ "az" ∷ "vm" ∷ "list" ∷ []
unfolding matching
words = refl

stripped : replace (opening ▹ many false dot ▹ one (among "\\/")) "" "C:\\tools/az.exe" ≡ "az.exe"
unfolding matching
stripped = refl

-- ===== src/Js/Text.antt =====
-- The `String.prototype` methods that the tools call. Letters outside ASCII keep their case here.
use Prim.Native.Char.{Char, code}
use Prim.Native.String
use red_team_agent_orchestra.Common.{
  ℕ, zero, suc, ◌-◌, String, Bool, true, false, ◌&&◌, ◌||◌, List, [], ◌∷◌, leb, eqb, ◌==◌,
  if◌then◌else◌,
}

-- What `\s` and `trim` take for white space.
unfoldable pub is_space : ℕ → Bool
is_space n =
    (leb 9 n && leb n 13)
    || eqb n 32
    || eqb n 0xa0
    || eqb n 0x1680
    || (leb 0x2000 n && leb n 0x200a)
    || eqb n 0x2028
    || eqb n 0x2029
    || eqb n 0x202f
    || eqb n 0x205f
    || eqb n 0x3000
    || eqb n 0xfeff

trim_start : String → String
unfolding is_space
trim_start String.[] = ""
trim_start (String.◌∷◌ c s) = if is_space (code c) then trim_start s else String.◌∷◌ c s

trim_end : String → String
unfolding is_space
trim_end String.[] = ""
trim_end (String.◌∷◌ c s) =
    let rest = trim_end s in if rest == "" && is_space (code c) then "" else String.◌∷◌ c rest

-- `s.trim()`
unfoldable pub trim : String → String
unfolding trim_start trim_end
trim s = trim_end (trim_start s)

char_or : Char → ℕ → String → Char
char_or d n String.[] = d
char_or d zero (String.◌∷◌ c s) = c
char_or d (suc n) (String.◌∷◌ c s) = char_or d n s

lower_char : Char → Char
unfolding char_or
lower_char c =
    if leb 65 (code c) && leb (code c) 90
    then char_or c (code c - 65) "abcdefghijklmnopqrstuvwxyz"
    else c

-- `s.toLowerCase()`
unfoldable pub lower : String → String
unfolding lower_char
lower String.[] = ""
lower (String.◌∷◌ c s) = String.◌∷◌ (lower_char c) (lower s)

upper_char : Char → Char
unfolding char_or
upper_char c =
    if leb 97 (code c) && leb (code c) 122
    then char_or c (code c - 97) "ABCDEFGHIJKLMNOPQRSTUVWXYZ"
    else c

-- `s.toUpperCase()`
unfoldable pub upper : String → String
unfolding upper_char
upper String.[] = ""
upper (String.◌∷◌ c s) = String.◌∷◌ (upper_char c) (upper s)

-- `s.startsWith(t)`
unfoldable pub begins_with : String → String → Bool
begins_with s String.[] = true
begins_with String.[] (String.◌∷◌ d t) = false
begins_with (String.◌∷◌ c s) (String.◌∷◌ d t) = eqb (code c) (code d) && begins_with s t

-- `s.endsWith(t)`
unfoldable pub ends_with : String → String → Bool
ends_with String.[] t = t == ""
ends_with (String.◌∷◌ c s) t = String.◌∷◌ c s == t || ends_with s t

-- `s.slice(0, -1)`
unfoldable pub drop_last : String → String
drop_last String.[] = ""
drop_last (String.◌∷◌ c s) = if s == "" then "" else String.◌∷◌ c (drop_last s)

-- The parts that `split` finds, the first one and the others.
abbrev glue : Char → List String → List String
glue c [] = []
glue c (p ∷ ps) = String.◌∷◌ c p ∷ ps

-- `s.split(sep)`, at a separator of one character, given by its number
unfoldable pub split : ℕ → String → List String
split sep String.[] = "" ∷ []
split sep (String.◌∷◌ c s) =
    let rest = split sep s in if eqb (code c) sep then "" ∷ rest else glue c rest

-- `texts.join(sep)`
unfoldable pub join : String → List String → String
join sep [] = ""
join sep (s ∷ []) = s
join sep (s ∷ t ∷ ss) = String.◌++◌ s (String.◌++◌ sep (join sep (t ∷ ss)))

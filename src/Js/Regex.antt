-- ===== src/Js/Regex.antt =====
-- Regular expressions, by the backtracking of the language: a matcher is given the spot that it
-- starts from, the groups captured so far, and what follows it. Where a pattern has the flag `i`,
-- letters of ASCII are compared without their case, and no others.
pub mod Search
use Prim.Native.Char.{code}
use Prim.Native.String
use red_team_agent_orchestra.Common.{
  ℕ, zero, suc, ◌+◌, ◌-◌, String, Bool, true, false, ◌&&◌, ◌||◌, not, Option, none, some, List, [],
  ◌∷◌, any, leb, eqb, if◌then◌else◌,
}
use red_team_agent_orchestra.Js.Text.{is_space}

-- A class of characters is a test on their numbers.
abbrev pub Class : Type 0
Class = ℕ → Bool

infixr 60 ◌▹◌
pub data Pattern : Type 0 where
  nothing : Pattern
  one : Class → Pattern
  ◌▹◌ : Pattern → Pattern → Pattern  -- one after the other
  either : Pattern → Pattern → Pattern
  many : Bool → Pattern → Pattern  -- `p*?` if the flag is `true`, else `p*`
  group : ℕ → Pattern → Pattern
  same_as : ℕ → Pattern  -- `\1`
  unless : Pattern → Pattern  -- `(?!p)`
  opening closing : Pattern  -- `^` and `$`
  line_opening line_closing : Pattern  -- the same with the flag `m`
  edge : Pattern  -- `\b`

-- Where a matcher stands: the character before, its place, and the text from there.
pub record Spot : Type 0 where
  pub prev : Option ℕ
  pub place : ℕ
  pub rest : String

abbrev pub Groups : Type 0
Groups = List (ℕ × String)

-- A match: where it ends, and its groups, the last captured first.
pub record Match : Type 0 where
  pub stop : Spot
  pub groups : Groups

abbrev pub Follow : Type 0
Follow = Spot → Groups → Option Match

abbrev pub Matcher : Type 0
Matcher = Spot → Groups → Follow → Option Match

-- the first `n` characters of a text
unfoldable pub prefix : ℕ → String → String
prefix zero s = ""
prefix (suc n) String.[] = ""
prefix (suc n) (String.◌∷◌ c s) = String.◌∷◌ c (prefix n s)

unfoldable pub text_length : String → ℕ
text_length String.[] = 0
text_length (String.◌∷◌ c s) = suc (text_length s)

unfoldable pub find_group : ℕ → Groups → Option String
find_group n [] = none
find_group n ((m, s) ∷ gs) = if eqb m n then some s else find_group n gs

-- the text of a group, or "" if it took no part
abbrev pub text_or_empty : Option String → String
text_or_empty none = ""
text_or_empty (some s) = s

unfoldable pub is_line_end : Class
is_line_end c = eqb c 10 || eqb c 13 || eqb c 0x2028 || eqb c 0x2029

unfoldable pub is_digit : Class
is_digit c = leb 48 c && leb c 57

unfoldable pub is_alpha : Class
is_alpha c = (leb 97 c && leb c 122) || (leb 65 c && leb c 90)

-- `\w`
unfoldable pub is_word : Class
is_word c = is_alpha c || is_digit c || eqb c 95

abbrev tested : Class → Option ℕ → Bool
tested p none = false
tested p (some c) = p c

abbrev next_of : String → Option ℕ
next_of String.[] = none
next_of (String.◌∷◌ c s) = some (code c)

abbrev ends_line : Option ℕ → Bool
ends_line none = true
ends_line (some c) = is_line_end c

abbrev is_none : Option ℕ → Bool
is_none none = true
is_none (some c) = false

-- `follow` where a test on the spot holds
unfoldable pub where_true : Bool → Spot → Groups → Follow → Option Match
where_true true s g follow = follow s g
where_true false s g follow = none

unfoldable pub match_one : Class → String → Spot → Groups → Follow → Option Match
match_one p String.[] s g follow = none
match_one p (String.◌∷◌ c t) s g follow = elim (p (code c)) [
  | true ↦ follow (record { prev = some (code c); place = suc s.place; rest = t }) g
  | false ↦ none
]

unfoldable pub match_text : String → Spot → Groups → Follow → Option Match
match_text String.[] s g follow = follow s g
match_text (String.◌∷◌ c t) s g follow =
    match_one (eqb (code c)) s.rest s g (λ s' g'. match_text t s' g' follow)

-- A round of `p*` that takes no character is no round, so as many rounds as there are characters
-- left are enough, and one more.
unfoldable pub repeat : Bool → Matcher → ℕ → Matcher
repeat lazy m zero s g follow = follow s g
repeat true m (suc fuel) s g follow = elim (follow s g) [
  | some r ↦ some r
  | none ↦ m s g (λ s' g'. elim (eqb s'.place s.place) [
    | true ↦ none
    | false ↦ repeat true m fuel s' g' follow
  ])
]
repeat false m (suc fuel) s g follow =
    elim (m s g (λ s' g'. elim (eqb s'.place s.place) [
      | true ↦ none
      | false ↦ repeat false m fuel s' g' follow
    ])) [ some r ↦ some r | none ↦ follow s g ]

abbrev stop_here : Follow
stop_here s g = some (record { stop = s; groups = g })

unfoldable pub run : Pattern → Matcher
run nothing s g follow = follow s g
run (one p) s g follow = match_one p s.rest s g follow
run (p ▹ q) s g follow = run p s g (λ s' g'. run q s' g' follow)
run (either p q) s g follow = elim (run p s g follow) [ some r ↦ some r | none ↦ run q s g follow ]
run (many lazy p) s g follow = repeat lazy (run p) (suc (text_length s.rest)) s g follow
run (group n p) s g follow =
    run p s g (λ s' g'. follow s' ((n, prefix (s'.place - s.place) s.rest) ∷ g'))
run (same_as n) s g follow = match_text (text_or_empty (find_group n g)) s g follow
run (unless p) s g follow = elim (run p s g stop_here) [ some r ↦ none | none ↦ follow s g ]
run opening s g follow = where_true (is_none s.prev) s g follow
run closing s g follow = where_true (is_none (next_of s.rest)) s g follow
run line_opening s g follow = where_true (ends_line s.prev) s g follow
run line_closing s g follow = where_true (ends_line (next_of s.rest)) s g follow
run edge s g follow =
    where_true
      (if tested is_word s.prev
        then not (tested is_word (next_of s.rest))
        else tested is_word (next_of s.rest))
      s g follow

-- a match that starts at a spot
unfoldable pub match_at : Pattern → Spot → Option Match
match_at p s = run p s [] stop_here

-- Ways to write patterns.
abbrev pub any_char : Pattern
any_char = one (λ c. true)

-- `.`
abbrev pub dot : Pattern
dot = one (λ c. not (is_line_end c))

abbrev pub spaces : Pattern
spaces = many false (one is_space)

abbrev pub some_of : Class → Pattern
some_of p = one p ▹ many false (one p)

-- `p?`
abbrev pub maybe : Pattern → Pattern
maybe p = either p nothing

-- `p{0,n}`
unfoldable pub up_to : ℕ → Pattern → Pattern
up_to zero p = nothing
up_to (suc n) p = maybe (p ▹ up_to n p)

abbrev fold_case : ℕ → ℕ
fold_case c = if leb 65 c && leb c 90 then c + 32 else c

-- a text, to the letter
unfoldable pub exactly : String → Pattern
exactly String.[] = nothing
exactly (String.◌∷◌ c s) = one (eqb (code c)) ▹ exactly s

-- a text, with the flag `i`
unfoldable pub text : String → Pattern
text String.[] = nothing
text (String.◌∷◌ c s) = one (λ d. eqb (fold_case d) (fold_case (code c))) ▹ text s

-- `a|b|c`, of texts with the flag `i`
unfoldable pub one_of : List String → Pattern
one_of [] = unless nothing
one_of (s ∷ []) = text s
one_of (s ∷ t ∷ ss) = either (text s) (one_of (t ∷ ss))

-- a class that is the characters of a text
unfoldable pub among : String → Class
among String.[] c = false
among (String.◌∷◌ d s) c = eqb (code d) c || among s c

-- ===== src/Js/Stringify.antt =====
-- `JSON.stringify`, for the values of this library.
use Prim.Native.Char.{Char, code}
use Prim.Native.String
use red_team_agent_orchestra.Common.{
  ℕ, zero, suc, ◌/◌, ◌%◌, String, Bool, true, false, ltb, eqb, ◌==◌, if◌then◌else◌,
}
use red_team_agent_orchestra.Js.Data.{
  Value, undefined, null, bool, num, str, arr, obj, Items, nil, cons, Props, end, prop,
}

infixr 65 ◌<>◌
abbrev ◌<>◌ : String → String → String
s <> t = String.◌++◌ s t

hex_digit : ℕ → String
hex_digit zero = "0"
hex_digit (suc zero) = "1"
hex_digit (suc (suc zero)) = "2"
hex_digit (suc (suc (suc zero))) = "3"
hex_digit (suc (suc (suc (suc zero)))) = "4"
hex_digit (suc (suc (suc (suc (suc zero))))) = "5"
hex_digit (suc (suc (suc (suc (suc (suc zero)))))) = "6"
hex_digit (suc (suc (suc (suc (suc (suc (suc zero))))))) = "7"
hex_digit (suc (suc (suc (suc (suc (suc (suc (suc zero)))))))) = "8"
hex_digit (suc (suc (suc (suc (suc (suc (suc (suc (suc zero))))))))) = "9"
hex_digit n =
    if eqb n 10
    then "a"
    else if eqb n 11
    then "b"
    else if eqb n 12
    then "c"
    else if eqb n 13
    then "d"
    else if eqb n 14
    then "e"
    else "f"

-- Decimal digits of `n`, before `rest`; the fuel is one more than `n`.
digits : ℕ → ℕ → String → String
unfolding hex_digit
digits zero n rest = rest
digits (suc f) n rest =
    let here = hex_digit (n % 10) <> rest in
    let more = digits f (n / 10) here in if ltb n 10 then here else more

-- `String(n)` of a whole number
unfoldable pub decimal : ℕ → String
unfolding digits
decimal n = digits (suc n) n ""

-- A number in hundredths, without trailing zeros.
number : ℕ → String
unfolding decimal hex_digit
number n =
    let whole = decimal (n / 100) in
    let tenths = n / 10 % 10 in
    let hundredths = n % 10 in
    if eqb hundredths 0
    then (if eqb tenths 0 then whole else whole <> "." <> hex_digit tenths)
    else whole <> "." <> hex_digit tenths <> hex_digit hundredths

escape : Char → String
unfolding hex_digit
escape c =
    let n = code c in
    if eqb n 0x22
    then "\\\""
    else if eqb n 0x5c
    then "\\\\"
    else if eqb n 8
    then "\\b"
    else if eqb n 9
    then "\\t"
    else if eqb n 10
    then "\\n"
    else if eqb n 12
    then "\\f"
    else if eqb n 13
    then "\\r"
    else if ltb n 0x20
    then "\\u00" <> hex_digit (n / 16) <> hex_digit (n % 16)
    else String.◌∷◌ c String.[]

escaped : String → String
unfolding escape
escaped String.[] = ""
escaped (String.◌∷◌ c s) = escape c <> escaped s

quote : String → String
unfolding escaped
quote s = "\"" <> escaped s <> "\""

abbrev defined : Value → Bool
defined undefined = false
defined _ = true

abbrev comma : String → String
comma s = if s == "" then "" else "," <> s

-- `undefined` in an array prints as null, and a property whose value is undefined is left out.
unfoldable mutual
  unfolding quote number

  pub stringify : Value → String
  stringify undefined = "null"
  stringify null = "null"
  stringify (bool true) = "true"
  stringify (bool false) = "false"
  stringify (num n) = number n
  stringify (str s) = quote s
  stringify (arr vs) = "[" <> stringify_items vs <> "]"
  stringify (obj ps) = "{" <> stringify_props ps <> "}"

  pub stringify_items : Items → String
  stringify_items nil = ""
  stringify_items (cons v nil) = stringify v
  stringify_items (cons v (cons w vs)) = stringify v <> "," <> stringify_items (cons w vs)

  pub stringify_props : Props → String
  stringify_props end = ""
  stringify_props (prop k v ps) =
      if defined v
      then quote k <> ":" <> stringify v <> comma (stringify_props ps)
      else stringify_props ps

-- ===== src/Stream/Json/Lexer.antt =====
-- The tokens of a text of JSON: white space is skipped, the inside of a string is decoded.
pub mod Emits
use kssio.Prelude.{
  ℕ, zero, suc, Bool, true, false, ◌&&◌, ◌||◌, Option, none, some, List, [], ◌∷◌, Text, leb, ◌==◌,
  if◌then◌else◌, not, is_empty,
}
use kssio.Stream.Decode.{decode}
use kssio.Stream.Json.Strings.{read_json}
use kssio.Stream.Json.Tokens.{
  Token, open_brace, close_brace, open_bracket, close_bracket, colon, comma, string, number,
}

abbrev pub is_space : ℕ → Bool
is_space c = (c == b' ') || (c == b'\n')

abbrev pub is_numeric : ℕ → Bool
is_numeric c = (leb b'0' c && leb c b'9') || (c == b'.')

-- The longest beginning of digits and points, and what is behind it.
pub span_number : Text → Text × Text
span_number [] = ([], [])
span_number (c ∷ s) = let r = span_number s in if is_numeric c then (c ∷ r.0, r.1) else ([], c ∷ s)

-- A number of JSON with no sign and no exponent: one 0 or digits that do not begin with it, and if
-- there is a point, digits behind it.
abbrev is_digit : ℕ → Bool
is_digit c = leb b'0' c && leb c b'9'

abbrev are_digits : Text → Bool
are_digits [] = true
are_digits (c ∷ s) = is_digit c && are_digits s

abbrev is_fraction : Text → Bool
is_fraction [] = true
is_fraction (c ∷ s) = (c == b'.') && (not (is_empty s) && are_digits s)

abbrev ends_number : Text → Bool
ends_number [] = true
ends_number (c ∷ s) = if is_digit c then ends_number s else is_fraction (c ∷ s)

abbrev pub is_json_number : Text → Bool
is_json_number [] = false
is_json_number (c ∷ s) = if c == b'0' then is_fraction s else is_digit c && ends_number s

-- The quote that ends a string.
pub end_string : Text × Text → Option (Option Token × Text)
end_string (t, []) = none
end_string (t, c ∷ s) = if c == b'"' then some (some (string t), s) else none

pub read_symbol : ℕ → Text → Option (Option Token × Text)
read_symbol c s =
    if c == b'{'
    then some (some open_brace, s)
    else if c == b'}'
    then some (some close_brace, s)
    else if c == b'['
    then some (some open_bracket, s)
    else if c == b']'
    then some (some close_bracket, s)
    else if c == b':'
    then some (some colon, s)
    else if c == b','
    then some (some comma, s)
    else none

-- What a text begins with: a token, or one character of white space.
pub read_token : ℕ → ℕ → Text → Option (Option Token × Text)
unfolding span_number end_string read_symbol
read_token fuel c s =
    if is_space c
    then some (none, s)
    else if c == b'"'
    then end_string (decode read_json fuel s)
    else if is_numeric c
    then (let r = span_number (c ∷ s) in
        if is_json_number r.0 then some (some (number r.0), r.1) else none)
    else read_symbol c s

pub with_token : Option Token → Option (List Token) → Option (List Token)
with_token o none = none
with_token none (some ts) = some ts
with_token (some t) (some ts) = some (t ∷ ts)

unfoldable pub lex : ℕ → Text → Option (List Token)
unfolding read_token with_token
lex zero s = none
lex (suc fuel) [] = some []
lex (suc fuel) (c ∷ s) = elim (read_token fuel c s) [
  | none ↦ none
  | some r ↦ with_token r.0 (lex fuel r.1)
]

-- ===== src/Stream/Json/Strings.antt =====
-- What the JSON writer makes of a string that is no number.
use kssio.Prelude.{
  not, ap, ◌∙◌, sym, append_assoc, inr, inl, leb, Bool-cases, ◌⊎◌, ◌||◌, ◌&&◌, ◌==◌, ◌+◌, ◌*◌, refl,
  if◌then◌else◌, arith, ◌∷◌, true, length, false, ◌≡◌, ◌<◌, ◌++◌, some, none, Bool, All, Option, [],
}
use kssio.Prelude.Bits.{passes_below, passes_below-lookup}
use kssio.Stream.Decode.{decode, escape_all, decode-escape_all}
use kssio.Stream.Json.{ℕ, Text, escape_char, escape_loop, encode_json, is_number}
use kssio.Net.Text.{digit_value, print_padded}

-- One hexadecimal digit more.
next_hex : Option ℕ → ℕ → Option ℕ
unfolding digit_value
next_hex none c = none
next_hex (some v) c = elim (digit_value 16 c) [ some d ↦ some (v * 16 + d) | none ↦ none ]

with_length : Option ℕ → Option (ℕ × ℕ)
with_length none = none
with_length (some v) = some (v, 6)

read_unicode : Text → Option (ℕ × ℕ)
unfolding next_hex with_length
read_unicode (a ∷ b ∷ c ∷ d ∷ s) =
    with_length (next_hex (next_hex (next_hex (next_hex (some 0) a) b) c) d)
read_unicode s = none

-- Behind a backslash.
read_escaped : Text → Option (ℕ × ℕ)
unfolding read_unicode
read_escaped [] = none
read_escaped (c ∷ s) =
    if c == b'u'
    then read_unicode s
    else if c == b'b'
    then some (8, 2)
    else if c == b'f'
    then some (12, 2)
    else if c == b'n'
    then some (10, 2)
    else if c == b'r'
    then some (13, 2)
    else if c == b't'
    then some (9, 2)
    else if (c == b'"') || (c == b'\\')
    then some (c, 2)
    else none

-- The first character of the inside of a JSON string: a quote and a control character end it.
unfoldable pub read_json : Text → Option (ℕ × ℕ)
unfolding read_escaped
read_json [] = none
read_json (c ∷ s) =
    if c == b'\\' then read_escaped s else if (c == b'"') || leb c 31 then none else some (c, 1)

reads : Option (ℕ × ℕ) → ℕ → ℕ → Bool
reads none c k = false
reads (some (d, j)) c k = (d == c) && (j == k)

reads_sound : (o : Option (ℕ × ℕ)) (c k : ℕ) → reads o c k ≡ true → o ≡ some (c, k)
unfolding reads
reads_sound none c k h = ground arith
reads_sound (some (d, j)) c k h = ground arith

escape_table :
    (t : Text)
    → passes_below (λ c. reads (read_json (escape_char c ++ t)) c (length (escape_char c))) 256
      ≡ true
unfolding passes_below reads read_json escape_char print_padded
escape_table t = refl

read_json-escape_char :
    (c : ℕ) (t : Text) → c < 256 → read_json (escape_char c ++ t) ≡ some (c, length (escape_char c))
read_json-escape_char c t h =
    reads_sound _ c (length (escape_char c)) (passes_below-lookup _ 256 (escape_table t) c h)

escape_loop-escape_all : (s : Text) → escape_loop s ≡ escape_all escape_char s
unfolding escape_loop
escape_loop-escape_all [] = refl
escape_loop-escape_all (c ∷ s) = rw (escape_loop-escape_all s)

pub decode-escape_loop :
    (fuel : ℕ) (s rest : Text)
    → All (λ c. c < 256) s
    → length s < fuel
    → decode read_json fuel (escape_loop s ++ b'"' ∷ rest) ≡ (s, b'"' ∷ rest)
decode-escape_loop fuel s rest a h = rw (escape_loop-escape_all s) (
    decode-escape_all read_json escape_char (λ c. c < 256) read_json-escape_char fuel s
      (b'"' ∷ rest) a h (unfold read_json in refl))

-- Keys are written as they are, so they must need no escape; values are of bytes.
abbrev is_plain : ℕ → Bool
is_plain c = not (c == b'\\') && not ((c == b'"') || leb c 31)

abbrev pub IsPlainKey : Text → Type 0
IsPlainKey = All (λ c. is_plain c ≡ true)

escape_all-one : (s : Text) → escape_all (λ c. c ∷ []) s ≡ s
escape_all-one [] = refl
escape_all-one (c ∷ s) = rw (escape_all-one s) refl

pub decode-key :
    (fuel : ℕ) (key u : Text)
    → IsPlainKey key
    → length key < fuel
    → decode read_json fuel (key ++ b'"' ∷ u) ≡ (key, b'"' ∷ u)
unfolding read_json
decode-key fuel key u plain h =
    ap (λ k. decode read_json fuel (k ++ b'"' ∷ u)) (sym (escape_all-one key))
    ∙ decode-escape_all read_json (λ c. c ∷ []) (λ c. is_plain c ≡ true)
        (λ c t e. ground (arith, e)) fuel key (b'"' ∷ u) plain h refl

-- A text that does not look like a number is written between quotes, and a reader of JSON strings
-- reads behind the first quote exactly the text, up to the quote that ends it, whatever bytes the
-- text holds and whatever follows. One that looks like a number is written as it is.
decode-encode_json :
    (s rest : Text)
    → All (λ c. c < 256) s
    → ((is_number s ≡ false)
        × ((t : Text) × (encode_json s ++ rest ≡ b'"' ∷ t)
            × (decode read_json (length s + 1) t ≡ (s, b'"' ∷ rest))))
      ⊎ ((is_number s ≡ true) × (encode_json s ≡ s))
unfolding encode_json
decode-encode_json s rest a = elim (Bool-cases (is_number s)) [
  | inl numeric ↦ inr (numeric, rw numeric)
  | inr other ↦ inl (
    other,
    (
      escape_loop s ++ (b'"' ∷ rest),
      rw (other, append_assoc),
      decode-escape_loop (length s + 1) s rest a (omega arith),
    ),
  )
]

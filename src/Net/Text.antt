-- ===== src/Net/Text.antt =====
-- Numbers as text, as the networking code and the rolling files read and print them: what
-- `std::stoul` and `operator<<` of an output stream do in bases 10 and 16.
pub mod Laws
use kssio.Prelude.{
  ℕ, zero, suc, ◌+◌, ◌-◌, ◌*◌, ◌/◌, ◌%◌, ◌^◌, Bool, true, false, ◌&&◌, ◌||◌, Option, none, some,
  List, [], ◌∷◌, ◌++◌, ltb, leb, ◌==◌, if◌then◌else◌, length, replicate, Text, codes, Exception,
  Result, ok, thrown, invalid_argument, out_of_range,
}

-- A digit below 16 in lower case.
abbrev pub digit_char : ℕ → ℕ
digit_char d = if ltb d 10 then b'0' + d else b'a' + (d - 10)

-- The digits of `n` before `acc`, with one unit of fuel for each.
digits : ℕ → ℕ → ℕ → Text → Text
digits zero base n acc = acc
digits (suc fuel) base n acc =
    let rest = digits fuel base (n / base) (digit_char (n % base) ∷ acc) in
    if ltb n base then digit_char n ∷ acc else rest

-- `strm << n`, and `strm << std::hex << n`. A number has at most as many digits as its value and
-- one more, so the fuel suffices.
unfoldable pub print : ℕ → ℕ → Text
unfolding digits
print base n = digits (suc n) base n []

-- `strm << setfill('0') << setw(width) << n`
unfoldable pub print_padded : ℕ → ℕ → ℕ → Text
unfolding print
print_padded base width n = let s = print base n in replicate (width - length s) b'0' ++ s

-- The value of a digit in a base, if it is one.
unfoldable pub digit_value : ℕ → ℕ → Option ℕ
digit_value base c =
    let v =
      if leb b'0' c && leb c b'9'
      then c - b'0'
      else if leb b'a' c && leb c b'z'
      then c - b'a' + 10
      else if leb b'A' c && leb c b'Z'
      then c - b'A' + 10
      else base in
    if ltb v base then some v else none

is_space : ℕ → Bool
is_space c = (leb 9 c && leb c 13) || (c == 32)

-- The digits at the front: their value behind `v`, how many they are.
read_digits : ℕ → ℕ → ℕ → Text → ℕ × ℕ
unfolding digit_value
read_digits base v count [] = (v, count)
read_digits base v count (c ∷ s) = elim (digit_value base c) [
  | some d ↦ read_digits base (v * base + d) (suc count) s
  | none ↦ (v, count)
]

-- `unsigned long` has 64 bits.
abbrev ulong_mod : ℕ
ulong_mod = 2 ^ 64

-- What the digits stand for, behind a sign and `skipped` characters.
stoul_digits : ℕ → Bool → ℕ → Text → Result (ℕ × ℕ)
unfolding read_digits
stoul_digits base negative skipped s =
    let r = read_digits base 0 0 s in
    if r.1 == 0
    then thrown (invalid_argument (codes "stoul"))
    else if leb ulong_mod r.0
    then thrown (out_of_range (codes "stoul"))
    else ok (if negative then (ulong_mod - r.0) % ulong_mod else r.0, skipped + r.1)

-- An optional `0x` before hexadecimal digits.
stoul_prefix : ℕ → Bool → ℕ → Text → Result (ℕ × ℕ)
unfolding stoul_digits digit_value
stoul_prefix base negative skipped (z ∷ x ∷ d ∷ s) =
    let hexadecimal = (base == 16) && (z == b'0') && ((x == b'x') || (x == b'X')) in
    elim (digit_value 16 d) [
      | some _ ↦
          if hexadecimal
          then stoul_digits base negative (skipped + 2) (d ∷ s)
          else stoul_digits base negative skipped (z ∷ x ∷ d ∷ s)
      | none ↦ stoul_digits base negative skipped (z ∷ x ∷ d ∷ s)
    ]
stoul_prefix base negative skipped s = stoul_digits base negative skipped s

stoul_sign : ℕ → ℕ → Text → Result (ℕ × ℕ)
unfolding stoul_prefix
stoul_sign base skipped [] = thrown (invalid_argument (codes "stoul"))
stoul_sign base skipped (c ∷ s) =
    if c == b'-'
    then stoul_prefix base true (suc skipped) s
    else if c == b'+'
    then stoul_prefix base false (suc skipped) s
    else stoul_prefix base false skipped (c ∷ s)

stoul_space : ℕ → ℕ → Text → Result (ℕ × ℕ)
unfolding stoul_sign is_space
stoul_space base skipped [] = stoul_sign base skipped []
stoul_space base skipped (c ∷ s) =
    let rest = stoul_space base (suc skipped) s in
    if is_space c then rest else stoul_sign base skipped (c ∷ s)

-- `std::stoul(s, &numCharsParsed, base)`: the value, and how many characters were read.
unfoldable pub stoul : ℕ → Text → Result (ℕ × ℕ)
unfolding stoul_space
stoul base s = stoul_space base 0 s

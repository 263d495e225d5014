-- ===== src/Stream/Json/Lexer/Emits.antt =====
-- What is read of a text that some tokens are written to.
use kssio.Prelude.{
  inr, inl, Bool-cases, All, ℕ, zero, suc, ◌+◌, ◌≤◌, ◌<◌, ◌≡◌, true, false, Option, none, some,
  List, [], ◌∷◌, ◌++◌, Text, refl, arith, replicate, append_assoc, length,
}
use kssio.Stream.Json.{all_numeric, is_number, encode_json, escape_loop}
use kssio.Stream.Decode.{decode}
use kssio.Stream.Json.Strings.{decode-escape_loop, read_json}
use kssio.Stream.Json.Tokens.{
  open_brace, close_brace, open_bracket, close_bracket, colon, comma, value_token, Token, string,
  number,
}
use kssio.Stream.Json.Lexer.{
  read_symbol, is_space, is_numeric, span_number, end_string, is_json_number, read_token,
  with_token, lex,
}

abbrev Lexes : Text → List Token → Type 0
Lexes s ts = (n : ℕ) × ((f : ℕ) → n ≤ f → lex f s ≡ some ts)

-- A text that stands for some tokens, in front of any other.
abbrev pub Emits : Text → (List Token → List Token) → Type 0
Emits w g = (u : Text) (ts : List Token) → Lexes u ts → Lexes (w ++ u) (g ts)

pub end-Lexes : Lexes [] []
unfolding lex
end-Lexes = (1, go)
  where
    go : (f : ℕ) → 1 ≤ f → lex f [] ≡ some []
    go zero h = absurd (omega (arith, h))
    go (suc f) h = refl

-- One step of the reader, once there is fuel for it.
step-Lexes :
    (m c : ℕ) (s u : Text) (o : Option Token) (ts ts' : List Token)
    → ((f : ℕ) → m ≤ f → read_token f c s ≡ some (o, u))
    → with_token o (some ts) ≡ some ts'
    → Lexes u ts
    → Lexes (c ∷ s) ts'
unfolding lex
step-Lexes m c s u o ts ts' e w (n, r) = (suc (m + n), go)
  where
    go : (f : ℕ) → suc (m + n) ≤ f → lex f (c ∷ s) ≡ some ts'
    go zero h = absurd (omega (arith, h))
    go (suc f) h = rw (lex, e f (omega (arith, h)), r f (omega (arith, h))) w

pub append-Emits :
    {g h : List Token → List Token} (a b : Text)
    → Emits a g
    → Emits b h
    → Emits (a ++ b) (λ ts. g (h ts))
append-Emits a b ea eb u ts r = rw (append_assoc a b u) (ea (b ++ u) _ (eb u ts r))

pub space-Emits : (c : ℕ) → is_space c ≡ true → Emits (c ∷ []) (λ ts. ts)
unfolding read_token with_token
space-Emits c e u ts r = step-Lexes 0 c u u none ts ts (λ f h. rw e refl) refl r

pub spaces-Emits : (k : ℕ) → Emits (replicate k b' ') (λ ts. ts)
spaces-Emits zero u ts r = r
spaces-Emits (suc k) u ts r =
    space-Emits b' ' refl (replicate k b' ' ++ u) ts (spaces-Emits k u ts r)

symbol-Emits :
    (c : ℕ) (t : Token)
    → ((f : ℕ) (s : Text) → read_token f c s ≡ some (some t, s))
    → Emits (c ∷ []) (λ ts. t ∷ ts)
unfolding with_token
symbol-Emits c t e u ts r = step-Lexes 0 c u u (some t) ts (t ∷ ts) (λ f h. e f u) refl r

pub open_brace-Emits : Emits (b'{' ∷ []) (λ ts. open_brace ∷ ts)
unfolding read_token read_symbol
open_brace-Emits = symbol-Emits b'{' open_brace (λ f s. refl)

pub close_brace-Emits : Emits (b'}' ∷ []) (λ ts. close_brace ∷ ts)
unfolding read_token read_symbol
close_brace-Emits = symbol-Emits b'}' close_brace (λ f s. refl)

pub open_bracket-Emits : Emits (b'[' ∷ []) (λ ts. open_bracket ∷ ts)
unfolding read_token read_symbol
open_bracket-Emits = symbol-Emits b'[' open_bracket (λ f s. refl)

pub close_bracket-Emits : Emits (b']' ∷ []) (λ ts. close_bracket ∷ ts)
unfolding read_token read_symbol
close_bracket-Emits = symbol-Emits b']' close_bracket (λ f s. refl)

pub colon-Emits : Emits (b':' ∷ []) (λ ts. colon ∷ ts)
unfolding read_token read_symbol
colon-Emits = symbol-Emits b':' colon (λ f s. refl)

pub comma_sign-Emits : Emits (b',' ∷ []) (λ ts. comma ∷ ts)
unfolding read_token read_symbol
comma_sign-Emits = symbol-Emits b',' comma (λ f s. refl)

-- The inside of a string, up to the quote behind it.
pub string-Emits :
    (s w : Text)
    → ((f : ℕ) (u : Text) → length s < f → decode read_json f (w ++ b'"' ∷ u) ≡ (s, b'"' ∷ u))
    → Emits (b'"' ∷ (w ++ b'"' ∷ [])) (λ ts. string s ∷ ts)
unfolding read_token end_string with_token
string-Emits s w e u ts r =
    step-Lexes (suc (length s)) b'"' ((w ++ b'"' ∷ []) ++ u) u (some (string s)) ts (string s ∷ ts)
      (λ f h. rw (append_assoc w (b'"' ∷ []) u, e f u (omega (arith, h))) refl) refl r

span_number-append :
    (s u : Text) (d : ℕ)
    → all_numeric s ≡ true
    → is_numeric d ≡ false
    → span_number (s ++ d ∷ u) ≡ (s, d ∷ u)
unfolding span_number all_numeric
span_number-append [] u d a e = rw e refl
span_number-append (c ∷ s) u d a e = ground (arith, span_number-append s u d)

-- What follows a number cannot go on with it.
abbrev pub EndsNumber : Text → Type 0
EndsNumber b = (u : Text) → (d : ℕ) × (v : Text) × (b ++ u ≡ d ∷ v) × (is_numeric d ≡ false)

all_numeric-split :
    (c : ℕ) (s : Text) → is_number (c ∷ s) ≡ true → (is_numeric c ≡ true) × (all_numeric s ≡ true)
unfolding is_number all_numeric
all_numeric-split c s e = ground (arith, e)

-- A digit or a point begins nothing else.
read_token-number :
    (f c : ℕ) (s t u : Text)
    → is_numeric c ≡ true
    → is_json_number (c ∷ t) ≡ true
    → span_number s ≡ (t, u)
    → read_token f c s ≡ some (some (number (c ∷ t)), u)
unfolding read_token span_number
read_token-number f c s t u e j spanned = rw (spanned, e, j) (ground (arith, e))

number-Emits :
    (s b : Text) (g : List Token → List Token)
    → is_number s ≡ true
    → is_json_number s ≡ true
    → EndsNumber b
    → Emits b g
    → Emits (s ++ b) (λ ts. number s ∷ g ts)
unfolding read_token with_token is_number
number-Emits [] b g numeric j ends eb u ts r = cc
number-Emits (c ∷ s) b g numeric j ends eb u ts r =
    let (d, v, e, other) = ends u in
    let (c_numeric, s_numeric) = all_numeric-split c s numeric in
    let spanned : span_number ((s ++ b) ++ u) ≡ (s, b ++ u) =
      rw (append_assoc s b u, e) (span_number-append s v d s_numeric other) in
    step-Lexes 0 c ((s ++ b) ++ u) (b ++ u) (some (number (c ∷ s))) (g ts) (number (c ∷ s) ∷ g ts)
      (λ f h. read_token-number f c ((s ++ b) ++ u) s (b ++ u) c_numeric j spanned) refl (eb u ts r)

pub value-Emits :
    (s b : Text) (g : List Token → List Token)
    → All (λ c. c < 256) s
    → (is_number s ≡ true → is_json_number s ≡ true)
    → EndsNumber b
    → Emits b g
    → Emits (encode_json s ++ b) (λ ts. value_token s ∷ g ts)
unfolding value_token encode_json
value-Emits s b g bytes j ends eb = elim (Bool-cases (is_number s)) [
  | inl numeric ↦ rw numeric (number-Emits s b g numeric (j numeric) ends eb)
  | inr other ↦ rw other (
      append-Emits (b'"' ∷ (escape_loop s ++ b'"' ∷ [])) b
        (string-Emits s (escape_loop s) (λ f u h. decode-escape_loop f s u bytes h)) eb)
]

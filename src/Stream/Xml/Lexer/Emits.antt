-- ===== src/Stream/Xml/Lexer/Emits.antt =====
-- What is read of a text of XML that some tokens are written to.
use kssio.Prelude.{
  ℕ, zero, suc, ◌+◌, ◌≤◌, ◌<◌, ◌≡◌, Bool, true, false, none, some, List, [], ◌∷◌, ◌++◌, Text, refl,
  arith, append_assoc, length, ap, ◌∙◌, All, is_empty, codes,
}
use kssio.Prelude.Int.{negsuc}
use kssio.Stream.Decode.{decode, escape_all, drop-append, decode-escape_all}
use kssio.Stream.Xml.{escape_xml, encode}
use kssio.Stream.Xml.Layout.{read_xml, read_xml-escape_xml, one_line, encode-one_line}
use kssio.Stream.Xml.Lexer.{
  XmlToken, character, start_tag, attribute, end_start, end_empty, close_tag, is_name, span_name,
  strip, token_then, read_start, read_markup, read_character, read_content, read_value,
  read_attribute, read_next, with_xml_token, lex_xml,
}

abbrev pub Lexes : Bool → Text → List XmlToken → Type 0
Lexes b s ts = (n : ℕ) × ((f : ℕ) → n ≤ f → lex_xml b f s ≡ some ts)

-- A text that stands for some tokens, in front of any other, in a tag or not before and behind it.
abbrev pub Emits : Bool → Bool → Text → (List XmlToken → List XmlToken) → Type 0
Emits b b' w g = (u : Text) (ts : List XmlToken) → Lexes b' u ts → Lexes b (w ++ u) (g ts)

pub end-Lexes : Lexes false [] []
unfolding lex_xml read_next read_content strip read_character read_xml
end-Lexes = (1, go)
  where
    go : (f : ℕ) → 1 ≤ f → lex_xml false f [] ≡ some []
    go zero h = absurd (omega (arith, h))
    go (suc f) h = refl

step-Lexes :
    (b b' : Bool) (m : ℕ) (s u : Text) (t : XmlToken) (ts : List XmlToken)
    → ((f : ℕ) → m ≤ f → read_next b f s ≡ some (t, b', u))
    → Lexes b' u ts
    → Lexes b s (t ∷ ts)
unfolding lex_xml with_xml_token
step-Lexes b b' m s u t ts e (n, r) = (suc (m + n), go)
  where
    go : (f : ℕ) → suc (m + n) ≤ f → lex_xml b f s ≡ some (t ∷ ts)
    go zero h = absurd (omega (arith, h))
    go (suc f) h = rw (lex_xml, e f (omega (arith, h)), r f (omega (arith, h))) refl

pub append-Emits :
    {g h : List XmlToken → List XmlToken} (b b' b'' : Bool) (v w : Text)
    → Emits b b' v g
    → Emits b' b'' w h
    → Emits b b'' (v ++ w) (λ ts. g (h ts))
append-Emits b b' b'' v w ev ew u ts r = rw (append_assoc v w u) (ev (w ++ u) _ (ew u ts r))

-- A character with its escape.
no_markup : (s : Text) (c k : ℕ) → read_xml s ≡ some (c, k) → strip (codes "<") s ≡ none
unfolding read_xml strip
no_markup [] c k e = refl
no_markup (d ∷ s) c k e = ground (arith, e)

pub character-Emits : (c : ℕ) → Emits false false (escape_xml c) (λ ts. character c ∷ ts)
unfolding read_next read_content read_character
character-Emits c u ts r =
    let w = escape_xml c in
    let e = read_xml-escape_xml c u in
    step-Lexes false false 0 (w ++ u) u (character c) ts
      (λ f h. rw (no_markup (w ++ u) c (length w) e, e, drop-append w u) refl) r

abbrev pub characters : Text → List XmlToken → List XmlToken
characters [] ts = ts
characters (c ∷ s) ts = character c ∷ characters s ts

pub characters-Emits : (s : Text) → Emits false false (escape_all escape_xml s) (characters s)
characters-Emits [] = λ u ts r. r
characters-Emits (c ∷ s) =
    append-Emits false false false (escape_xml c) (escape_all escape_xml s) (character-Emits c)
      (characters-Emits s)

-- What follows a name cannot go on with it.
abbrev pub EndsName : Text → Type 0
EndsName w = (u : Text) → (d : ℕ) × (v : Text) × (w ++ u ≡ d ∷ v) × (is_name d ≡ false)

abbrev pub IsName : Text → Type 0
IsName s = (is_empty s ≡ false) × All (λ c. is_name c ≡ true) s

span_name-append :
    (s u : Text) (d : ℕ)
    → All (λ c. is_name c ≡ true) s
    → is_name d ≡ false
    → span_name (s ++ d ∷ u) ≡ (s, d ∷ u)
unfolding span_name
span_name-append [] u d a e = rw e refl
span_name-append (c ∷ s) u d (h, a) e = ground (arith, h, span_name-append s u d a e)

span_name-before :
    (s w u : Text)
    → All (λ c. is_name c ≡ true) s
    → EndsName w
    → span_name (s ++ (w ++ u)) ≡ (s, w ++ u)
span_name-before s w u a ends =
    let (d, v, e, other) = ends u in rw e (span_name-append s v d a other)

no_slash : (s w : Text) → IsName s → strip (codes "/") (s ++ w) ≡ none
unfolding strip
no_slash [] w (e, a) = cc
no_slash (c ∷ s) w (e, (h, a)) = ground (arith, h)

-- The beginning of a start tag.
pub start-Emits :
    (b : Bool) (name w : Text) (g : List XmlToken → List XmlToken)
    → IsName name
    → EndsName w
    → Emits true b w g
    → Emits false b (b'<' ∷ (name ++ w)) (λ ts. start_tag name ∷ g ts)
unfolding read_next read_content read_markup read_start strip
start-Emits b name w g named ends ew u ts r =
    step-Lexes false true 0 (b'<' ∷ ((name ++ w) ++ u)) (w ++ u) (start_tag name) (g ts)
      (λ f h.
        rw (append_assoc name w u, no_slash name (w ++ u) named)
          (rw (read_markup, span_name-before name w u named.1 ends, named.0) refl))
      (ew u ts r)

-- The tag at the end of an element, with what follows.
pub close-Emits :
    (b : Bool) (name w : Text) (g : List XmlToken → List XmlToken)
    → IsName name
    → Emits false b w g
    → Emits false b (b'<' ∷ b'/' ∷ (name ++ b'>' ∷ w)) (λ ts. close_tag name ∷ g ts)
unfolding read_next read_content read_markup token_then strip
close-Emits b name w g named ew u ts r =
    step-Lexes false false 0 (b'<' ∷ b'/' ∷ ((name ++ b'>' ∷ w) ++ u)) (w ++ u) (close_tag name)
      (g ts)
      (λ f h.
        rw (append_assoc name (b'>' ∷ w) u, span_name-append name (w ++ u) b'>' named.1 refl) refl)
      (ew u ts r)

pub end_start-Emits : Emits true false (codes ">") (λ ts. end_start ∷ ts)
unfolding read_next read_attribute strip
end_start-Emits u ts r = step-Lexes true false 0 (b'>' ∷ u) u end_start ts (λ f h. refl) r

pub end_empty-Emits : Emits true false (codes "/>") (λ ts. end_empty ∷ ts)
unfolding read_next read_attribute token_then strip
end_empty-Emits u ts r = step-Lexes true false 0 (b'/' ∷ b'>' ∷ u) u end_empty ts (λ f h. refl) r

All-any : (s : Text) → All (λ c. Unit {0}) s
All-any [] = tt
All-any (c ∷ s) = (tt, All-any s)

decode-value :
    (fuel : ℕ) (value u : Text)
    → length (one_line value) < fuel
    → decode read_xml fuel (encode value (negsuc 0) ++ b'"' ∷ u) ≡ (one_line value, b'"' ∷ u)
unfolding read_xml
decode-value fuel value u h =
    ap (λ w. decode read_xml fuel (w ++ b'"' ∷ u)) (encode-one_line value)
    ∙ decode-escape_all read_xml escape_xml (λ c. Unit {0}) (λ c t x. read_xml-escape_xml c t) fuel
        (one_line value) (b'"' ∷ u) (All-any (one_line value)) h refl

-- An attribute, with what follows.
pub attribute-Emits :
    (b : Bool) (key value w : Text) (g : List XmlToken → List XmlToken)
    → IsName key
    → Emits true b w g
    → Emits true b
        (b' ' ∷ (key ++ (codes "=\"" ++ (encode value (negsuc 0) ++ b'"' ∷ w))))
        (λ ts. attribute key (one_line value) ∷ g ts)
unfolding read_next read_attribute read_value token_then strip
attribute-Emits b key value w g named ew u ts r =
    step-Lexes true true (suc (length (one_line value)))
      (b' ' ∷ ((key ++ (codes "=\"" ++ (encode value (negsuc 0) ++ b'"' ∷ w))) ++ u)) (w ++ u)
      (attribute key (one_line value)) (g ts)
      (λ f h.
        rw
          (
            append_assoc key (codes "=\"" ++ (encode value (negsuc 0) ++ b'"' ∷ w)) u,
            span_name-append key (b'"' ∷ ((encode value (negsuc 0) ++ b'"' ∷ w) ++ u)) b'=' named.1
                refl,
            append_assoc (encode value (negsuc 0)) (b'"' ∷ w) u,
            read_value,
            decode-value f value (w ++ u) (omega (arith, h)),
          )
          (rw
            (
              append_assoc key (codes "=\"" ++ (encode value (negsuc 0) ++ b'"' ∷ w)) u,
              span_name-append key (b'"' ∷ ((encode value (negsuc 0) ++ b'"' ∷ w) ++ u)) b'='
                  named.1 refl,
            )
            refl))
      (ew u ts r)

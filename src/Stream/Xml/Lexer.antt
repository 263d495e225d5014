-- ===== src/Stream/Xml/Lexer.antt =====
-- A reader of XML: the tags of a text, and the characters between them. It knows whether it is in
-- a tag.
pub mod Emits
use kssio.Prelude.{
  ℕ, zero, suc, Bool, true, false, not, ◌&&◌, ◌||◌, Option, none, some, List, [], ◌∷◌, Text, leb,
  ◌==◌, if◌then◌else◌, drop, is_empty, codes,
}
use kssio.Stream.Decode.{decode}
use kssio.Stream.Xml.Layout.{read_xml}

pub data XmlToken : Type 0 where
  character : ℕ → XmlToken
  start_tag : Text → XmlToken
  attribute : Text → Text → XmlToken
  end_start end_empty : XmlToken
  close_tag : Text → XmlToken

-- The characters of a name: no space, and none of the marks around one.
abbrev pub is_name : ℕ → Bool
is_name c =
    not (leb c b' ')
    && (not (c == b'/') && (not (c == b'=') && (not (c == b'>') && not (c == b'<'))))

-- A name, and what is behind it.
pub span_name : Text → Text × Text
span_name [] = ([], [])
span_name (c ∷ s) = let r = span_name s in if is_name c then (c ∷ r.0, r.1) else ([], c ∷ s)

-- What is behind a beginning.
unfoldable pub strip : Text → Text → Option Text
strip [] s = some s
strip (c ∷ p) [] = none
strip (c ∷ p) (d ∷ s) = if c == d then strip p s else none

-- A token, whether the reader is in a tag then, and what is left.
abbrev pub Read : Type 0
Read = Option (XmlToken × Bool × Text)

pub token_then : XmlToken → Bool → Option Text → Read
token_then t b none = none
token_then t b (some s) = some (t, b, s)

-- Behind `<`, and behind `</`.
pub read_start : Text × Text → Read
read_start (name, s) = if is_empty name then none else some (start_tag name, true, s)

pub read_markup : Text → Option Text → Read
unfolding read_start span_name token_then strip
read_markup s none = read_start (span_name s)
read_markup s (some closing) =
    let n = span_name closing in token_then (close_tag n.0) false (strip (codes ">") n.1)

pub read_character : Text → Option (ℕ × ℕ) → Read
read_character s none = none
read_character s (some (c, k)) = some (character c, false, drop k s)

pub read_content : Text → Option Text → Read
unfolding read_markup read_character strip
read_content s (some markup) = read_markup markup (strip (codes "/") markup)
read_content s none = read_character s (read_xml s)

-- Behind the space before an attribute, behind `="`, and behind the value.
pub read_value : ℕ → Text → Option Text → Read
unfolding token_then strip
read_value fuel key none = none
read_value fuel key (some s) =
    let v = decode read_xml fuel s in token_then (attribute key v.0) true (strip (codes "\"") v.1)

pub read_attribute : ℕ → Text → Option Text → Read
unfolding read_value span_name strip token_then
read_attribute fuel s (some behind) =
    let n = span_name behind in read_value fuel n.0 (strip (codes "=\"") n.1)
read_attribute fuel [] none = none
read_attribute fuel (c ∷ s) none =
    if c == b'>'
    then some (end_start, false, s)
    else token_then end_empty false (strip (codes "/>") (c ∷ s))

pub read_next : Bool → ℕ → Text → Read
unfolding read_content read_attribute strip
read_next false fuel s = read_content s (strip (codes "<") s)
read_next true fuel s = read_attribute fuel s (strip (codes " ") s)

pub with_xml_token : XmlToken → Option (List XmlToken) → Option (List XmlToken)
with_xml_token t none = none
with_xml_token t (some ts) = some (t ∷ ts)

unfoldable pub lex_xml : Bool → ℕ → Text → Option (List XmlToken)
unfolding read_next with_xml_token
lex_xml b zero s = none
lex_xml b (suc fuel) s = elim (read_next b fuel s) [
  | none ↦ if is_empty s then some [] else none
  | some r ↦ with_xml_token r.0 (lex_xml r.1 fuel r.2)
]

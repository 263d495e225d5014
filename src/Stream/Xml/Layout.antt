-- ===== src/Stream/Xml/Layout.antt =====
-- What the XML writer makes of a text.
use kssio.Prelude.{
  replicate, zero, suc, ◌*◌, ℕ, ◌==◌, ◌≡◌, ◌++◌, ◌∷◌, [], Bool, true, false, ◌&&◌, ◌||◌,
  if◌then◌else◌, Text, Option, some, none, Bool-cases, inl, inr, arith, refl, ap, ◌∙◌, sym, length,
  codes,
}
use kssio.Prelude.Int.{ℤ, pos, negsuc, leb_ℤ, pos_part}
use kssio.Stream.Decode.{escape_all}
use kssio.Stream.Xml.{escape_xml, encode, xml_indent}

-- The text without its ends of lines.
abbrev pub one_line : Text → Text
one_line [] = []
one_line (c ∷ s) = if c == b'\n' then one_line s else c ∷ one_line s

-- The text with its first line apart, and the second indented by the level; the other lines are
-- joined to the second.
abbrev pub layout : ℤ → Text → Text
layout level [] = []
layout level (c ∷ s) =
    if c == b'\n'
    then (if leb_ℤ level (pos 0)
        then layout level s
        else b'\n' ∷ (xml_indent (pos_part level) ++ one_line s))
    else c ∷ layout level s

-- The entity behind an ampersand, with its length.
abbrev is_prefix : Text → Text → Bool
is_prefix [] s = true
is_prefix (c ∷ p) [] = false
is_prefix (c ∷ p) (d ∷ s) = (c == d) && is_prefix p s

read_entity : Text → Option (ℕ × ℕ)
read_entity s =
    if is_prefix (codes "amp;") s
    then some (b'&', 5)
    else if is_prefix (codes "quot;") s
    then some (b'"', 6)
    else if is_prefix (codes "apos;") s
    then some (39, 6)
    else if is_prefix (codes "lt;") s
    then some (b'<', 4)
    else if is_prefix (codes "gt;") s
    then some (b'>', 4)
    else none

-- The first character of a text in XML: a tag and a quote end it.
unfoldable pub read_xml : Text → Option (ℕ × ℕ)
unfolding read_entity
read_xml [] = none
read_xml (c ∷ s) =
    if c == b'&' then read_entity s else if (c == b'<') || (c == b'"') then none else some (c, 1)

pub read_xml-escape_xml :
    (c : ℕ) (t : Text) → read_xml (escape_xml c ++ t) ≡ some (c, length (escape_xml c))
unfolding read_xml read_entity escape_xml
read_xml-escape_xml c t = ground arith

escape_all_spaces :
    (n : ℕ) (s : Text)
    → escape_all escape_xml (replicate n b' ' ++ s) ≡ replicate n b' ' ++ escape_all escape_xml s
unfolding escape_xml
escape_all_spaces zero s = refl
escape_all_spaces (suc n) s = ap (λ r. b' ' ∷ r) (escape_all_spaces n s)

pub encode-one_line : (s : Text) → encode s (negsuc 0) ≡ escape_all escape_xml (one_line s)
unfolding encode
encode-one_line [] = refl
encode-one_line (c ∷ s) = ground (arith, encode-one_line s)

-- The writer escapes the layout, character by character.
pub encode-layout : (s : Text) (level : ℤ) → encode s level ≡ escape_all escape_xml (layout level s)
unfolding encode escape_xml
encode-layout [] level = refl
encode-layout (c ∷ s) level = elim (Bool-cases (c == b'\n')) [
  | inl line_end ↦ elim (Bool-cases (leb_ℤ level (pos 0))) [
    | inl flat ↦ rw (line_end, flat) (encode-layout s level)
    | inr deep ↦
        rw (line_end, deep)
          (ap (λ (r : Text). b'\n' ∷ r)
            (ap (λ (r : Text). xml_indent (pos_part level) ++ r) (encode-one_line s)
              ∙ sym (escape_all_spaces (2 * pos_part level) (one_line s))))
  ]
  | inr other ↦ rw other (ap (λ (r : Text). escape_xml c ++ r) (encode-layout s level))
]

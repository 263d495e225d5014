-- ===== src/Stream/Xml/Tokens/Read.antt =====
-- What is read of the tokens of a node.
use kssio.Prelude.{
  ℕ, ◌+◌, ◌≡◌, Bool, true, ◌&&◌, Option, none, some, List, [], ◌∷◌, ◌++◌, Text, if◌then◌else◌, refl,
  is_empty, text_eq_refl, append-nil, ap, ◌∙◌,
}
use kssio.Prelude.Int.{pos}
use kssio.Stream.Xml.{
  XmlNode, xml_node, Generators, no_generator, generator, Children, no_child, child, xml_indent,
  is_childless,
}
use kssio.Stream.Xml.Layout.{layout}
use kssio.Stream.Xml.Lexer.{XmlToken, character, start_tag, end_start, end_empty, close_tag}
use kssio.Stream.Xml.Lexer.Emits.{characters}
use kssio.Stream.Xml.Tokens.{
  attribute_tokens, text_tokens, element_tokens, generators_tokens, children_tokens, element,
  Elements, no_element, element_and, Frame, frame, closes, read_start_tag, read_token, read_tokens,
}
use kssio.Stream.Xml.Written.{
  written_attributes, written_text, children_lines, generators_lines, written_element,
  written_generators, written_children,
}

-- The tokens are read as one frame that stands before some others.
abbrev Reads :
    List XmlToken → Option Text → List (Text × Text) → Text → Elements → List Frame → Type 0
Reads ts closing attributes text inner fs =
    read_tokens ts ≡ frame closing attributes text inner ∷ fs

read-attributes :
    (attributes : List (Text × Text)) (ts : List XmlToken) (closing : Option Text) (text : Text)
    (inner : Elements) (fs : List Frame)
    → Reads ts closing [] text inner fs
    → Reads (attribute_tokens attributes ts) closing (written_attributes attributes) text inner fs
unfolding attribute_tokens read_tokens read_token
read-attributes [] ts closing text inner fs h = h
read-attributes ((key, value) ∷ rest) ts closing text inner fs h =
    rw (read-attributes rest ts closing text inner fs h) refl

module _ (closing : Option Text) (attributes : List (Text × Text)) (fs : List Frame) where
  read-characters :
      (s : Text) (ts : List XmlToken) (text : Text) (inner : Elements)
      → Reads ts closing attributes text inner fs
      → Reads (characters s ts) closing attributes (s ++ text) inner fs
  unfolding read_tokens read_token
  read-characters [] ts text inner h = h
  read-characters (c ∷ s) ts text inner h = rw (read-characters s ts text inner h) refl

  read-end_line :
      (ts : List XmlToken) (text : Text) (inner : Elements)
      → Reads ts closing attributes text inner fs
      → Reads (character b'\n' ∷ ts) closing attributes (b'\n' ∷ text) inner fs
  unfolding read_tokens read_token
  read-end_line ts text inner h = rw h refl

  read-text :
      (text : Text) (level : ℕ) (ts : List XmlToken) (behind : Text) (inner : Elements)
      → Reads ts closing attributes behind inner fs
      → Reads
          (text_tokens text level ts)
          closing
          attributes
          (written_text text level behind)
          inner
          fs
  unfolding text_tokens
  read-text [] level ts behind inner h = h
  read-text (c ∷ s) level ts behind inner h =
      read-characters (xml_indent level) _ _ inner
        (read-characters (layout (pos level) (c ∷ s)) _ _ inner (read-end_line ts behind inner h))

-- The end of the element, behind all of its contents.
read-close :
    (name : Text) (level : ℕ) (ts : List XmlToken) (fs : List Frame)
    → read_tokens (character b'\n' ∷ ts) ≡ fs
    → Reads
        (characters (xml_indent level) (close_tag name ∷ character b'\n' ∷ ts))
        (some name)
        []
        (xml_indent level)
        no_element
        fs
unfolding read_tokens read_token
read-close name level ts fs h =
    read-characters (some name) [] fs (xml_indent level) _ [] no_element (rw h refl)
    ∙ ap (λ s. frame (some name) [] s no_element ∷ fs) (append-nil (xml_indent level))

abbrev end_tokens : Bool → List XmlToken → List XmlToken → List XmlToken
end_tokens b contents ts =
    if b then end_empty ∷ character b'\n' ∷ ts else end_start ∷ character b'\n' ∷ contents

read-contents :
    (name text : Text) (children : Generators) (level : ℕ) (ts inside : List XmlToken)
    (lines : Text) (fs : List Frame)
    → read_tokens (character b'\n' ∷ ts) ≡ fs
    → Reads inside (some name) [] lines (written_generators children level no_element) fs
    → (closing : Option Text) × (closes name closing ≡ true)
      × Reads
          (end_tokens (is_empty text && is_childless children) (text_tokens text level inside) ts)
          closing
          []
          (if is_empty text && is_childless children
            then []
            else b'\n' ∷ written_text text level lines)
          (written_generators children level no_element)
          fs
unfolding read_tokens read_token is_childless written_generators
read-contents name [] no_generator level ts inside lines fs h r = (none, refl, rw h refl)
read-contents name [] (generator made more) level ts inside lines fs h r = (
  some name,
  text_eq_refl name,
  read-end_line (some name) [] fs (text_tokens [] level inside) _ _
      (read-text (some name) [] fs [] level inside lines _ r),
)
read-contents name (c ∷ s) children level ts inside lines fs h r = (
  some name,
  text_eq_refl name,
  read-end_line (some name) [] fs (text_tokens (c ∷ s) level inside) _ _
      (read-text (some name) [] fs (c ∷ s) level inside lines _ r),
)

-- The start tag of an element that is read, in another one.
read-start :
    (name : Text) (closing : Option Text) (own : List (Text × Text)) (text : Text)
    (inner : Elements) (ts : List XmlToken) (around : Option Text) (attributes : List (Text × Text))
    (behind : Text) (elements : Elements) (fs : List Frame)
    → closes name closing ≡ true
    → Reads ts closing own text inner (frame around attributes behind elements ∷ fs)
    → Reads
        (start_tag name ∷ ts)
        around
        attributes
        behind
        (element_and (element name own text inner) elements)
        fs
unfolding read_tokens read_token read_start_tag
read-start name closing own text inner ts around attributes behind elements fs e h = rw (h, e) refl

mutual
  unfolding element_tokens generators_tokens children_tokens written_element written_generators
      written_children read_tokens read_token is_childless

  pub read-element :
      (n : XmlNode) (level : ℕ) (ts : List XmlToken) (closing : Option Text)
      (attributes : List (Text × Text)) (behind : Text) (inner : Elements) (fs : List Frame)
      → Reads ts closing attributes behind inner fs
      → Reads
          (element_tokens n level ts)
          closing
          attributes
          (xml_indent level ++ b'\n' ∷ behind)
          (element_and (written_element n level) inner)
          fs
  read-element (xml_node name own text children) level ts closing attributes behind inner fs h =
      let around = read-end_line closing attributes fs ts behind inner h in
      let frames = frame closing attributes (b'\n' ∷ behind) inner ∷ fs in
      let ends = characters (xml_indent level) (close_tag name ∷ character b'\n' ∷ ts) in
      let inside = generators_tokens children (level + 1) ends in
      let all_behind =
        end_tokens (is_empty text && is_childless children) (text_tokens text (level + 1) inside)
          ts in
      let (ending, e, contents) =
        read-contents name text children (level + 1) ts inside _ frames around (
          read-generators children (level + 1) ends (some name) [] _ no_element frames
            (read-close name level ts frames around)) in
      read-characters closing attributes fs (xml_indent level)
        (start_tag name ∷ attribute_tokens own all_behind) (b'\n' ∷ behind) _
        (read-start name ending (written_attributes own) _ _ (attribute_tokens own all_behind)
          closing attributes (b'\n' ∷ behind) inner fs e
          (read-attributes own all_behind ending _ _ frames contents))

  read-generators :
      (g : Generators) (level : ℕ) (ts : List XmlToken) (closing : Option Text)
      (attributes : List (Text × Text)) (behind : Text) (inner : Elements) (fs : List Frame)
      → Reads ts closing attributes behind inner fs
      → Reads
          (generators_tokens g level ts)
          closing
          attributes
          (generators_lines g level behind)
          (written_generators g level inner)
          fs
  read-generators no_generator level ts closing attributes behind inner fs h = h
  read-generators (generator made more) level ts closing attributes behind inner fs h =
      read-children made level (generators_tokens more level ts) closing attributes _ _ fs
        (read-generators more level ts closing attributes behind inner fs h)

  read-children :
      (c : Children) (level : ℕ) (ts : List XmlToken) (closing : Option Text)
      (attributes : List (Text × Text)) (behind : Text) (inner : Elements) (fs : List Frame)
      → Reads ts closing attributes behind inner fs
      → Reads
          (children_tokens c level ts)
          closing
          attributes
          (children_lines c level behind)
          (written_children c level inner)
          fs
  read-children no_child level ts closing attributes behind inner fs h = h
  read-children (child n more) level ts closing attributes behind inner fs h =
      read-element n level (children_tokens more level ts) closing attributes _ _ fs
        (read-children more level ts closing attributes behind inner fs h)

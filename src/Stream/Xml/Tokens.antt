-- ===== src/Stream/Xml/Tokens.antt =====
-- The tokens of a node, and the element that a reader makes of tokens.
pub mod Read
use kssio.Prelude.{
  ℕ, suc, ◌+◌, ◌≡◌, Bool, true, false, ◌&&◌, Option, none, some, List, [], ◌∷◌, ◌++◌, Text,
  if◌then◌else◌, is_empty, text_eq,
}
use kssio.Prelude.Int.{pos, negsuc}
use kssio.Stream.Xml.{
  XmlNode, xml_node, Generators, no_generator, generator, Children, no_child, child, xml_indent,
  is_childless,
}
use kssio.Stream.Xml.Layout.{layout, one_line}
use kssio.Stream.Xml.Lexer.{
  XmlToken, character, start_tag, attribute, end_start, end_empty, close_tag,
}
use kssio.Stream.Xml.Lexer.Emits.{characters}

-- The tokens of the parts of a document, in front of some others.
unfoldable pub attribute_tokens : List (Text × Text) → List XmlToken → List XmlToken
attribute_tokens [] ts = ts
attribute_tokens ((key, value) ∷ rest) ts =
    attribute key (one_line value) ∷ attribute_tokens rest ts

unfoldable pub text_tokens : Text → ℕ → List XmlToken → List XmlToken
text_tokens text level ts =
    if is_empty text
    then ts
    else characters (xml_indent level) (characters (layout (pos level) text) (character b'\n' ∷ ts))

unfoldable mutual
  unfolding attribute_tokens text_tokens is_childless

  pub element_tokens : XmlNode → ℕ → List XmlToken → List XmlToken
  element_tokens (xml_node name attributes text children) level ts =
      let inner =
        generators_tokens children (level + 1)
          (characters (xml_indent level) (close_tag name ∷ character b'\n' ∷ ts)) in
      characters (xml_indent level) (
        start_tag name
        ∷ attribute_tokens attributes (
            if is_empty text && is_childless children
            then end_empty ∷ character b'\n' ∷ ts
            else end_start ∷ character b'\n' ∷ text_tokens text (level + 1) inner))

  pub generators_tokens : Generators → ℕ → List XmlToken → List XmlToken
  generators_tokens no_generator level ts = ts
  generators_tokens (generator made more) level ts =
      children_tokens made level (generators_tokens more level ts)

  pub children_tokens : Children → ℕ → List XmlToken → List XmlToken
  children_tokens no_child level ts = ts
  children_tokens (child n more) level ts = element_tokens n level (children_tokens more level ts)

-- An element with its name, its attributes, all its own characters and the elements in it.
mutual
  pub data Element : Type 0 where
    element : Text → List (Text × Text) → Text → Elements → Element

  pub data Elements : Type 0 where
    no_element : Elements
    element_and : Element → Elements → Elements

-- What is read of an element so far, the tokens from the last to the first: the name at its end if
-- it has one, and the attributes, the characters and the elements.
pub data Frame : Type 0 where
  frame : Option Text → List (Text × Text) → Text → Elements → Frame

abbrev pub closes : Text → Option Text → Bool
closes name none = true
closes name (some closing) = text_eq name closing

-- A start tag ends the reading of its element, which is then the first one in the element around it.
unfoldable pub read_start_tag : Text → List Frame → List Frame
read_start_tag name [] = []
read_start_tag name (f ∷ []) = []
read_start_tag name
      (frame closing attributes text inner
        ∷ frame around_closing around_attributes around_text around
        ∷ fs) =
    if closes name closing
    then frame around_closing around_attributes around_text
        (element_and (element name attributes text inner) around)
      ∷ fs
    else []

unfoldable pub read_token : XmlToken → List Frame → List Frame
unfolding read_start_tag
read_token (start_tag name) fs = read_start_tag name fs
read_token (close_tag name) fs = frame (some name) [] [] no_element ∷ fs
read_token end_empty fs = frame none [] [] no_element ∷ fs
read_token end_start fs = fs
read_token (character c) [] = []
read_token (character c) (frame closing attributes text inner ∷ fs) =
    frame closing attributes (c ∷ text) inner ∷ fs
read_token (attribute key value) [] = []
read_token (attribute key value) (frame closing attributes text inner ∷ fs) =
    frame closing ((key, value) ∷ attributes) text inner ∷ fs

unfoldable pub read_tokens : List XmlToken → List Frame
unfolding read_token
read_tokens [] = frame none [] [] no_element ∷ []
read_tokens (t ∷ ts) = read_token t (read_tokens ts)

-- ===== src/Stream/Xml/RoundTrip.antt =====
-- A reader of XML makes of a written document the element that its root is written as.
use kssio.Prelude.{
  ℕ, ◌≤◌, ◌≡◌, false, Option, none, some, List, [], ◌∷◌, Text, refl, append-nil, ap, ◌∙◌, sym,
  codes,
}
use kssio.Stream.Xml.{XmlNode, write_xml_node, write_xml}
use kssio.Stream.Xml.Lexer.{XmlToken, strip, lex_xml}
use kssio.Stream.Xml.Lexer.Emits.{end-Lexes}
use kssio.Stream.Xml.Document.{IsNamed, element-Emits}
use kssio.Stream.Xml.Tokens.{
  element_tokens, Element, Elements, no_element, element_and, Frame, frame, read_tokens,
}
use kssio.Stream.Xml.Tokens.Read.{read-element}
use kssio.Stream.Xml.Written.{written_element}

-- The declaration at the beginning of a document.
abbrev declaration : Text
declaration = codes "<?xml version=\"1.0\" encoding=\"UTF-8\"?>\n"

-- The tokens behind the declaration of a document.
unfoldable lex_document : ℕ → Text → Option (List XmlToken)
unfolding strip
lex_document fuel s = elim (strip declaration s) [
  | none ↦ none
  | some body ↦ lex_xml false fuel body
]

-- The only element of a document.
only_element : Elements → Option Element
only_element no_element = none
only_element (element_and e no_element) = some e
only_element (element_and e (element_and f es)) = none

root_element : List Frame → Option Element
unfolding only_element
root_element [] = none
root_element (frame closing attributes text inner ∷ []) = only_element inner
root_element (f ∷ g ∷ fs) = none

pub read_xml_document : ℕ → Text → Option Element
unfolding lex_document root_element
read_xml_document fuel s = elim (lex_document fuel s) [
  | none ↦ none
  | some ts ↦ root_element (read_tokens ts)
]

lex_document-write :
    (root : XmlNode)
    → IsNamed root
    → (n : ℕ) × ((f : ℕ)
        → n ≤ f
        → lex_document f (write_xml root) ≡ some (element_tokens root 0 []))
unfolding lex_document strip write_xml
lex_document-write root named =
    let (n, r) = element-Emits root 0 named [] [] end-Lexes in
    (n, λ f h. ap (lex_xml false f) (sym (append-nil (write_xml_node root 0))) ∙ r f h)

-- A document that is written from a node whose names can be told from what follows them is read
-- back, given enough fuel, as one element: the name of the node, its attributes in their order
-- without the ends of lines in the values, the elements of its children in theirs, and as its own
-- characters the layout of its text and the lines of the children.
pub read_xml_document-write :
    (root : XmlNode)
    → IsNamed root
    → (n : ℕ) × ((f : ℕ)
        → n ≤ f
        → read_xml_document f (write_xml root) ≡ some (written_element root 0))
unfolding read_xml_document root_element only_element read_tokens
read_xml_document-write root named =
    let (n, r) = lex_document-write root named in
    (
      n,
      λ f h.
          rw (read_xml_document, r f h, read-element root 0 [] none [] [] no_element [] refl) refl,
    )

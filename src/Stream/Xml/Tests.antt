-- ===== src/Stream/Xml/Tests.antt =====
-- Concrete XML.
use kssio.Prelude.{ℕ, ◌≤◌, some, ◌≡◌, ◌∷◌, [], refl, codes}
use kssio.Prelude.Int.{pos}
use kssio.Stream.Xml.Document.{IsNamed, AreNamedBy, AreNamed}
use kssio.Stream.Xml.Written.{written_element}
use kssio.Stream.Xml.RoundTrip.{read_xml_document, read_xml_document-write}
use kssio.Stream.Xml.{
  XmlNode, xml_node, no_generator, generator, no_child, child, write_xml, encode,
}

abbrev leaf : XmlNode
leaf = xml_node (codes "b") ((codes "k", codes "x<y") ∷ []) [] no_generator

written :
    write_xml
      (xml_node (codes "a") [] [] (generator (child leaf (child leaf no_child)) no_generator))
    ≡ codes
        "<?xml version=\"1.0\" encoding=\"UTF-8\"?>\n<a>\n  <b k=\"x&lt;y\"/>\n  <b k=\"x&lt;y\"/>\n</a>\n"
unfolding write_xml encode kssio.Stream.Xml.escape_xml
written = refl

-- The third line is joined to the second.
three_lines : encode (codes "a\nb\nc") (pos 1) ≡ codes "a\n  bc"
unfolding encode kssio.Stream.Xml.escape_xml
three_lines = refl

abbrev tree : XmlNode
tree =
    xml_node (codes "a") ((codes "k", codes "x<y") ∷ []) (codes "a\n&b")
      (generator (child (xml_node (codes "b") [] [] no_generator) no_child) no_generator)

read_xml_document-write_example :
    (n : ℕ) × ((f : ℕ)
      → n ≤ f
      → read_xml_document f (write_xml tree) ≡ some (written_element tree 0))
unfolding IsNamed AreNamedBy AreNamed
read_xml_document-write_example =
    read_xml_document-write tree
      ((refl, (refl, tt)), ((refl, (refl, tt)), tt), ((((refl, (refl, tt)), tt, tt), tt), tt))

-- ===== src/Stream/Xml/Written.antt =====
-- The element that a node is written as.
use kssio.Prelude.{ℕ, ◌+◌, ◌&&◌, List, [], ◌∷◌, ◌++◌, Text, if◌then◌else◌, is_empty}
use kssio.Prelude.Int.{pos}
use kssio.Stream.Xml.{
  XmlNode, xml_node, Generators, no_generator, generator, Children, no_child, child, xml_indent,
  is_childless,
}
use kssio.Stream.Xml.Layout.{layout, one_line}
use kssio.Stream.Xml.Tokens.{Element, element, Elements, no_element, element_and}

-- It has the attributes without ends of lines, and as its own characters the text on its lines and
-- the lines of the children.
abbrev pub written_attributes : List (Text × Text) → List (Text × Text)
written_attributes [] = []
written_attributes ((key, value) ∷ rest) = (key, one_line value) ∷ written_attributes rest

abbrev pub written_text : Text → ℕ → Text → Text
written_text text level behind =
    if is_empty text
    then behind
    else xml_indent level ++ (layout (pos level) text ++ b'\n' ∷ behind)

abbrev pub children_lines : Children → ℕ → Text → Text
children_lines no_child level behind = behind
children_lines (child n more) level behind =
    xml_indent level ++ b'\n' ∷ children_lines more level behind

abbrev pub generators_lines : Generators → ℕ → Text → Text
generators_lines no_generator level behind = behind
generators_lines (generator made more) level behind =
    children_lines made level (generators_lines more level behind)

unfoldable mutual
  pub written_element : XmlNode → ℕ → Element
  written_element (xml_node name attributes text children) level =
      element name (written_attributes attributes)
        (if is_empty text && is_childless children
          then []
          else b'\n'
            ∷ written_text text (level + 1)
                (generators_lines children (level + 1) (xml_indent level)))
        (written_generators children (level + 1) no_element)

  pub written_generators : Generators → ℕ → Elements → Elements
  written_generators no_generator level behind = behind
  written_generators (generator made more) level behind =
      written_children made level (written_generators more level behind)

  pub written_children : Children → ℕ → Elements → Elements
  written_children no_child level behind = behind
  written_children (child n more) level behind =
      element_and (written_element n level) (written_children more level behind)

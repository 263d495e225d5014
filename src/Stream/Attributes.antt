-- ===== src/Stream/Attributes.antt =====
-- `operator[]` and `clear` of the nodes of Sources/simple_json_writer.hpp and
-- simple_xml_writer.hpp. The assignment to a key of a `std::map` is a parameter.
mod Tests
use kssio.Prelude.{List, [], Text}
use kssio.Stream.Json.{Node, node, no_array}
use kssio.Stream.Xml.{XmlNode, xml_node, no_generator}

module _ (assign : Text → Text → List (Text × Text) → List (Text × Text)) where
  -- `json[key] = value`
  pub json_assign : Text → Text → Node → Node
  json_assign key value (node attributes arrays) = node (assign key value attributes) arrays

  -- `xml[key] = value`
  pub xml_assign : Text → Text → XmlNode → XmlNode
  xml_assign key value (xml_node name attributes text children) =
      xml_node name (assign key value attributes) text children

-- `clear`
pub json_clear : Node → Node
json_clear json = node [] no_array

pub xml_clear : XmlNode → XmlNode
xml_clear n = xml_node [] [] [] no_generator

-- ===== src/Stream/Attributes/Tests.antt =====
-- Concrete attributes.
use kssio.Prelude.{[], ◌∷◌, ◌≡◌, refl, codes, Text, List}
use kssio.Stream.Json.{Node, node, no_array, array, no_node}
use kssio.Stream.Xml.{xml_node, no_generator}
use kssio.Stream.Attributes.{json_assign, json_clear, xml_assign, xml_clear}

-- What a map does with a key that comes before its keys.
abbrev put_first : Text → Text → List (Text × Text) → List (Text × Text)
put_first key value attributes = (key, value) ∷ attributes

abbrev one_array : Node
one_array = node ((codes "b", codes "1") ∷ []) (array (codes "c") no_node no_array)

assigned :
    json_assign put_first (codes "a") (codes "2") one_array
    ≡ node
        ((codes "a", codes "2") ∷ (codes "b", codes "1") ∷ [])
        (array (codes "c") no_node no_array)
unfolding json_assign
assigned = refl

cleared : json_clear one_array ≡ node [] no_array
unfolding json_clear
cleared = refl

xml_assigned :
    xml_assign put_first (codes "k") (codes "v") (xml_node (codes "n") [] [] no_generator)
    ≡ xml_node (codes "n") ((codes "k", codes "v") ∷ []) [] no_generator
unfolding xml_assign
xml_assigned = refl

xml_cleared :
    xml_clear (xml_node (codes "n") [] (codes "t") no_generator) ≡ xml_node [] [] [] no_generator
unfolding xml_clear
xml_cleared = refl

-- ===== src/Stream/Xml.antt =====
-- Sources/simple_xml_writer.hpp. A stream that is written to is the text behind it; a generator
-- of children is the list of the nodes that it returns before its null pointer.
pub mod Layout
pub mod Lexer
pub mod Tokens
pub mod Written
pub mod Document
pub mod RoundTrip
mod Tests
use kssio.Prelude.{
  ℕ, zero, suc, ◌+◌, ◌*◌, Bool, true, false, not, ◌&&◌, ◌||◌, List, [], ◌∷◌, ◌++◌, leb, ◌==◌,
  if◌then◌else◌, is_empty, replicate, Text, codes,
}
use kssio.Prelude.Int.{ℤ, pos, negsuc, leb_ℤ, pos_part}

mutual
  -- The name, the attributes in the order of the map's keys, the text, and one list of children
  -- for each generator.
  pub data XmlNode : Type 0 where
    xml_node : Text → List (Text × Text) → Text → Generators → XmlNode

  pub data Generators : Type 0 where
    no_generator : Generators
    generator : Children → Generators → Generators

  pub data Children : Type 0 where
    no_child : Children
    child : XmlNode → Children → Children

abbrev pub xml_indent : ℕ → Text
xml_indent indent_level = replicate (2 * indent_level) b' '

-- The `switch` without its case for the end of a line.
pub escape_xml : ℕ → Text
escape_xml c =
    if c == b'&'
    then codes "&amp;"
    else if c == b'"'
    then codes "&quot;"
    else if c == 39
    then codes "&apos;"
    else if c == b'<'
    then codes "&lt;"
    else if c == b'>'
    then codes "&gt;"
    else c ∷ []

-- The loop over the characters. `while (indentLevel--)` counts a positive level down to -1, so the
-- next end of a line finds it negative.
pub encode : Text → ℤ → Text
encode [] indent_level = []
encode (c ∷ data_left) indent_level =
    let same = encode data_left indent_level in
    let indented = encode data_left (negsuc 0) in
    if c == b'\n'
    then (if leb_ℤ indent_level (pos 0)
        then same
        else b'\n' ∷ (xml_indent (pos_part indent_level) ++ indented))
    else escape_xml c ++ same

abbrev xml_endl : Text
xml_endl = b'\n' ∷ []

write_xml_attributes : List (Text × Text) → Text
write_xml_attributes [] = []
write_xml_attributes ((key, value) ∷ rest) =
    b' ' ∷ (key ++ (codes "=\"" ++ (encode value (negsuc 0) ++ (b'"' ∷ write_xml_attributes rest))))

unfoldable pub is_childless : Generators → Bool
is_childless no_generator = true
is_childless (generator made more) = false

unfoldable mutual
  unfolding write_xml_attributes is_childless

  pub write_xml_node : XmlNode → ℕ → Text
  write_xml_node (xml_node name attributes text children) indent_level =
      let single_line = is_empty text && is_childless children in
      let contents = write_generators children (indent_level + 1) in
      xml_indent indent_level
      ++ (b'<'
          ∷ (name
              ++ (write_xml_attributes attributes
                  ++ ((if single_line then codes "/>" else codes ">")
                      ++ (xml_endl
                          ++ (if single_line
                              then []
                              else (if is_empty text
                                  then []
                                  else xml_indent (indent_level + 1)
                                    ++ (encode text (pos (indent_level + 1)) ++ xml_endl))
                                ++ (contents
                                    ++ (xml_indent indent_level
                                        ++ (codes "</" ++ (name ++ (b'>' ∷ xml_endl)))))))))))

  -- The loop over the generators, and the loop over the children of one.
  pub write_generators : Generators → ℕ → Text
  write_generators no_generator indent_level = []
  write_generators (generator made more) indent_level =
      write_children made indent_level ++ write_generators more indent_level

  pub write_children : Children → ℕ → Text
  write_children no_child indent_level = []
  write_children (child n more) indent_level =
      write_xml_node n indent_level ++ write_children more indent_level

pub write_xml : XmlNode → Text
unfolding write_xml_node
write_xml root =
    codes "<?xml version=\"1.0\" encoding=\"UTF-8\"?>" ++ (xml_endl ++ write_xml_node root 0)

-- ===== src/Stream/Json.antt =====
-- Sources/simple_json_writer.hpp. A stream that is written to is the text behind it; a generator
-- of children is the list of the nodes that it returns before its null pointer.
pub mod Strings
pub mod Tokens
pub mod Lexer
pub mod Document
mod Tests
use kssio.Prelude.{
  ℕ, zero, suc, ◌+◌, ◌*◌, Bool, true, false, not, ◌&&◌, ◌||◌, List, [], ◌∷◌, ◌++◌, leb, ◌==◌,
  if◌then◌else◌, is_empty, replicate, Text, codes,
}
use kssio.Net.Text.{print_padded}

mutual
  -- The attributes stand in the order of the map's keys.
  pub data Node : Type 0 where
    node : List (Text × Text) → Arrays → Node

  pub data Arrays : Type 0 where
    no_array : Arrays
    array : Text → Nodes → Arrays → Arrays

  pub data Nodes : Type 0 where
    no_node : Nodes
    next : Node → Nodes → Nodes

-- `isdigit(c) || c == '.'`, for every character.
pub all_numeric : Text → Bool
all_numeric [] = true
all_numeric (c ∷ s) = ((leb b'0' c && leb c b'9') || (c == b'.')) && all_numeric s

pub is_number : Text → Bool
unfolding all_numeric
is_number s = not (is_empty s) && all_numeric s

-- The `switch`. A `char` of 128 or more is negative where `char` is signed, and not below 32 where
-- it is not, so it takes the last branch.
pub escape_char : ℕ → Text
escape_char c =
    if c == b'"'
    then codes "\\\""
    else if c == b'\\'
    then codes "\\\\"
    else if c == 8
    then codes "\\b"
    else if c == 12
    then codes "\\f"
    else if c == b'\n'
    then codes "\\n"
    else if c == b'\r'
    then codes "\\r"
    else if c == b'\t'
    then codes "\\t"
    else if leb c 31
    then codes "\\u" ++ print_padded 16 4 c
    else c ∷ []

pub escape_loop : Text → Text
escape_loop [] = []
escape_loop (c ∷ s) = escape_char c ++ escape_loop s

pub encode_json : Text → Text
unfolding escape_loop
encode_json s = if is_number s then s else b'"' ∷ (escape_loop s ++ b'"' ∷ [])

abbrev indent : ℕ → ℕ → Text
indent indent_level extra_spaces = replicate (indent_level * 4 + extra_spaces) b' '

abbrev endl : Text
endl = b'\n' ∷ []

has_arrays : Arrays → Bool
has_arrays no_array = false
has_arrays (array key nodes more) = true

has_nodes : Nodes → Bool
has_nodes no_node = false
has_nodes (next n more) = true

-- The loop over the attributes; there is a comma unless the entry is the last and no array follows.
write_attributes : ℕ → List (Text × Text) → Bool → Text
write_attributes indent_level [] arrays_follow = []
write_attributes indent_level ((key, value) ∷ rest) arrays_follow =
    indent indent_level 2
    ++ (b'"'
        ∷ (key
            ++ (codes "\": "
                ++ (encode_json value
                    ++ ((if not (is_empty rest) || arrays_follow then codes "," else [])
                        ++ (endl ++ write_attributes indent_level rest arrays_follow))))))

unfoldable mutual
  unfolding has_arrays has_nodes write_attributes

  pub write_with_indent : Node → ℕ → Bool → Text
  write_with_indent (node attributes arrays) indent_level need_trailing_comma =
      indent indent_level 0
      ++ (codes "{"
          ++ (endl
              ++ (write_attributes indent_level attributes (has_arrays arrays)
                  ++ (write_arrays arrays indent_level
                      ++ (indent indent_level 0
                          ++ (codes "}"
                              ++ ((if need_trailing_comma then codes "," else []) ++ endl)))))))

  -- The loop over the arrays, with writeChildInArray for each.
  pub write_arrays : Arrays → ℕ → Text
  write_arrays no_array indent_level = []
  write_arrays (array key nodes more) indent_level =
      indent indent_level 2
      ++ (b'"'
          ∷ (key
              ++ (codes "\": ["
                  ++ (endl
                      ++ (write_nodes nodes (indent_level + 1)
                          ++ (indent indent_level 2
                              ++ (codes "]"
                                  ++ ((if has_arrays more then codes "," else [])
                                      ++ (endl ++ write_arrays more indent_level)))))))))

  -- The loop over the children: the next one is fetched before one is written.
  pub write_nodes : Nodes → ℕ → Text
  write_nodes no_node indent_level = []
  write_nodes (next n more) indent_level =
      write_with_indent n indent_level (has_nodes more) ++ write_nodes more indent_level

unfoldable pub write : Node → Text
unfolding write_with_indent
write json = write_with_indent json 0 false

-- ===== src/Stream/Json/Tokens.antt =====
-- A strict reader of the JSON that stands for nodes: the tokens of a node, and the node that some
-- tokens stand for.
pub mod Read
use kssio.Prelude.{
  ℕ, zero, suc, ◌+◌, Bool, true, false, not, ◌||◌, Option, none, some, List, [], ◌∷◌, ◌++◌, Text,
  is_empty, if◌then◌else◌,
}
use kssio.Stream.Json.{
  Node, node, Arrays, no_array, array, Nodes, no_node, next, has_arrays, has_nodes, is_number,
}

-- A value keeps its text, whether it is written as a number or as a string.
pub data Token : Type 0 where
  open_brace close_brace open_bracket close_bracket colon comma : Token
  string number : Text → Token

-- The tokens of some parts of a document, in front of some others.
abbrev pub comma_if : Bool → List Token → List Token
comma_if b ts = if b then comma ∷ ts else ts

unfoldable pub value_token : Text → Token
value_token s = if is_number s then number s else string s

unfoldable pub attribute_tokens : List (Text × Text) → Bool → List Token → List Token
unfolding value_token
attribute_tokens [] arrays_follow ts = ts
attribute_tokens ((key, value) ∷ rest) arrays_follow ts =
    string key
    ∷ colon
    ∷ value_token value
    ∷ comma_if (not (is_empty rest) || arrays_follow) (attribute_tokens rest arrays_follow ts)

unfoldable mutual
  unfolding has_arrays has_nodes attribute_tokens

  pub node_tokens : Node → List Token → List Token
  node_tokens (node attributes arrays) ts =
      open_brace
      ∷ attribute_tokens attributes (has_arrays arrays) (array_tokens arrays (close_brace ∷ ts))

  pub array_tokens : Arrays → List Token → List Token
  array_tokens no_array ts = ts
  array_tokens (array key nodes more) ts =
      string key
      ∷ colon
      ∷ open_bracket
      ∷ nodes_tokens nodes (close_bracket ∷ comma_if (has_arrays more) (array_tokens more ts))

  pub nodes_tokens : Nodes → List Token → List Token
  nodes_tokens no_node ts = ts
  nodes_tokens (next n more) ts = node_tokens n (comma_if (has_nodes more) (nodes_tokens more ts))

-- Behind a member or an element: the end, or a comma with another one behind it.
is_close : Token → Bool
is_close close_brace = true
is_close close_bracket = true
is_close t = false

behind_comma : List Token → Option (List Token)
unfolding is_close
behind_comma [] = none
behind_comma (t ∷ ts) = if is_close t then none else some (t ∷ ts)

behind_item : List Token → Option (List Token)
unfolding behind_comma is_close
behind_item [] = none
behind_item (comma ∷ ts) = behind_comma ts
behind_item (t ∷ ts) = if is_close t then some (t ∷ ts) else none

with_attribute : Text → Text → Option (Node × List Token) → Option (Node × List Token)
with_attribute key value none = none
with_attribute key value (some (node attributes arrays, ts)) =
    some (node ((key, value) ∷ attributes) arrays, ts)

-- The arrays stand behind the attributes.
with_array : Text → Nodes → Option (Node × List Token) → Option (Node × List Token)
with_array key nodes none = none
with_array key nodes (some (node [] arrays, ts)) = some (node [] (array key nodes arrays), ts)
with_array key nodes (some (node (a ∷ attributes) arrays, ts)) = none

with_node : Node → Option (Nodes × List Token) → Option (Nodes × List Token)
with_node n none = none
with_node n (some (more, ts)) = some (next n more, ts)

-- What follows an item, where there is an item.
if_behind : {A : Type 0} → (List Token → Option A) → Option (List Token) → Option A
if_behind f none = none
if_behind f (some ts) = f ts

-- What is read of the rest of an object, and of the rest of an array, on fuel.
mutual
  unfolding behind_item with_attribute with_array with_node if_behind

  read_members : ℕ → List Token → Option (Node × List Token)
  read_members zero ts = none
  read_members (suc fuel) (close_brace ∷ ts) = some (node [] no_array, ts)
  read_members (suc fuel) (string key ∷ colon ∷ t ∷ ts) = read_member fuel key t ts
  read_members (suc fuel) ts = none

  read_member : ℕ → Text → Token → List Token → Option (Node × List Token)
  read_member (suc fuel) key (string value) ts =
      with_attribute key value (if_behind (read_members fuel) (behind_item ts))
  read_member (suc fuel) key (number value) ts =
      with_attribute key value (if_behind (read_members fuel) (behind_item ts))
  read_member (suc fuel) key open_bracket ts = elim (read_elements fuel ts) [
    | none ↦ none
    | some r ↦ with_array key r.0 (if_behind (read_members fuel) (behind_item r.1))
  ]
  read_member fuel key t ts = none

  read_elements : ℕ → List Token → Option (Nodes × List Token)
  read_elements zero ts = none
  read_elements (suc fuel) (close_bracket ∷ ts) = some (no_node, ts)
  read_elements (suc fuel) (open_brace ∷ ts) = elim (read_members fuel ts) [
    | none ↦ none
    | some r ↦ with_node r.0 (if_behind (read_elements fuel) (behind_item r.1))
  ]
  read_elements (suc fuel) ts = none

-- A whole document.
unfoldable pub read_node : ℕ → List Token → Option Node
unfolding read_members
read_node fuel (open_brace ∷ ts) = elim (read_members fuel ts) [
  | none ↦ none
  | some r ↦ if is_empty r.1 then some r.0 else none
]
read_node fuel ts = none

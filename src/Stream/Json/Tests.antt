-- ===== src/Stream/Json/Tests.antt =====
-- Concrete JSON.
use kssio.Prelude.{ℕ, ◌≤◌, some, none, arith, refl, [], ◌≡◌, ◌∷◌, codes}
use kssio.Stream.Decode.{decode}
use kssio.Stream.Json.{Node, node, no_array, array, no_node, next, write, encode_json, is_number}
use kssio.Stream.Json.Document.{IsWritable, AreWritableArrays, read_document, read_document-write}

abbrev leaf : Node
leaf = node ((codes "a", codes "1") ∷ []) no_array

written :
    write (
      node
        ((codes "k", codes "x\ty") ∷ [])
        (array (codes "c") (next leaf (next leaf no_node)) no_array))
    ≡ codes
        "{\n  \"k\": \"x\\ty\",\n  \"c\": [\n    {\n      \"a\": 1\n    },\n    {\n      \"a\": 1\n    }\n  ]\n}\n"
unfolding write encode_json is_number kssio.Stream.Json.escape_char
written = refl

-- What is no number in JSON can pass the test.
dots_are_numeric : encode_json (codes "1.2.3") ≡ codes "1.2.3"
unfolding encode_json is_number
dots_are_numeric = refl

abbrev tree : Node
tree =
    node ((codes "k", codes "x\ty") ∷ (codes "n", codes "12") ∷ [])
      (array (codes "c") (next leaf (next leaf no_node)) (array (codes "d") no_node no_array))

tree_read : read_document 400 (write tree) ≡ some tree
unfolding write encode_json is_number kssio.Stream.Json.escape_char kssio.Stream.Json.Lexer.lex
    kssio.Stream.Json.Tokens.read_node kssio.Stream.Json.Strings.read_json
    kssio.Stream.Decode.decode
tree_read = refl

-- A key is not escaped, so a quote in it ends it.
key_unread : read_document 400 (write (node ((codes "a\"b", codes "1") ∷ []) no_array)) ≡ none
unfolding write encode_json is_number kssio.Stream.Json.escape_char kssio.Stream.Json.Lexer.lex
    kssio.Stream.Json.Tokens.read_node kssio.Stream.Json.Strings.read_json
    kssio.Stream.Decode.decode
key_unread = refl

-- Nor is what is no number.
dots_unread : read_document 400 (write (node ((codes "a", codes "1.2.3") ∷ []) no_array)) ≡ none
unfolding write encode_json is_number kssio.Stream.Json.escape_char kssio.Stream.Json.Lexer.lex
    kssio.Stream.Json.Tokens.read_node kssio.Stream.Json.Strings.read_json
    kssio.Stream.Decode.decode
dots_unread = refl

leaf-IsWritable : IsWritable leaf
unfolding IsWritable AreWritableArrays
leaf-IsWritable = ((((refl, tt), (omega arith, tt), λ e. refl), tt), tt)

read_document-write_example :
    (n : ℕ) × ((fuel : ℕ) → n ≤ fuel → read_document fuel (write leaf) ≡ some leaf)
read_document-write_example = read_document-write leaf leaf-IsWritable

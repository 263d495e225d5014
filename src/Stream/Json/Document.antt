-- ===== src/Stream/Json/Document.antt =====
-- A reader of JSON reads back from a written document the node that was written.
use mathlib.Core.Path.{subst}
use kssio.Prelude.{
  ℕ, ◌+◌, ◌≤◌, ◌<◌, ◌≡◌, Bool, true, false, not, ◌||◌, Option, none, some, List, [], ◌∷◌, ◌++◌,
  Text, if◌then◌else◌, refl, arith, append_assoc, append-nil, ap, ◌∙◌, sym, All, is_empty, codes,
}
use kssio.Stream.Json.Strings.{IsPlainKey, decode-key}
use kssio.Stream.Json.{
  Node, node, Arrays, no_array, array, Nodes, no_node, next, has_arrays, has_nodes, indent, endl,
  write_attributes, write_with_indent, write_arrays, write_nodes, write, is_number,
}
use kssio.Stream.Json.Tokens.{
  Token, colon, string, comma_if, attribute_tokens, node_tokens, array_tokens, nodes_tokens,
  read_node,
}
use kssio.Stream.Json.Tokens.Read.{read_node-node_tokens}
use kssio.Stream.Json.Lexer.{lex, is_json_number}
use kssio.Stream.Json.Lexer.Emits.{
  Emits, EndsNumber, end-Lexes, append-Emits, space-Emits, spaces-Emits, colon-Emits,
  comma_sign-Emits, open_brace-Emits, close_brace-Emits, open_bracket-Emits, close_bracket-Emits,
  string-Emits, value-Emits,
}

-- The keys need no escape, the values are of bytes, and one that is written as a number is one.
abbrev AreWritten : List (Text × Text) → Type 0
AreWritten = All (λ a.
    IsPlainKey a.0 × All (λ c. c < 256) a.1 × (is_number a.1 ≡ true → is_json_number a.1 ≡ true))

unfoldable mutual
  pub IsWritable : Node → Type 0
  IsWritable (node attributes arrays) = AreWritten attributes × AreWritableArrays arrays

  pub AreWritableArrays : Arrays → Type 0
  AreWritableArrays no_array = Unit
  AreWritableArrays (array key nodes more) =
      IsPlainKey key × AreWritable nodes × AreWritableArrays more

  pub AreWritable : Nodes → Type 0
  AreWritable no_node = Unit
  AreWritable (next n more) = IsWritable n × AreWritable more

key-Emits :
    (key rest : Text) (g : List Token → List Token)
    → IsPlainKey key
    → Emits rest g
    → Emits (b'"' ∷ (key ++ (codes "\": " ++ rest))) (λ ts. string key ∷ colon ∷ g ts)
key-Emits key rest g plain e =
    subst (λ w. Emits (b'"' ∷ w) (λ ts. string key ∷ colon ∷ g ts))
      (append_assoc key (b'"' ∷ []) (b':' ∷ b' ' ∷ rest))
      (append-Emits (b'"' ∷ (key ++ b'"' ∷ [])) (b':' ∷ b' ' ∷ rest)
        (string-Emits key key (λ f u h. decode-key f key u plain h))
        (append-Emits (b':' ∷ []) (b' ' ∷ rest) colon-Emits
          (append-Emits (b' ' ∷ []) rest (space-Emits b' ' refl) e)))

comma-Emits : (b : Bool) → Emits (if b then codes "," else []) (comma_if b)
comma-Emits true = comma_sign-Emits
comma-Emits false = λ u ts r. r

comma-EndsNumber : (b : Bool) (w : Text) → EndsNumber ((if b then codes "," else []) ++ (endl ++ w))
comma-EndsNumber true w u = (b',', (endl ++ w) ++ u, refl, refl)
comma-EndsNumber false w u = (b'\n', w ++ u, refl, refl)

attributes-Emits :
    (indent_level : ℕ) (attributes : List (Text × Text)) (arrays_follow : Bool)
    → AreWritten attributes
    → Emits
        (write_attributes indent_level attributes arrays_follow)
        (attribute_tokens attributes arrays_follow)
unfolding write_attributes attribute_tokens
attributes-Emits indent_level [] arrays_follow good = λ u ts r. r
attributes-Emits indent_level ((key, value) ∷ rest) arrays_follow ((plain, bytes, json), good) =
    let b = not (is_empty rest) || arrays_follow in
    let w = write_attributes indent_level rest arrays_follow in
    append-Emits (indent indent_level 2) _ (spaces-Emits _) (
      key-Emits key _ _ plain (
        value-Emits value _ _ bytes json (comma-EndsNumber b w) (
          append-Emits _ (endl ++ w) (comma-Emits b) (
            append-Emits endl w (space-Emits b'\n' refl)
              (attributes-Emits indent_level rest arrays_follow good)))))

mutual
  unfolding IsWritable AreWritableArrays AreWritable write_with_indent write_arrays write_nodes
      node_tokens array_tokens nodes_tokens

  node-Emits :
      (nd : Node) (indent_level : ℕ) (b : Bool)
      → IsWritable nd
      → Emits (write_with_indent nd indent_level b) (λ ts. node_tokens nd (comma_if b ts))
  node-Emits (node attributes arrays) indent_level b (good, goods) =
      let comma_end = (if b then codes "," else []) ++ endl in
      let arrays_end =
        write_arrays arrays indent_level ++ (indent indent_level 0 ++ (codes "}" ++ comma_end)) in
      let body = write_attributes indent_level attributes (has_arrays arrays) ++ arrays_end in
      append-Emits (indent indent_level 0) _ (spaces-Emits _) (
        append-Emits (codes "{") (endl ++ body) open_brace-Emits (
          append-Emits endl _ (space-Emits b'\n' refl) (
            append-Emits (write_attributes indent_level attributes (has_arrays arrays)) _
              (attributes-Emits indent_level attributes (has_arrays arrays) good)
              (append-Emits (write_arrays arrays indent_level) _
                (arrays-Emits arrays indent_level goods)
                (append-Emits (indent indent_level 0) _ (spaces-Emits _) (
                  append-Emits (codes "}") comma_end close_brace-Emits
                    (append-Emits _ endl (comma-Emits b) (space-Emits b'\n' refl))))))))

  arrays-Emits :
      (arrays : Arrays) (indent_level : ℕ)
      → AreWritableArrays arrays
      → Emits (write_arrays arrays indent_level) (array_tokens arrays)
  arrays-Emits no_array indent_level good = λ u ts r. r
  arrays-Emits (array key nodes more) indent_level (plain, goods, good) =
      let more_end = endl ++ write_arrays more indent_level in
      let comma_end = (if has_arrays more then codes "," else []) ++ more_end in
      let body =
        write_nodes nodes (indent_level + 1)
        ++ (indent indent_level 2 ++ (codes "]" ++ comma_end)) in
      append-Emits (indent indent_level 2) _ (spaces-Emits _) (
        key-Emits key _ _ plain (
          append-Emits (codes "[") (endl ++ body) open_bracket-Emits (
            append-Emits endl _ (space-Emits b'\n' refl) (
              append-Emits (write_nodes nodes (indent_level + 1)) _
                (nodes-Emits nodes (indent_level + 1) goods)
                (append-Emits (indent indent_level 2) _ (spaces-Emits _) (
                  append-Emits (codes "]") comma_end close_bracket-Emits (
                    append-Emits _ more_end (comma-Emits (has_arrays more)) (
                      append-Emits endl _ (space-Emits b'\n' refl)
                        (arrays-Emits more indent_level good)))))))))

  nodes-Emits :
      (nodes : Nodes) (indent_level : ℕ)
      → AreWritable nodes
      → Emits (write_nodes nodes indent_level) (nodes_tokens nodes)
  nodes-Emits no_node indent_level good = λ u ts r. r
  nodes-Emits (next n more) indent_level (good, goods) =
      append-Emits (write_with_indent n indent_level (has_nodes more)) _
        (node-Emits n indent_level (has_nodes more) good) (nodes-Emits more indent_level goods)

-- The reader: the tokens of the text, and the node that they stand for.
abbrev pub read_document : ℕ → Text → Option Node
read_document fuel s = elim (lex fuel s) [ none ↦ none | some ts ↦ read_node fuel ts ]

-- A strict reader of JSON, with enough fuel, reads back from a written document the node that was
-- written: every attribute with its text, every array with its nodes, in order and at any depth,
-- with all commas where they belong. The keys hold nothing that needs an escape, and the values are
-- any bytes; but one of digits and points only, as `1.2.3`, is a number of JSON.
pub read_document-write :
    (json : Node)
    → IsWritable json
    → (n : ℕ) × ((fuel : ℕ) → n ≤ fuel → read_document fuel (write json) ≡ some json)
unfolding write
read_document-write json good =
    let (n, lexed) = node-Emits json 0 false good [] [] end-Lexes in
    let (m, parsed) = read_node-node_tokens json in
    let text = write_with_indent json 0 false in
    (
      n + m,
      λ fuel h.
          let tokens = ap (lex fuel) (sym (append-nil text)) ∙ lexed fuel (omega (arith, h)) in
          rw (read_document, tokens) (parsed fuel (omega (arith, h))),
    )

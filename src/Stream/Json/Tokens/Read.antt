-- ===== src/Stream/Json/Tokens/Read.antt =====
-- The reader of tokens reads back the node.
use kssio.Prelude.{
  ℕ, zero, suc, ◌+◌, ◌≤◌, ◌≡◌, not, ◌||◌, some, List, [], ◌∷◌, Text, is_empty, refl, arith,
  Bool-cases, inl, inr,
}
use kssio.Stream.Json.{
  Node, node, Arrays, no_array, array, Nodes, no_node, next, has_arrays, has_nodes, is_number,
}
use kssio.Stream.Json.Tokens.{
  Token, open_brace, close_brace, open_bracket, close_bracket, colon, string, number, comma_if,
  value_token, attribute_tokens, node_tokens, array_tokens, nodes_tokens, behind_item, behind_comma,
  with_attribute, with_array, with_node, if_behind, read_members, read_member, read_elements,
  read_node, is_close,
}

-- With enough fuel, the rest of an object or of an array is read so.
abbrev Members : List Token → Node × List Token → Type 0
Members ts out = (n : ℕ) × ((f : ℕ) → n ≤ f → read_members f ts ≡ some out)

abbrev Elements : List Token → Nodes × List Token → Type 0
Elements ts out = (n : ℕ) × ((f : ℕ) → n ≤ f → read_elements f ts ≡ some out)

close-Members : (ts : List Token) → Members (close_brace ∷ ts) (node [] no_array, ts)
unfolding read_members
close-Members ts = (1, go)
  where
    go : (f : ℕ) → 1 ≤ f → read_members f (close_brace ∷ ts) ≡ some (node [] no_array, ts)
    go zero h = absurd (omega (arith, h))
    go (suc f) h = refl

member_read :
    (key : Text) (t : Token) (ts : List Token) (out : Node × List Token) (n : ℕ)
    → ((f : ℕ) → n ≤ f → read_member (suc f) key t ts ≡ some out)
    → Members (string key ∷ colon ∷ t ∷ ts) out
unfolding read_members
member_read key t ts out n e = (suc (suc n), go)
  where
    go : (f : ℕ) → suc (suc n) ≤ f → read_members f (string key ∷ colon ∷ t ∷ ts) ≡ some out
    go zero h = absurd (omega (arith, h))
    go (suc zero) h = absurd (omega (arith, h))
    go (suc (suc f)) h = e f (omega (arith, h))

attribute-Members :
    (key value : Text) (ts ts' out : List Token) (attributes : List (Text × Text)) (arrays : Arrays)
    → behind_item ts ≡ some ts'
    → Members ts' (node attributes arrays, out)
    → Members
        (string key ∷ colon ∷ value_token value ∷ ts)
        (node ((key, value) ∷ attributes) arrays, out)
unfolding value_token read_member with_attribute if_behind
attribute-Members key value ts ts' out attributes arrays b (n, r) =
    elim (Bool-cases (is_number value)) [
      | inl e ↦ rw e (
          member_read key (number value) ts _ n
            λ f h. rw (read_member, b, if_behind, r f h, with_attribute) refl)
      | inr e ↦ rw e (
          member_read key (string value) ts _ n
            λ f h. rw (read_member, b, if_behind, r f h, with_attribute) refl)
    ]

array-Members :
    (key : Text) (ts ts1 ts2 out : List Token) (nodes : Nodes) (arrays : Arrays)
    → Elements ts (nodes, ts1)
    → behind_item ts1 ≡ some ts2
    → Members ts2 (node [] arrays, out)
    → Members (string key ∷ colon ∷ open_bracket ∷ ts) (node [] (array key nodes arrays), out)
unfolding read_member with_array if_behind
array-Members key ts ts1 ts2 out nodes arrays (n, r) b (n', r') =
    member_read key open_bracket ts _ (n + n') λ f h.
      rw (read_member, r f (omega (arith, h)), b, if_behind, r' f (omega (arith, h)), with_array)
        refl

close-Elements : (ts : List Token) → Elements (close_bracket ∷ ts) (no_node, ts)
unfolding read_elements
close-Elements ts = (1, go)
  where
    go : (f : ℕ) → 1 ≤ f → read_elements f (close_bracket ∷ ts) ≡ some (no_node, ts)
    go zero h = absurd (omega (arith, h))
    go (suc f) h = refl

node-Elements :
    (ts ts1 ts2 out : List Token) (n : Node) (more : Nodes)
    → Members ts (n, ts1)
    → behind_item ts1 ≡ some ts2
    → Elements ts2 (more, out)
    → Elements (open_brace ∷ ts) (next n more, out)
unfolding read_elements with_node if_behind
node-Elements ts ts1 ts2 out nd more (n, r) b (n', r') = (suc (n + n'), go)
  where
    go : (f : ℕ) → suc (n + n') ≤ f → read_elements f (open_brace ∷ ts) ≡ some (next nd more, out)
    go zero h = absurd (omega (arith, h))
    go (suc f) h =
        rw (read_elements, r f (omega (arith, h)), b, if_behind, r' f (omega (arith, h)), with_node)
          refl

-- There is a comma exactly where an item follows.
behind_attribute :
    (rest : List (Text × Text)) (arrays : Arrays) (ts : List Token)
    → let behind =
        attribute_tokens rest (has_arrays arrays) (array_tokens arrays (close_brace ∷ ts)) in
      behind_item (comma_if (not (is_empty rest) || has_arrays arrays) behind) ≡ some behind
unfolding behind_item behind_comma attribute_tokens array_tokens has_arrays is_close
behind_attribute [] no_array ts = refl
behind_attribute [] (array key nodes more) ts = refl
behind_attribute ((k, v) ∷ rest) arrays ts = refl

behind_array :
    (more : Arrays) (ts : List Token)
    → let behind = array_tokens more (close_brace ∷ ts) in
      behind_item (comma_if (has_arrays more) behind) ≡ some behind
unfolding behind_item behind_comma array_tokens has_arrays is_close
behind_array no_array ts = refl
behind_array (array key nodes more) ts = refl

behind_node :
    (more : Nodes) (ts : List Token)
    → let behind = nodes_tokens more (close_bracket ∷ ts) in
      behind_item (comma_if (has_nodes more) behind) ≡ some behind
unfolding behind_item behind_comma nodes_tokens node_tokens has_nodes is_close
behind_node no_node ts = refl
behind_node (next (node attributes arrays) more) ts = refl

attributes-Members :
    (attributes : List (Text × Text)) (arrays : Arrays) (ts : List Token)
    → Members (array_tokens arrays (close_brace ∷ ts)) (node [] arrays, ts)
    → Members
        (attribute_tokens attributes (has_arrays arrays) (array_tokens arrays (close_brace ∷ ts)))
        (node attributes arrays, ts)
unfolding attribute_tokens
attributes-Members [] arrays ts r = r
attributes-Members ((key, value) ∷ rest) arrays ts r =
    attribute-Members key value _ _ ts rest arrays (behind_attribute rest arrays ts)
      (attributes-Members rest arrays ts r)

mutual
  unfolding node_tokens array_tokens nodes_tokens

  arrays-Members :
      (arrays : Arrays) (ts : List Token)
      → Members (array_tokens arrays (close_brace ∷ ts)) (node [] arrays, ts)
  arrays-Members no_array ts = close-Members ts
  arrays-Members (array key nodes more) ts =
      let behind = array_tokens more (close_brace ∷ ts) in
      array-Members key _ (comma_if (has_arrays more) behind) behind ts nodes more
        (nodes-Elements nodes (comma_if (has_arrays more) behind)) (behind_array more ts)
        (arrays-Members more ts)

  nodes-Elements :
      (nodes : Nodes) (ts : List Token)
      → Elements (nodes_tokens nodes (close_bracket ∷ ts)) (nodes, ts)
  nodes-Elements no_node ts = close-Elements ts
  nodes-Elements (next (node attributes arrays) more) ts =
      let behind = nodes_tokens more (close_bracket ∷ ts) in
      let ts1 = comma_if (has_nodes more) behind in
      node-Elements _ ts1 behind ts (node attributes arrays) more
        (attributes-Members attributes arrays ts1 (arrays-Members arrays ts1)) (behind_node more ts)
        (nodes-Elements more ts)

-- A whole document is read back from its tokens.
pub read_node-node_tokens :
    (nd : Node) → (n : ℕ) × ((f : ℕ) → n ≤ f → read_node f (node_tokens nd []) ≡ some nd)
unfolding read_node node_tokens
read_node-node_tokens (node attributes arrays) =
    let (n, r) = attributes-Members attributes arrays [] (arrays-Members arrays []) in
    (n, λ f h. rw (r f h) refl)

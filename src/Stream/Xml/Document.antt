-- ===== src/Stream/Xml/Document.antt =====
-- The tags, the attributes and the characters of a written document are those of its root.
use mathlib.Core.Path.{subst}
use kssio.Prelude.{
  ℕ, zero, suc, ◌+◌, ◌*◌, Bool, true, false, ◌&&◌, List, [], ◌∷◌, ◌++◌, Text, if◌then◌else◌, refl,
  replicate, append_assoc, ap, ◌∙◌, sym, All, is_empty, codes,
}
use kssio.Prelude.Int.{pos, negsuc}
use kssio.Stream.Decode.{escape_all}
use kssio.Stream.Xml.{
  XmlNode, xml_node, Generators, no_generator, generator, Children, no_child, child, xml_indent,
  xml_endl, escape_xml, encode, write_xml_attributes, is_childless, write_xml_node,
  write_generators, write_children,
}
use kssio.Stream.Xml.Layout.{layout, one_line, encode-layout}
use kssio.Stream.Xml.Tokens.{
  attribute_tokens, text_tokens, element_tokens, generators_tokens, children_tokens,
}
use kssio.Stream.Xml.Lexer.{XmlToken, character, attribute, end_start, end_empty}
use kssio.Stream.Xml.Lexer.Emits.{
  Emits, IsName, EndsName, append-Emits, character-Emits, characters, characters-Emits, start-Emits,
  close-Emits, end_start-Emits, end_empty-Emits, attribute-Emits,
}

-- The names are such that a reader can tell where they end.
unfoldable mutual
  pub IsNamed : XmlNode → Type 0
  IsNamed (xml_node name attributes text children) =
      IsName name × All (λ a. IsName a.0) attributes × AreNamedBy children

  pub AreNamedBy : Generators → Type 0
  AreNamedBy no_generator = Unit
  AreNamedBy (generator made more) = AreNamed made × AreNamedBy more

  pub AreNamed : Children → Type 0
  AreNamed no_child = Unit
  AreNamed (child n more) = IsNamed n × AreNamed more

spaces-Emits : (n : ℕ) → Emits false false (replicate n b' ') (characters (replicate n b' '))
unfolding escape_xml
spaces-Emits zero = λ u ts r. r
spaces-Emits (suc n) =
    append-Emits false false false (b' ' ∷ []) (replicate n b' ') (character-Emits b' ')
      (spaces-Emits n)

endl-Emits : Emits false false xml_endl (λ ts. character b'\n' ∷ ts)
unfolding escape_xml
endl-Emits = character-Emits b'\n'

text-Emits :
    (text : Text) (level : ℕ)
    → Emits false false
        (if is_empty text then [] else xml_indent level ++ (encode text (pos level) ++ xml_endl))
        (text_tokens text level)
unfolding text_tokens
text-Emits [] level = λ u ts r. r
text-Emits (c ∷ s) level = rw (encode-layout (c ∷ s) (pos level)) (
    append-Emits false false false (xml_indent level) _ (spaces-Emits (2 * level)) (
      append-Emits false false false (escape_all escape_xml (layout (pos level) (c ∷ s))) xml_endl
        (characters-Emits (layout (pos level) (c ∷ s))) endl-Emits))

attributes-Emits :
    (b : Bool) (attributes : List (Text × Text)) (w : Text) (g : List XmlToken → List XmlToken)
    → All (λ a. IsName a.0) attributes
    → Emits true b w g
    → Emits true b (write_xml_attributes attributes ++ w) (λ ts. attribute_tokens attributes (g ts))
unfolding write_xml_attributes attribute_tokens
attributes-Emits b [] w g named ew = ew
attributes-Emits b ((key, value) ∷ rest) w g (k, named) ew =
    let behind = b'"' ∷ write_xml_attributes rest in
    let ends = encode value (negsuc 0) in
    subst
      (λ t.
        Emits true b (b' ' ∷ t)
          (λ ts. attribute key (one_line value) ∷ attribute_tokens rest (g ts)))
      (ap (λ t. key ++ (codes "=\"" ++ t)) (sym (append_assoc ends behind w))
        ∙ sym (append_assoc key (codes "=\"" ++ (ends ++ behind)) w))
      (attribute-Emits b key value (write_xml_attributes rest ++ w)
        (λ ts. attribute_tokens rest (g ts)) k (attributes-Emits b rest w g named ew))

-- The end of a start tag, with the contents if the element has any.
start_end : Bool → Text → Text
start_end b contents =
    (if b then codes "/>" else codes ">") ++ (xml_endl ++ (if b then [] else contents))

start_end_tokens : Bool → (List XmlToken → List XmlToken) → List XmlToken → List XmlToken
start_end_tokens b g ts =
    if b then end_empty ∷ character b'\n' ∷ ts else end_start ∷ character b'\n' ∷ g ts

start_end-Emits :
    (b : Bool) (contents : Text) (g : List XmlToken → List XmlToken)
    → Emits false false contents g
    → Emits true false (start_end b contents) (start_end_tokens b g)
unfolding start_end start_end_tokens
start_end-Emits true contents g ec =
    append-Emits true false false (codes "/>") xml_endl end_empty-Emits endl-Emits
start_end-Emits false contents g ec =
    append-Emits true false false (codes ">") (xml_endl ++ contents) end_start-Emits
      (append-Emits false false false xml_endl contents endl-Emits ec)

start_end-EndsName :
    (attributes : List (Text × Text)) (b : Bool) (contents : Text)
    → EndsName (write_xml_attributes attributes ++ start_end b contents)
unfolding write_xml_attributes start_end
start_end-EndsName [] true contents u = (b'/', _, refl, refl)
start_end-EndsName [] false contents u = (b'>', _, refl, refl)
start_end-EndsName (a ∷ rest) b contents u = (b' ', _, refl, refl)

mutual
  unfolding IsNamed AreNamedBy AreNamed write_xml_node write_generators write_children
      element_tokens generators_tokens children_tokens start_end start_end_tokens

  pub element-Emits :
      (n : XmlNode) (level : ℕ)
      → IsNamed n
      → Emits false false (write_xml_node n level) (element_tokens n level)
  element-Emits (xml_node name attributes text children) level (k, ks, named) =
      let b = is_empty text && is_childless children in
      let texts =
        if is_empty text
        then []
        else xml_indent (level + 1) ++ (encode text (pos (level + 1)) ++ xml_endl) in
      let ends = xml_indent level ++ (codes "</" ++ (name ++ (b'>' ∷ xml_endl))) in
      let contents = texts ++ (write_generators children (level + 1) ++ ends) in
      append-Emits false false false (xml_indent level) _ (spaces-Emits (2 * level)) (
        start-Emits false name (write_xml_attributes attributes ++ start_end b contents) _ k
          (start_end-EndsName attributes b contents)
          (attributes-Emits false attributes (start_end b contents) _ ks (
            start_end-Emits b contents _ (
              append-Emits false false false texts _ (text-Emits text (level + 1)) (
                append-Emits false false false (write_generators children (level + 1)) ends
                  (generators-Emits children (level + 1) named)
                  (append-Emits false false false (xml_indent level) _ (spaces-Emits (2 * level))
                    (close-Emits false name xml_endl _ k endl-Emits)))))))

  generators-Emits :
      (g : Generators) (level : ℕ)
      → AreNamedBy g
      → Emits false false (write_generators g level) (generators_tokens g level)
  generators-Emits no_generator level named = λ u ts r. r
  generators-Emits (generator made more) level (a, named) =
      append-Emits false false false (write_children made level) (write_generators more level)
        (children-Emits made level a) (generators-Emits more level named)

  children-Emits :
      (c : Children) (level : ℕ)
      → AreNamed c
      → Emits false false (write_children c level) (children_tokens c level)
  children-Emits no_child level named = λ u ts r. r
  children-Emits (child n more) level (a, named) =
      append-Emits false false false (write_xml_node n level) (write_children more level)
        (element-Emits n level a) (children-Emits more level named)

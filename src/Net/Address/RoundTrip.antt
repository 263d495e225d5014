-- ===== src/Net/Address/RoundTrip.antt =====
-- Addresses print, and read back. The tokenizer is assumed to split a text at each separator and
-- to keep the parts between, which is what the code relies on when it passes `false` for
-- "skip empty tokens".
use kssio.Prelude.{
  if◌then◌else◌, ◌%◌, ◌/◌, failed, arith, ◌^◌, ℕ, ◌<◌, ◌≡◌, ◌≢◌, refl, ap, sym, ◌∙◌, Bool, false,
  List, [], ◌∷◌, ◌++◌, map, length, is_empty, All, Lacks, Text, Exception, ok,
}
use kssio.Net.Pack.{pack-unpack_six, unpack_six, pack-unpack_four, unpack_four, pack}
use kssio.Net.Address.{
  ltb, postconditions, invalid_mac, thrown, unpack, put_mac, mac_to_string, mac_of_string,
  ip_to_string, invalid_ip, read_octets, write_octets, put_ip, ip_of_string,
}
use kssio.Net.Address.Octets.{put_mac-IsOctet, IsOctet, put_ip-IsOctet}

-- The parts with the separator between them.
abbrev pub join : ℕ → List Text → Text
join sep [] = []
join sep (p ∷ []) = p
join sep (p ∷ q ∷ ps) = p ++ (sep ∷ join sep (q ∷ ps))

-- What the code relies on in the tokenizer.
abbrev pub Splits : (Text → Text → Bool → List Text) → Type 0
Splits tokenize =
    (sep : ℕ) (parts : List Text)
    → parts ≢ []
    → All (λ p. (p ≢ []) × Lacks sep p) parts
    → tokenize (join sep parts) (sep ∷ []) false ≡ parts

is_empty-append : (s t : Text) → s ≢ [] → is_empty (s ++ t) ≡ false
is_empty-append [] t h = absurd (h refl)
is_empty-append (c ∷ s) t h = refl

module _ (base sep : ℕ) (invalid : Exception) (put : ℕ → Text)
    (good : (b : ℕ) → b < 256 → IsOctet base sep invalid (put b) b) where
  read_octets-map :
      (bs : List ℕ)
      → All (λ b. b < 256) bs
      → read_octets base invalid (length bs) (map put bs) ≡ ok (bs, [])
  unfolding read_octets
  read_octets-map [] h = refl
  read_octets-map (b ∷ bs) h = rw ((good b h.0).0, read_octets-map bs h.1)

  All-good : (bs : List ℕ) → All (λ b. b < 256) bs → All (λ p. (p ≢ []) × Lacks sep p) (map put bs)
  All-good [] h = tt
  All-good (b ∷ bs) h = (((good b h.0).1, (good b h.0).2), All-good bs h.1)

-- The texts that the casts build.
abbrev pub ip_text : ℕ → Text
ip_text v = write_octets put_ip b'.' (unpack 32 4 v) 3 0

abbrev pub mac_text : ℕ → Text
mac_text v = write_octets put_mac b':' (unpack 64 6 v) 5 0

module _ (tokenize : Text → Text → Bool → List Text) (splits : Splits tokenize) where
  ip_of_octets :
      (a b c d : ℕ)
      → All (λ x. x < 256) (a ∷ b ∷ c ∷ d ∷ [])
      → let bs = a ∷ b ∷ c ∷ d ∷ [] in
        ip_of_string tokenize (write_octets put_ip b'.' bs 3 0) ≡ ok (pack 32 4 bs)
  unfolding ip_of_string write_octets
  ip_of_octets a b c d h =
      let bs : List ℕ = a ∷ b ∷ c ∷ d ∷ [] in
      let s : Text = join b'.' (map put_ip bs) in
      let good = put_ip-IsOctet (invalid_ip s) in
      rw (
        is_empty-append (put_ip a) _ ((good a h.0).1),
        splits b'.' (map put_ip bs) (cc) (All-good 10 b'.' (invalid_ip s) put_ip good bs h),
        read_octets-map 10 b'.' (invalid_ip s) put_ip good bs h,
      )

  mac_of_octets :
      (a b c d e f : ℕ)
      → All (λ x. x < 256) (a ∷ b ∷ c ∷ d ∷ e ∷ f ∷ [])
      → let bs = a ∷ b ∷ c ∷ d ∷ e ∷ f ∷ [] in
        mac_of_string tokenize (write_octets put_mac b':' bs 5 0) ≡ ok (pack 64 6 bs)
  unfolding mac_of_string write_octets
  mac_of_octets a b c d e f h =
      let bs : List ℕ = a ∷ b ∷ c ∷ d ∷ e ∷ f ∷ [] in
      let s : Text = join b':' (map put_mac bs) in
      let good = put_mac-IsOctet (invalid_mac s) in
      rw (
        is_empty-append (put_mac a) _ ((good a h.0).1),
        splits b':' (map put_mac bs) (cc) (All-good 16 b':' (invalid_mac s) put_mac good bs h),
        read_octets-map 16 b':' (invalid_mac s) put_mac good bs h,
      )

  ip_reads_back : (v : ℕ) → v < 2 ^ 32 → ip_of_string tokenize (ip_text v) ≡ ok v
  ip_reads_back v h =
      ap (λ bs. ip_of_string tokenize (write_octets put_ip b'.' bs 3 0)) (unpack_four v)
      ∙ ip_of_octets (v / 2 ^ 24 % 256) (v / 2 ^ 16 % 256) (v / 2 ^ 8 % 256) (v / 2 ^ 0 % 256)
          (omega arith)
      ∙ ap (λ bs. ok (pack 32 4 bs)) (sym (unpack_four v))
      ∙ ap ok (pack-unpack_four v h)

  mac_reads_back : (v : ℕ) → mac_of_string tokenize (mac_text v) ≡ ok (v % 2 ^ 48)
  mac_reads_back v =
      ap (λ bs. mac_of_string tokenize (write_octets put_mac b':' bs 5 0)) (unpack_six v)
      ∙ mac_of_octets (v / 2 ^ 40 % 256) (v / 2 ^ 32 % 256) (v / 2 ^ 24 % 256) (v / 2 ^ 16 % 256)
          (v / 2 ^ 8 % 256) (v / 2 ^ 0 % 256) (omega arith)
      ∙ ap (λ bs. ok (pack 64 6 bs)) (sym (unpack_six v))
      ∙ ap ok (pack-unpack_six v)

  -- Every IPv4 address prints, as four decimal numbers with dots between, and what it prints is
  -- read back as the same address; so the postcondition of the cast never fails. The tokenizer is
  -- assumed to split at the dots.
  pub ip_of_string-ip_to_string :
      (v : ℕ)
      → v < 2 ^ 32
      → (ip_to_string tokenize v ≡ ok (ip_text v)) × (ip_of_string tokenize (ip_text v) ≡ ok v)
  unfolding ip_to_string
  ip_of_string-ip_to_string v h = (rw (ip_reads_back v h) (ground arith), ip_reads_back v h)

  -- A hardware address prints exactly if it fits six bytes; otherwise the postcondition of the
  -- cast fails. The text that is built is read back as the six low bytes, so as the same address
  -- where it fits. The tokenizer is assumed
  -- to split at the colons.
  pub mac_of_string-mac_to_string :
      (v : ℕ)
      → (mac_to_string tokenize v
          ≡ (if ltb v (2 ^ 48) then ok (mac_text v) else thrown (failed postconditions)))
        × (mac_of_string tokenize (mac_text v) ≡ ok (v % 2 ^ 48))
  unfolding mac_to_string
  mac_of_string-mac_to_string v = (rw (mac_reads_back v) (ground arith), mac_reads_back v)

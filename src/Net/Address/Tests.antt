-- ===== src/Net/Address/Tests.antt =====
-- Concrete runs of the address classes, with a tokenizer that splits at one character.
use kssio.Prelude.{
  ℕ, ◌≡◌, ◌≢◌, refl, Bool, true, false, arith, List, [], ◌∷◌, ◌++◌, append_assoc, append-nil, ◌==◌,
  All, Lacks, Text, codes, ok, thrown,
}
use kssio.Net.Address.{
  ip_of_string, ip_to_string, mac_of_string, mac_to_string, invalid_ip, to_bool,
}
use kssio.Net.Address.RoundTrip.{
  Splits, join, ip_text, mac_text, ip_of_string-ip_to_string, mac_of_string-mac_to_string,
}

cut : ℕ → Text → Text → List Text
cut sep [] cur = cur ∷ []
cut sep (c ∷ s) cur = elim (c == sep) [
  | true ↦ cur ∷ cut sep s []
  | false ↦ cut sep s (cur ++ c ∷ [])
]

splitter : Text → Text → Bool → List Text
unfolding cut
splitter s [] skip = s ∷ []
splitter s (sep ∷ more) skip = cut sep s []

cut-append :
    (sep : ℕ) (p rest cur : Text) → Lacks sep p → cut sep (p ++ rest) cur ≡ cut sep rest (cur ++ p)
unfolding cut
cut-append sep [] rest cur h = rw append-nil
cut-append sep (c ∷ p) rest cur h =
    ground (arith, cut-append sep p rest (cur ++ c ∷ []), append_assoc cur (c ∷ []) p)

cut_at_sep : (sep : ℕ) (s cur : Text) → cut sep (sep ∷ s) cur ≡ cur ∷ cut sep s []
unfolding cut
cut_at_sep sep s cur = ground arith

cut-join :
    (sep : ℕ) (p : Text) (ps : List Text)
    → All (λ q. (q ≢ []) × Lacks sep q) (p ∷ ps)
    → cut sep (join sep (p ∷ ps)) [] ≡ p ∷ ps
cut-join sep p [] h =
    rw (← append-nil p, cut-append sep p [] [] h.0.1) (unfold cut in rw append-nil)
cut-join sep p (q ∷ ps) h =
    rw (cut-append sep p _ [] h.0.1, cut_at_sep sep _ p, cut-join sep q ps h.1)

splitter-Splits : Splits splitter
unfolding splitter
splitter-Splits sep [] h all = absurd (h refl)
splitter-Splits sep (p ∷ ps) h all = cut-join sep p ps all

ip_printed : ip_to_string splitter 0xC0A80001 ≡ ok (codes "192.168.0.1")
unfolding ip_to_string ip_of_string splitter kssio.Net.Text.print kssio.Net.Pack.unpack
    kssio.Net.Address.read_octet kssio.Net.Text.stoul kssio.Net.Pack.pack
ip_printed = refl

-- Characters behind a number are not noticed.
ip_with_garbage : ip_of_string splitter (codes "1x.2y.3.4 ") ≡ ok 0x01020304
unfolding ip_of_string splitter kssio.Net.Address.read_octet kssio.Net.Text.stoul
    kssio.Net.Pack.pack
ip_with_garbage = refl

ip_too_short : ip_of_string splitter (codes "1.2.3") ≡ thrown (invalid_ip (codes "1.2.3"))
unfolding ip_of_string splitter kssio.Net.Address.read_octet kssio.Net.Text.stoul
ip_too_short = refl

mac_printed : mac_to_string splitter 0x00a1b20304ff ≡ ok (codes "00:a1:b2:03:04:ff")
unfolding mac_to_string mac_of_string splitter kssio.Net.Text.print_padded kssio.Net.Pack.unpack
    kssio.Net.Address.read_octet kssio.Net.Text.stoul kssio.Net.Pack.pack
mac_printed = refl

zero_address : to_bool 0 ≡ false
unfolding to_bool
zero_address = refl

ip_of_string-ip_to_string_example :
    (ip_to_string splitter 0xC0A80001 ≡ ok (ip_text 0xC0A80001))
    × (ip_of_string splitter (ip_text 0xC0A80001) ≡ ok 0xC0A80001)
ip_of_string-ip_to_string_example =
    ip_of_string-ip_to_string splitter splitter-Splits 0xC0A80001 (omega arith)

mac_of_string-mac_to_string_example :
    (mac_to_string splitter 0xa1b20304ff ≡ ok (mac_text 0xa1b20304ff))
    × (mac_of_string splitter (mac_text 0xa1b20304ff) ≡ ok 0xa1b20304ff)
mac_of_string-mac_to_string_example =
    mac_of_string-mac_to_string splitter splitter-Splits 0xa1b20304ff

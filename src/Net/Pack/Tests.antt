-- ===== src/Net/Pack/Tests.antt =====
-- Concrete addresses as bytes.
use kssio.Prelude.{ℕ, List, ◌≡◌, ◌∷◌, [], refl, arith}
use kssio.Net.Pack.{pack, unpack}
use kssio.Net.Pack.Bytes.{pack_and_unpack}

loopback_bytes : unpack 32 4 0x7F000001 ≡ 127 ∷ 0 ∷ 0 ∷ 1 ∷ []
unfolding unpack
loopback_bytes = refl

abbrev home : List ℕ
home = 192 ∷ 168 ∷ 0 ∷ 1 ∷ []

pack_and_unpack_example :
    (unpack 32 4 (pack 32 4 home) ≡ home) × (pack 32 4 (unpack 32 4 0x7F000001) ≡ 0x7F000001)
pack_and_unpack_example =
    pack_and_unpack 32 home 0x7F000001 (omega arith) (omega arith)
      (omega arith, (omega arith, (omega arith, (omega arith, tt))))

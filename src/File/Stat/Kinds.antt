-- ===== src/File/Stat/Kinds.antt =====
-- What each question answers for each kind of file.
use kssio.Prelude.{refl, ap, ◌∷◌, ◌∙◌, arith, ◌/◌, ◌≡◌, [], ◌≢◌, ◌+◌, ◌^◌, ◌==◌, ◌<◌, ◌*◌, ℕ}
use kssio.Prelude.Bits.{bit_and_shifted}
use kssio.File.Stat.{
  ok, done, false, bit_and, true, Sys, Text, Bool, do_stat, is_file, is_directory, is_symbolic_link,
  is_pipe, is_character_special, is_block_special, is_socket,
}

pub data FileKind : Type 0 where
  fifo chr dir blk reg lnk sock : FileKind

-- The four bits of the mode that say the kind; the twelve below are permissions.
abbrev kind_bits : FileKind → ℕ
kind_bits fifo = 1
kind_bits chr = 2
kind_bits dir = 4
kind_bits blk = 6
kind_bits reg = 8
kind_bits lnk = 10
kind_bits sock = 12

abbrev pub mode_of : FileKind → ℕ → ℕ
mode_of k permissions = kind_bits k * 2 ^ 12 + permissions

-- The kinds for which the code answers true: more than the one asked for.
abbrev says_file : FileKind → Bool
says_file reg = true
says_file lnk = true
says_file sock = true
says_file _ = false

abbrev says_directory : FileKind → Bool
says_directory dir = true
says_directory blk = true
says_directory sock = true
says_directory _ = false

abbrev says_character_special : FileKind → Bool
says_character_special chr = true
says_character_special blk = true
says_character_special lnk = true
says_character_special _ = false

abbrev says_only : FileKind → FileKind → Bool
says_only k j = kind_bits k == kind_bits j

bit_and_mode :
    (k : FileKind) (p m : ℕ)
    → p < 2 ^ 12
    → bit_and (mode_of k p) (m * 2 ^ 12) ≡ bit_and (kind_bits k) m * 2 ^ 12
bit_and_mode k p m h =
    let e : mode_of k p / 2 ^ 12 ≡ kind_bits k = omega arith in
    bit_and_shifted 12 (mode_of k p) m ∙ ap (λ t. bit_and t m * 2 ^ 12) e

do_stat_mode :
    (stat : Text → Bool → Sys ℕ) (path : Text) (follow : Bool) (k : FileKind) (p m : ℕ)
    → path ≢ []
    → p < 2 ^ 12
    → stat path follow ≡ done (mode_of k p)
    → do_stat stat path follow (m * 2 ^ 12) ≡ ok (bit_and (kind_bits k) m * 2 ^ 12 == m * 2 ^ 12)
unfolding do_stat
do_stat_mode stat [] follow k p m ne h e = absurd (ne refl)
do_stat_mode stat (c ∷ path) follow k p m ne h e = rw (e, bit_and_mode k p m h)

-- What the seven questions answer for a kind.
abbrev pub Answers : (Text → Bool → Sys ℕ) → Text → Bool → FileKind → Type 0
Answers stat path follow k =
    (is_file stat path follow ≡ ok (says_file k))
    × (is_directory stat path follow ≡ ok (says_directory k))
    × (is_character_special stat path follow ≡ ok (says_character_special k))
    × (is_symbolic_link stat path follow ≡ ok (says_only lnk k))
    × (is_pipe stat path follow ≡ ok (says_only fifo k))
    × (is_block_special stat path follow ≡ ok (says_only blk k))
    × (is_socket stat path follow ≡ ok (says_only sock k))

module _ (stat : Text → Bool → Sys ℕ) (path : Text) (follow : Bool) (p : ℕ) (ne : path ≢ [])
    (h : p < 2 ^ 12) where
  -- For a path of kind `k`, with any permissions, isSymbolicLink, isPipe, isBlockSpecial and isSocket
  -- answer true exactly for their own kind; but isFile also answers true for sockets and for links
  -- that are not followed, isDirectory for block devices and sockets, and isCharacterSpecial for
  -- block devices and links, since the mode's kind is compared as a set of bits.
  pub told_by_kind :
      (k : FileKind) → stat path follow ≡ done (mode_of k p) → Answers stat path follow k
  unfolding is_file is_directory is_character_special is_symbolic_link is_pipe is_block_special
      is_socket
  told_by_kind fifo e =
      let says = λ (m : ℕ). do_stat_mode stat path follow fifo p m ne h e in
      (says 8, says 4, says 2, says 10, says 1, says 6, says 12)
  told_by_kind k e =
      let says = λ (m : ℕ). do_stat_mode stat path follow k p m ne h e in
      (says 8, says 4, says 2, says 10, says 1, says 6, says 12)

-- ===== src/File/Binary/Seek.antt =====
-- Where the calls that move the position leave it.
use kssio.Prelude.{
  length, ℕ, ◌+◌, ◌-◌, ◌≡◌, refl, ◌∙◌, leb, true, false, if◌then◌else◌, ok, thrown, system_error,
  codes, arith,
}
use kssio.Prelude.Int.{pos, negsuc}
use kssio.File.CFile.{CFile, einval, seek_to}
use kssio.File.Binary.{fast_forward, is_open, is_open_for, seek, move, rewind}
use kssio.File.Binary.Read.{IsReady}

-- The stream at another position, from which reading is tried again.
abbrev pub placed : ℕ → CFile → CFile
placed n fp = record fp { position = n; at_eof = false }

pub seek_lem : (n : ℕ) (fp : CFile) → fp.seekable ≡ true → seek (pos n) fp ≡ (ok tt, placed n fp)
unfolding seek seek_to
seek_lem n fp h = ground arith

pub rewind_lem :
    (fp : CFile) → fp.seekable ≡ true → rewind fp ≡ (ok tt, placed 0 (record fp { error = false }))
unfolding rewind seek_to
rewind_lem fp h = ground arith

-- On a device with a position, move goes forward by any offset, and back by an offset no larger than
-- the position; any other throws the error of the system and leaves the stream as it is.
move_cases :
    (n : ℕ) (fp : CFile)
    → fp.seekable ≡ true
    → (move (pos n) fp ≡ (ok tt, placed (fp.position + n) fp))
      × (move (negsuc n) fp ≡ (
          if leb (n + 1) fp.position
          then (ok tt, placed (fp.position - (n + 1)) fp)
          else (thrown (system_error einval (codes "fseeko")), fp)))
unfolding move seek_to
move_cases n fp h = (ground arith, ground arith)

-- What a stream is open for is in the flags of its descriptor.
pub is_open-flags :
    (mode : ℕ) (fp fp' : CFile) → fp.flags ≡ fp'.flags → is_open mode fp ≡ is_open mode fp'
unfolding is_open_for
is_open-flags mode fp fp' e = rw e refl

pub placed-IsReady :
    {mode : ℕ}
    → (n : ℕ) (fp : CFile) → is_open mode fp ≡ true
    → fp.seekable ≡ true
    → fp.error ≡ false
    → IsReady mode (placed n fp)
placed-IsReady {mode} n fp opened seekable fine = record {
  opened = is_open-flags mode (placed n fp) fp refl ∙ opened;
  has_position = seekable;
  before_end = refl;
  without_error = fine;
}

pub fast_forward_lem :
    (fp : CFile) → fp.seekable ≡ true → fast_forward fp ≡ (ok tt, placed (length fp.content) fp)
unfolding fast_forward seek_to
fast_forward_lem fp h = ground arith

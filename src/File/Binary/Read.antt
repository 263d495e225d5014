-- ===== src/File/Binary/Read.antt =====
-- What readFully reads.
use kssio.Prelude.{
  ℕ, zero, suc, ◌+◌, ◌<◌, ◌≡◌, leb, true, false, some, length, take, if◌then◌else◌, eof, ok, thrown,
  system_error, codes, arith, length-take,
}
use kssio.Prelude.Bits.{bit_and-zero}
use kssio.File.CFile.{CFile, left, fread, o_wronly, has, eio}
use kssio.File.Binary.{
  read_record, not, single_read, read_fully, read_loop, reading, writing, is_open, is_open_for,
}

-- A stream that is open for a mode, has a position, and has met neither its end nor an error.
pub record IsReady (mode : ℕ) (fp : CFile) : Type 0 where
  pub opened : is_open mode fp ≡ true
  pub has_position : fp.seekable ≡ true
  pub before_end : fp.at_eof ≡ false
  pub without_error : fp.error ≡ false

-- The stream behind some bytes.
abbrev pub advanced : ℕ → CFile → CFile
advanced n fp = record fp { position = fp.position + n }

-- The stream behind its last byte, where reading on was tried.
abbrev pub exhausted : CFile → CFile
exhausted fp = record fp {
  position = fp.position + length (left fp);
  at_eof = not fp.broken;
  error = fp.broken;
}

readable : (fp : CFile) → is_open reading fp ≡ true → has fp.flags o_wronly ≡ false
unfolding is_open_for
readable fp h = ground arith

single_read_cases :
    (n : ℕ) (fp : CFile)
    → IsReady reading fp
    → single_read n fp ≡ (
        if leb n (length (left fp))
        then (ok (take n (left fp)), advanced n fp)
        else if fp.broken
        then (thrown (system_error eio (codes "fread")), exhausted fp)
        else (ok (left fp), exhausted fp))
unfolding single_read fread
single_read_cases n fp r = ground (arith, readable fp r.opened, length-take n (left fp))

-- On a stream that is ready for reading, readFully of some bytes gives exactly the next ones and
-- moves the position behind them, if there are as many; if not, it throws Eof at the end of the
-- file, and the error of reading if the device fails there, and leaves the stream at its end. It
-- never returns with fewer bytes than it was asked for.
pub read_fully_cases :
    (n : ℕ) (fp : CFile)
    → 0 < n
    → IsReady reading fp
    → read_fully n fp ≡ (
        if leb n (length (left fp))
        then (ok (take n (left fp)), advanced n fp)
        else if fp.broken
        then (thrown (system_error eio (codes "fread")), exhausted fp)
        else (thrown eof, exhausted fp))
unfolding read_fully read_loop is_open_for
read_fully_cases zero fp positive r = absurd (omega arith)
read_fully_cases (suc n) fp positive r =
    ground (arith, single_read_cases (suc n) fp r, length-take (suc n) (left fp))

pub read_record_cases :
    (size : ℕ) (fp : CFile)
    → 0 < size
    → IsReady reading fp
    → read_record size fp ≡ (
        if leb size (length (left fp))
        then (ok (take size (left fp)), advanced size fp)
        else if fp.broken
        then (thrown (system_error eio (codes "fread")), exhausted fp)
        else (thrown eof, exhausted fp))
unfolding read_record is_open_for
read_record_cases size fp h r = ground (arith, read_fully_cases size fp h r)

-- Every open stream is said to be open for writing, also one whose descriptor is only open for
-- reading, since O_RDONLY is 0 and no flags have a bit in common with it.
pub is_open_for-writing : (fp : CFile) → is_open_for (some fp) writing ≡ true
unfolding is_open_for
is_open_for-writing fp = ground (arith, bit_and-zero fp.flags)

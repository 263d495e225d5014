-- ===== src/File/Records.antt =====
-- `FileOf<Record>` of Sources/binary_file.hpp, for a record of `size` bytes. A method that is
-- `noexcept` ends the program where it throws here.
pub mod Next
pub mod Concat
pub mod Array
pub mod ReadBack
pub mod Accesses
pub mod Iteration
pub mod Append
mod Tests
use kssio.Prelude.{
  ℕ, ◌+◌, ◌-◌, ◌*◌, ◌/◌, ◌%◌, ◌^◌, Bool, true, false, not, ◌||◌, ltb, ◌==◌, if◌then◌else◌, Text,
  Result, ok, thrown, Sys, preconditions, postconditions,
}
use kssio.Prelude.Int.{ℤ, pos, negsuc}
use kssio.Prelude.Effect.{Effect, ◌>>=◌, ◌>>◌, pure, gets, assert, when}
use kssio.File.CFile.{CFile}
use kssio.File.Binary.{
  M, reading, writing, appending, is_open, tell, seek, rewind, fast_forward, flush, read_record,
  write_record,
}
use kssio.Stream.Iterator.{InputStream, InputIterator, begin}

-- A `size_t` as an `off_t`, both of 64 bits.
pub off_t_of : ℕ → ℤ
off_t_of n = if ltb n (2 ^ 63) then pos n else negsuc (2 ^ 64 - n - 1)

module _ (size : ℕ) where
  pub position : M ℕ
  position = do p ← tell; pure (p / size)

  -- What the constructors of FileOf check behind those of BinaryFile.
  check_start : M (Unit {0})
  unfolding position
  check_start = do
    at_end ← gets (is_open appending)
    when (not at_end) (position >>= λ p. assert postconditions (p == 0))

  pub set_position : ℕ → M (Unit {0})
  unfolding position
  set_position rec_no = do
    seek (off_t_of (rec_no * size % 2 ^ 64))
    p ← position
    assert postconditions (p == rec_no)

  -- `read()`
  pub read_next : M Text
  unfolding position
  read_next = do
    usable ← gets (is_open reading)
    assert preconditions usable
    p ← position
    r ← read_record size
    p' ← position
    assert postconditions (p' == p + 1)
    pure r

  -- `read(recNo)`
  pub read_at : ℕ → M Text
  unfolding set_position read_next
  read_at rec_no = set_position rec_no >> read_next

  -- `write(r)`
  pub write_next : Text → M (Unit {0})
  unfolding position
  write_next r = do
    usable ← gets (is_open writing)
    assert preconditions usable
    p ← position
    write_record r
    p' ← position
    assert postconditions (p' == p + 1)

  -- `write(r, recNo)`
  pub write_at : Text → ℕ → M (Unit {0})
  unfolding set_position write_next
  write_at r rec_no = do
    usable ← gets (is_open writing)
    at_end ← gets (is_open appending)
    assert preconditions usable
    assert preconditions (not at_end)
    set_position rec_no
    write_next r

  -- `eof()` and `operator>>`, as the iterators use them.
  abbrev pub record_stream : InputStream CFile Text
  record_stream = record { at_eof = λ fp. ok fp.at_eof; next_value = read_next }

  -- The stream at its beginning, from which `begin()` makes an iterator.
  pub begin_reading : M (Unit {0})
  begin_reading = do usable ← gets (is_open reading); assert preconditions usable; rewind

  -- The stream at its end, from which `obegin()` makes an iterator.
  begin_writing : M (Unit {0})
  begin_writing = do
    usable ← gets (is_open writing)
    at_end ← gets (is_open appending)
    assert preconditions (usable || at_end)
    fast_forward

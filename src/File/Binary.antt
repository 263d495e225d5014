-- ===== src/File/Binary.antt =====
-- `BinaryFile` of Sources/binary_file.cpp, and the templates `read` and `write` of binary_file.hpp. A
-- method is a function on the stream that the object holds; an object that holds none fails the
-- first check of each. A buffer is the bytes in it, and is not the null pointer.
pub mod Handles
pub mod Read
pub mod Write
pub mod Open
pub mod Seek
mod Tests
use kssio.Prelude.{
  or_throw, failed, ℕ, zero, suc, ◌+◌, ◌-◌, Bool, true, false, not, ◌&&◌, ◌||◌, Option, none, some,
  List, [], ◌∷◌, ◌++◌, ◌==◌, leb, bit_and, if◌then◌else◌, is_empty, length, take, drop, Text, codes,
  Exception, eof, Result, ok, thrown, system_error, invalid_argument, Sys, done, fails, parameters,
  preconditions, postconditions,
}
use kssio.Prelude.Int.{ℤ, pos, eqb_ℤ, leb_ℤ}
use kssio.Prelude.Effect.{
  Effect, ◌>>=◌, ◌>>◌, throw, pure, gets, modify, lift, when, assert, unless_throw,
}
use kssio.File.CFile.{
  CFile, o_wronly, o_rdwr, o_append, eio, has, fread, fwrite, ftello, seek_set, seek_cur, seek_end,
  offset_from,
}

-- `BinaryFile::mode_t`.
abbrev pub reading : ℕ
reading = 0x8

abbrev pub writing : ℕ
writing = 0x4

abbrev pub appending : ℕ
appending = 0x2

abbrev updating : ℕ
updating = 0x1

-- The argument is `_fp`, none for the null pointer.
unfoldable pub is_open_for : Option CFile → ℕ → Bool
is_open_for none mode = false
is_open_for (some fp) mode =
    if has mode reading && has fp.flags o_wronly
    then false
    else if has mode writing && has fp.flags 0
    then false
    else if has mode appending && not (has fp.flags o_append)
    then false
    else if has mode updating && not (has fp.flags o_rdwr)
    then false
    else true

abbrev pub M : Type 0 → Type 0
M A = Effect CFile A

abbrev pub is_open : ℕ → CFile → Bool
is_open mode fp = is_open_for (some fp) mode

-- A call of the C library, whose failure is thrown.
abbrev system_call : Text → (CFile → Sys CFile) → M (Unit {0})
system_call what call fp = elim (call fp) [
  | done fp' ↦ (ok tt, fp')
  | fails errno ↦ (thrown (system_error errno what), fp)
]

unfoldable pub tell : M ℕ
tell fp = elim (ftello fp) [
  | done p ↦ (ok p, fp)
  | fails errno ↦ (thrown (system_error errno (codes "ftello")), fp)
]

pub seek : ℤ → M (Unit {0})
unfolding tell
seek sp = do
  system_call (codes "fseeko") (seek_set sp)
  p ← tell
  assert postconditions (eqb_ℤ (pos p) sp)

pub move : ℤ → M (Unit {0})
unfolding tell
move offset = do
  p ← tell
  system_call (codes "fseeko") (seek_cur offset)
  p' ← tell
  assert postconditions (eqb_ℤ (pos p') (offset_from p offset))

-- `::rewind` also takes back the error, and sets `errno` where the device has no position.
pub rewind : M (Unit {0})
unfolding tell
rewind = do
  modify (λ fp. record fp { error = false })
  system_call (codes "rewind") (seek_set (pos 0))
  p ← tell
  assert postconditions (p == 0)

pub fast_forward : M (Unit {0})
fast_forward = system_call (codes "fseek") seek_end

-- `eof()`
is_at_eof : CFile → Bool
is_at_eof fp = fp.at_eof

-- What `fflush` says is an argument.
pub flush : Sys (Unit {0}) → M (Unit {0})
unfolding tell
flush flushed = do
  p ← tell
  system_call (codes "fflush") (λ fp. elim flushed [ done _ ↦ done fp | fails errno ↦ fails errno ])
  p' ← tell
  assert postconditions (p' == p)

single_read : ℕ → M Text
single_read n fp =
    let (bytes, fp') = fread n fp in
    if not (length bytes == n) && fp'.error
    then (thrown (system_error eio (codes "fread")), fp')
    else (ok bytes, fp')

single_write : Text → M ℕ
single_write buf fp =
    let (k, fp') = fwrite buf fp in
    if not (k == length buf) && fp'.error
    then (thrown (system_error eio (codes "fwrite")), fp')
    else (ok k, fp')

-- The bytes that were read.
pub read : ℕ → M Text
unfolding tell single_read is_open_for
read n = do
  assert parameters (not (n == 0))
  usable ← gets (is_open reading)
  assert preconditions usable
  p ← tell
  bytes ← single_read n
  p' ← tell
  assert postconditions (p' == p + length bytes)
  pure bytes

-- How many bytes were written.
pub write : Text → M ℕ
unfolding tell single_write is_open_for
write buf = do
  assert parameters (not (is_empty buf))
  usable ← gets (is_open writing)
  assert preconditions usable
  p ← tell
  k ← single_write buf
  at_end ← gets (is_open appending)
  p' ← tell
  assert postconditions (at_end || p' == p + k)
  pure k

-- The loop of readFully, with what remains and the bytes in the buffer. The loop ends before the
-- rounds do: each takes a byte at least, or finds the end or an error.
pub read_loop : ℕ → ℕ → Text → M (ℕ × Text)
unfolding single_read
read_loop zero remain buf = pure (remain, buf)
read_loop (suc rounds) remain buf = do
  fp ← gets (λ fp. fp)
  let next = do bytes ← single_read remain; read_loop rounds (remain - length bytes) (buf ++ bytes)
  if (remain == 0) || (fp.at_eof || fp.error) then pure (remain, buf) else next

-- What is in the buffer at the end.
pub read_fully : ℕ → M Text
unfolding read_loop tell is_open_for
read_fully n = do
  assert parameters (not (n == 0))
  usable ← gets (is_open reading)
  assert preconditions usable
  start_pos ← tell
  r ← read_loop (suc n) n []
  fp ← gets (λ fp. fp)
  when (not (r.0 == 0))
      (if fp.error then throw (system_error eio (codes "fread")) else when fp.at_eof (throw eof))
  p ← tell
  assert postconditions (p == start_pos + n)
  pure r.1

-- The loop of writeFully, with the bytes that remain.
pub write_loop : ℕ → Text → M (Unit {0})
unfolding single_write
write_loop zero buf = pure tt
write_loop (suc rounds) buf = do
  fp ← gets (λ fp. fp)
  let next = do k ← single_write buf; write_loop rounds (drop k buf)
  if is_empty buf || fp.error then pure tt else next

pub write_fully : Text → M (Unit {0})
unfolding write_loop tell is_open_for
write_fully buf = do
  assert parameters (not (is_empty buf))
  usable ← gets (is_open writing)
  assert preconditions usable
  starting_pos ← tell
  write_loop (suc (length buf)) buf
  fp ← gets (λ fp. fp)
  when fp.error (throw (system_error eio (codes "fwrite")))
  at_end ← gets (is_open appending)
  p ← tell
  assert postconditions (at_end || p == starting_pos + length buf)

-- `read<Record>(f)`, for a record of some bytes.
pub read_record : ℕ → M Text
unfolding read_fully tell is_open_for
read_record size = do
  usable ← gets (is_open reading)
  assert parameters usable
  p ← tell
  rec ← read_fully size
  p' ← tell
  assert postconditions (p' == p + size)
  pure rec

-- `write<Record>(f, rec)`
pub write_record : Text → M (Unit {0})
unfolding write_fully tell is_open_for
write_record rec = do
  usable ← gets (is_open writing)
  assert parameters usable
  p ← tell
  write_fully rec
  at_end ← gets (is_open appending)
  p' ← tell
  assert postconditions (at_end || p' == p + length rec)

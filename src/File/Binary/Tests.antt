-- ===== src/File/Binary/Tests.antt =====
-- Concrete streams.
use kssio.Prelude.{
  ◌≡◌, not, leb, length, take, true, false, some, ok, thrown, eof, system_error, invalid_argument,
  codes, refl, arith, if◌then◌else◌, ℕ, Text, Sys, done,
}
use kssio.File.CFile.{CFile, left, o_rdwr, eio, fopened, fread, fwrite}
use kssio.File.Binary.{read_fully, write_fully, reading, writing, is_open_for}
use kssio.File.Binary.Read.{IsReady, advanced, exhausted, read_fully_cases, is_open_for-writing}
use kssio.File.Binary.Write.{is_writable, written, cut_short, write_fully_cases}
use kssio.File.Binary.Open.{construct, construct_cases, is_valid, stream_for}

abbrev open_file : CFile
open_file = record {
  content = codes "xabc";
  position = 1;
  at_eof = false;
  error = false;
  flags = o_rdwr;
  seekable = true;
  broken = false;
  room = 2;
}

too_short : read_fully 4 open_file ≡ (thrown eof, exhausted open_file)
unfolding read_fully fread
too_short = refl

in_place : (write_fully (codes "pq") open_file).1.content ≡ codes "xpqc"
unfolding write_fully fwrite
in_place = refl

open_file-IsReady : (mode : ℕ) → is_open_for (some open_file) mode ≡ true → IsReady mode open_file
open_file-IsReady mode h = record {
  opened = h;
  has_position = refl;
  before_end = refl;
  without_error = refl;
}

read_fully_cases_example : read_fully 2 open_file ≡ (
    if leb 2 (length (left open_file))
    then (ok (take 2 (left open_file)), advanced 2 open_file)
    else if open_file.broken
    then (thrown (system_error eio (codes "fread")), exhausted open_file)
    else (thrown eof, exhausted open_file))
read_fully_cases_example =
    read_fully_cases 2 open_file (omega arith)
      (open_file-IsReady reading (unfold is_open_for in refl))

read_only_open : is_open_for (some open_file) writing ≡ true
read_only_open = is_open_for-writing open_file

write_fully_cases_example : write_fully (codes "pqr") open_file ≡ (
    if not (is_writable open_file)
    then (thrown (system_error eio (codes "fwrite")), record open_file { error = true })
    else if leb (length (codes "pqr")) open_file.room
    then (ok tt, written (codes "pqr") open_file)
    else (thrown (system_error eio (codes "fwrite")), cut_short (codes "pqr") open_file))
write_fully_cases_example =
    write_fully_cases (codes "pqr") open_file refl
      (open_file-IsReady writing (unfold is_open_for in refl))

abbrev open_one : Text → Text → Sys CFile
open_one filename mode = done (fopened mode (codes "old") 9)

construct_cases_example : construct open_one (codes "data") 3 ≡ (
    if is_valid 3
    then ok (stream_for 3 (codes "old") 9)
    else thrown (invalid_argument (codes "invalid openMode")))
construct_cases_example =
    construct_cases open_one (codes "data") (codes "old") 9 refl (λ mode. refl) 3

-- ===== src/File/CFile.antt =====
-- The C streams that Sources/binary_file.cpp works on: what the C library documents of `FILE*`,
-- with the buffer written through. The numbers are those of Linux.
use kssio.Prelude.{
  ℕ, ◌+◌, ◌-◌, Bool, true, false, not, ◌&&◌, ◌||◌, [], ◌∷◌, ◌++◌, ◌==◌, leb, bit_and, min,
  if◌then◌else◌, length, take, drop, replicate, Text, Sys, done, fails,
}
use kssio.Prelude.Int.{ℤ, pos, negsuc}

-- The numbers of O_WRONLY, O_RDWR and O_APPEND; O_RDONLY is 0.
abbrev pub o_wronly : ℕ
o_wronly = 1

abbrev pub o_rdwr : ℕ
o_rdwr = 2

abbrev pub o_append : ℕ
o_append = 0o2000

-- The numbers of EIO, EINVAL and ESPIPE.
abbrev pub eio : ℕ
eio = 5

abbrev pub einval : ℕ
einval = 22

abbrev espipe : ℕ
espipe = 29

-- The bytes of the file, the position, the two indicators, the flags of the descriptor, whether the
-- device has a position (a pipe has none), whether reading fails behind the last byte, and how many
-- bytes can still be written.
pub record CFile : Type 0 where
  pub content : Text
  pub position : ℕ
  pub at_eof : Bool
  pub error : Bool
  pub flags : ℕ
  pub seekable : Bool
  pub broken : Bool
  pub room : ℕ

abbrev pub has : ℕ → ℕ → Bool
has bits mask = not (bit_and bits mask == 0)

-- The bytes behind the position.
abbrev pub left : CFile → Text
left fp = drop fp.position fp.content

-- `fread(buf, 1, n, fp)`: the bytes, and the stream then.
unfoldable pub fread : ℕ → CFile → Text × CFile
fread n fp =
    if has fp.flags o_wronly
    then ([], record fp { error = true })
    else if leb n (length (left fp))
    then (take n (left fp), record fp { position = fp.position + n })
    else (
      left fp,
      record fp {
        position = fp.position + length (left fp);
        at_eof = if fp.broken then fp.at_eof else true;
        error = if fp.broken then true else fp.error;
      },
    )

-- The bytes of a file with others written at a position; a gap is filled with zeros.
abbrev pub overwrite : Text → ℕ → Text → Text
overwrite content at bytes =
    take at content
    ++ (replicate (at - length content) 0 ++ (bytes ++ drop (at + length bytes) content))

-- `fwrite(bytes, 1, length of bytes, fp)`: how many bytes were written, and the stream then.
unfoldable pub fwrite : Text → CFile → ℕ × CFile
fwrite bytes fp =
    if not (has fp.flags o_wronly) && not (has fp.flags o_rdwr)
    then (0, record fp { error = true })
    else (let at = if has fp.flags o_append then length fp.content else fp.position in
        let k = min (length bytes) fp.room in
        (
          k,
          record fp {
            content = overwrite fp.content at (take k bytes);
            position = at + k;
            room = fp.room - k;
            error = if leb (length bytes) fp.room then fp.error else true;
          },
        ))

-- `ftello(fp)`
abbrev pub ftello : CFile → Sys ℕ
ftello fp = if fp.seekable then done fp.position else fails espipe

-- `fseeko(fp, offset, SEEK_SET)` and `fseeko(fp, offset, SEEK_CUR)`.
unfoldable pub seek_to : ℤ → CFile → Sys CFile
seek_to (pos n) fp =
    if fp.seekable then done (record fp { position = n; at_eof = false }) else fails espipe
seek_to (negsuc n) fp = if fp.seekable then fails einval else fails espipe

abbrev pub seek_set : ℤ → CFile → Sys CFile
seek_set offset fp = seek_to offset fp

-- An offset from a position.
abbrev pub offset_from : ℕ → ℤ → ℤ
offset_from p (pos n) = pos (p + n)
offset_from p (negsuc n) = if leb (n + 1) p then pos (p - (n + 1)) else negsuc (n - p)

abbrev pub seek_cur : ℤ → CFile → Sys CFile
seek_cur offset fp = seek_to (offset_from fp.position offset) fp

-- `fseek(fp, 0, SEEK_END)`
abbrev pub seek_end : CFile → Sys CFile
seek_end fp = seek_to (pos (length fp.content)) fp

-- Whether a mode of `fopen` has a letter.
abbrev has_letter : ℕ → Text → Bool
has_letter c [] = false
has_letter c (d ∷ mode) = (c == d) || has_letter c mode

-- The stream that `fopen` gives for a mode and a file on a disk: `w` empties the file, `a` writes at
-- the end, and `+` opens it for both. The position is the beginning, also with `a`, as on Linux.
unfoldable pub fopened : Text → Text → ℕ → CFile
fopened mode content room = record {
  content = if has_letter b'w' mode then [] else content;
  position = 0;
  at_eof = false;
  error = false;
  flags =
      (if has_letter b'+' mode then o_rdwr else if has_letter b'r' mode then 0 else o_wronly)
      + (if has_letter b'a' mode then o_append else 0);
  seekable = true;
  broken = false;
  room = room;
}

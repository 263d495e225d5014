-- ===== src/File/Binary/Open.antt =====
-- The constructors of `BinaryFile`, and the modes in which they open.
use kssio.Prelude.{
  inr, ==_iff, inl, refl, Bool-cases, ◌%◌, ◌/◌, ℕ, ◌+◌, Bool, true, false, not, ◌&&◌, ◌||◌, Option,
  none, some, ◌==◌, if◌then◌else◌, is_empty, Text, codes, Result, ok, thrown, invalid_argument,
  failed, Sys, or_throw, parameters, postconditions, check, ◌>>=◌, ◌>>◌, ◌≡◌, length, arith,
}
use kssio.Prelude.Int.{ℤ, leb_ℤ, pos}
use kssio.Prelude.Effect
use kssio.File.CFile.{CFile, o_wronly, o_rdwr, o_append, has, fopened, seek_to}
use kssio.File.Binary.{[], done, M, appending, is_open_for, is_open, fast_forward, tell}

-- `toOpenModeString(mode_t)`
open_mode_string : ℕ → Result Text
open_mode_string open_mode =
    if open_mode == 8
    then ok (codes "rb")
    else if open_mode == 4
    then ok (codes "wb")
    else if open_mode == 2
    then ok (codes "ab")
    else if open_mode == 9
    then ok (codes "rb+")
    else if open_mode == 5
    then ok (codes "wb+")
    else if open_mode == 3
    then ok (codes "ab+")
    else thrown (invalid_argument (codes "invalid openMode"))

-- `toOpenModeString(int filedes)`, from the flags of the descriptor.
flags_mode_string : ℕ → Text
flags_mode_string flags =
    if has flags o_append && has flags o_wronly
    then codes "ab"
    else if has flags o_append && has flags o_rdwr
    then codes "ab+"
    else if has flags o_wronly
    then codes "wb"
    else if has flags o_rdwr
    then codes "wb+"
    else codes "rb"

-- The end of a constructor that finds its stream at the beginning, unless all writing is at the end.
at_start : Bool → M (Unit {0})
unfolding tell
at_start anywhere =
    Effect.when (not anywhere) (Effect.◌>>=◌ tell λ p. Effect.assert postconditions (p == 0))

finish_open : ℕ → M (Unit {0})
unfolding at_start fast_forward is_open_for
finish_open open_mode fp =
    Effect.◌>>◌ (Effect.when (is_open appending fp) fast_forward)
      (Effect.◌>>◌ (λ fp'. Effect.assert postconditions (is_open open_mode fp') fp')
        (at_start (has open_mode appending)))
      fp

-- The stream, if the constructor returns.
opened : M (Unit {0}) → CFile → Result CFile
opened finish fp = let (r, fp') = finish fp in elim r [ ok _ ↦ ok fp' | thrown e ↦ thrown e ]

-- `BinaryFile(filename, openMode)`: `open_stream` is `fopen`, for a name and a mode.
pub construct : (Text → Text → Sys CFile) → Text → ℕ → Result CFile
unfolding open_mode_string finish_open opened
construct open_stream filename open_mode = do
  check parameters (not (is_empty filename))
  mode ← open_mode_string open_mode
  fp ← or_throw (codes "fopen") (open_stream filename mode)
  opened (finish_open open_mode) fp

-- `BinaryFile(fp)`
construct_from_stream : Option CFile → Result CFile
unfolding at_start opened is_open_for
construct_from_stream none = thrown (failed parameters)
construct_from_stream (some fp) = opened (at_start (is_open appending fp)) fp

-- `BinaryFile(filedes)`, from the flags of the descriptor; `fdopen` gets the mode.
construct_from_descriptor : (Text → Sys CFile) → ℤ → ℕ → Result CFile
unfolding flags_mode_string at_start opened is_open_for
construct_from_descriptor fdopen filedes flags = do
  check parameters (leb_ℤ (pos 0) filedes)
  fp ← or_throw (codes "fopen") (fdopen (flags_mode_string flags))
  opened (at_start (is_open appending fp)) fp

-- One of reading, writing and appending, with or without updating.
abbrev pub is_valid : ℕ → Bool
is_valid open_mode = (open_mode / 2 == 4) || ((open_mode / 2 == 2) || (open_mode / 2 == 1))

-- What a mode means for a file: writing empties it, appending starts at its end, and updating opens
-- it for both.
abbrev pub stream_for : ℕ → Text → ℕ → CFile
stream_for open_mode content room = record {
  content = if open_mode / 2 == 2 then [] else content;
  position = if open_mode / 2 == 1 then length content else 0;
  at_eof = false;
  error = false;
  flags =
      (if open_mode % 2 == 1 then o_rdwr else if open_mode / 2 == 4 then 0 else o_wronly)
      + (if open_mode / 2 == 1 then o_append else 0);
  seekable = true;
  broken = false;
  room = room;
}

module _ (open_stream : Text → Text → Sys CFile) (filename content : Text) (room : ℕ)
    (named : is_empty filename ≡ false)
    (documented : (mode : Text)
      → open_stream filename mode ≡ done (fopened mode content room)) where
  construct_mode :
      (open_mode : ℕ) (mode : Text)
      → open_mode_string open_mode ≡ ok mode
      → construct open_stream filename open_mode
        ≡ opened (finish_open open_mode) (fopened mode content room)
  unfolding construct
  construct_mode open_mode mode e = rw (named, e, documented mode)

  abbrev IsRight : ℕ → Type 0
  IsRight open_mode = construct open_stream filename open_mode ≡ (
      if is_valid open_mode
      then ok (stream_for open_mode content room)
      else thrown (invalid_argument (codes "invalid openMode")))

  IsRight-at :
      (open_mode k : ℕ)
      → IsRight k
      → ((open_mode == k) ≡ false → IsRight open_mode)
      → IsRight open_mode
  IsRight-at open_mode k at otherwise = elim (Bool-cases (open_mode == k)) [
    | inl e ↦ rw ((==_iff open_mode k).0 e) at
    | inr e ↦ otherwise e
  ]

  invalid_mode :
      (open_mode : ℕ)
      → (open_mode == 8) ≡ false
      → (open_mode == 4) ≡ false
      → (open_mode == 2) ≡ false
      → (open_mode == 9) ≡ false
      → (open_mode == 5) ≡ false
      → (open_mode == 3) ≡ false
      → IsRight open_mode
  unfolding construct open_mode_string
  invalid_mode open_mode a b c d e f =
      let bad : is_valid open_mode ≡ false = ground arith in rw (bad, named, a, b, c, d, e, f)

  -- If `fopen` opens the file as it is documented, the constructor gives a stream for the mode, with
  -- its postconditions met, exactly for the six modes that the class allows, and throws
  -- invalid_argument for every other number.
  pub construct_cases :
      (open_mode : ℕ)
      → construct open_stream filename open_mode ≡ (
          if is_valid open_mode
          then ok (stream_for open_mode content room)
          else thrown (invalid_argument (codes "invalid openMode")))
  unfolding construct_mode open_mode_string finish_open opened fopened seek_to
  construct_cases open_mode = IsRight-at open_mode 8 (construct_mode 8 (codes "rb") refl) λ a.
      IsRight-at open_mode 4 (construct_mode 4 (codes "wb") refl) λ b.
        IsRight-at open_mode 2 (construct_mode 2 (codes "ab") refl) λ c.
          IsRight-at open_mode 9 (construct_mode 9 (codes "rb+") refl) λ d.
            IsRight-at open_mode 5 (construct_mode 5 (codes "wb+") refl) λ e.
              IsRight-at open_mode 3 (construct_mode 3 (codes "ab+") refl)
                λ f. invalid_mode open_mode a b c d e f

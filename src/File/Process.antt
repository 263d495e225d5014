-- ===== src/File/Process.antt =====
-- The processing of whole files of Sources/fileutil.cpp: writeFile and processFile, the functionals
-- LineByLine and CharByChar, and copyFile. A callback changes a state `W` and may throw.
pub mod Lines
pub mod Copy
mod Tests
use kssio.Prelude.{
  failed, ℕ, zero, suc, ◌+◌, Bool, true, false, not, Option, none, some, List, [], ◌∷◌, ◌++◌, ◌==◌,
  ◌&&◌, leb, if◌then◌else◌, is_empty, length, take, drop, Text, codes, Result, ok, thrown,
  system_error, Sys, done, fails, parameters, postconditions, check, require, ◌>>=◌, ◌>>◌,
}

-- `doProcess<Stream>`: opening gives the stream or an `errno`; `bad` reads the stream's bad bit,
-- and `error` is the `errno` that is set then.
do_process :
    {S : Type 0} → Sys S → (S → Bool) → ℕ → Text → Text → (S → Result S) → Result (Unit {0})
do_process opened bad error filename mode fn = do
  check parameters (not (is_empty filename))
  strm ← (elim opened [
    | done s ↦ ok s
    | fails errno ↦ thrown (system_error errno (codes "Failed to open " ++ filename))
  ])
  strm' ← fn strm
  require (not (bad strm'))
      (system_error error (codes "Failed while " ++ (mode ++ (codes " " ++ filename))))

unfoldable write_file :
    {S : Type 0} → Sys S → (S → Bool) → ℕ → Text → (S → Result S) → Result (Unit {0})
unfolding do_process
write_file opened bad error filename fn = do_process opened bad error filename (codes "writing") fn

unfoldable process_file :
    {S : Type 0} → Sys S → (S → Bool) → ℕ → Text → (S → Result S) → Result (Unit {0})
unfolding do_process
process_file opened bad error filename fn =
    do_process opened bad error filename (codes "processing") fn

-- The characters up to the delimiter, and those behind it.
pub span : ℕ → Text → Text × Text
span delim [] = ([], [])
span delim (c ∷ s) = let r = span delim s in if c == delim then ([], s) else (c ∷ r.0, r.1)

-- `getline(strm, line, delim)`: it fails if there is no character left.
pub getline : ℕ → Text → Option (Text × Text)
getline delim [] = none
getline delim (c ∷ s) = some (span delim (c ∷ s))

module _ {W : Type 0} where
  -- `LineByLine::operator()`; none if the fuel runs out.
  pub line_by_line : ℕ → ℕ → (Text → W → Result W) → Text → W → Option (Result W)
  line_by_line zero delim fn strm w = none
  line_by_line (suc fuel) delim fn strm w = elim (getline delim strm) [
    | none ↦ some (ok w)
    | some (line, rest) ↦ elim (fn line w) [
      | thrown e ↦ some (thrown e)
      | ok w' ↦ line_by_line fuel delim fn rest w'
    ]
  ]

  -- `CharByChar::operator()`
  unfoldable pub char_by_char : (ℕ → W → Result W) → Text → W → Result W
  char_by_char fn [] w = ok w
  char_by_char fn (ch ∷ strm) w = do w' ← fn ch w; char_by_char fn strm w'

-- A `FILE*` open for reading: what is left, whether the device fails at the end of that, and the
-- indicators.
pub record InFile : Type 0 where
  pub rest : Text
  pub broken : Bool
  pub at_eof : Bool
  pub error : Bool

-- `fread(buffer, 1, n, f)`
fread : ℕ → InFile → Text × InFile
fread n f = if leb n (length f.rest) then (take n f.rest, record f { rest = drop n f.rest }) else (
  f.rest,
  record f {
    rest = [];
    at_eof = if f.broken then f.at_eof else true;
    error = if f.broken then true else f.error;
  },
)

abbrev bufsiz : ℕ
bufsiz = 8192

-- The loop of copyFile, with buffers of `size` bytes: what is written behind `out`, or none if the
-- fuel runs out.
pub copy_loop : ℕ → ℕ → InFile → Text → Option Text
unfolding fread
copy_loop zero size ifile out = none
copy_loop (suc fuel) size ifile out =
    let r = fread size ifile in
    let next = copy_loop fuel size r.1 (out ++ r.0) in if ifile.at_eof then some out else next

-- The two files: what opening the source and creating the destination say, whether writing fails,
-- with the `errno`, and what `isFile` answers for the two in the end.
pub record CopyFiles : Type 0 where
  pub source : Sys InFile
  pub destination : Sys (Unit {0})
  pub write_error : Option ℕ
  pub source_is_file : Result Bool
  pub destination_is_file : Result Bool

-- What is in the destination, if the call returns. A release build does not compare the sizes.
unfoldable pub copy_file : ℕ → CopyFiles → Text → Text → Option (Result Text)
unfolding copy_loop
copy_file fuel files source_filename destination_filename =
    if is_empty source_filename
    then some (thrown (failed parameters))
    else if is_empty destination_filename
    then some (thrown (failed parameters))
    else elim files.source [
      | fails errno ↦
          some (thrown (system_error errno (codes "Failed to open " ++ source_filename)))
      | done ifile ↦ elim files.destination [
        | fails errno ↦
            some (thrown (system_error errno (codes "Failed to create " ++ destination_filename)))
        | done _ ↦ elim (copy_loop fuel bufsiz ifile []) [
          | none ↦ none
          | some out ↦ elim files.write_error [
            | some errno ↦ some (
                thrown (system_error errno (codes "Failed while writing " ++ destination_filename)))
            | none ↦ some (do
              source_ok ← files.source_is_file
              destination_ok ← files.destination_is_file
              check postconditions (source_ok && destination_ok)
              ok out)
          ]
        ]
      ]
    ]

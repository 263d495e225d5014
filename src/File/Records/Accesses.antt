-- ===== src/File/Records/Accesses.antt =====
-- Any sequence of reads and writes by number, on a file of records and on the array of them.
use kssio.Prelude.{
  ℕ, ◌+◌, ◌*◌, ◌^◌, ◌<◌, ◌≤◌, ◌≡◌, length, get_or, List, [], ◌∷◌, Text, ok, refl, arith, ◌∙◌,
}
use kssio.Prelude.Effect.{after_ok, ◌>>◌, ◌>>=◌, pure}
use kssio.File.CFile.{CFile}
use kssio.File.Binary.{M}
use kssio.File.Binary.Write.{IsReceiving}
use kssio.File.Binary.Seek.{placed}
use kssio.File.Records.{read_at, write_at}
use kssio.File.Records.Concat.{put}
use kssio.File.Records.Array.{IsArray, read_at-get_or, write_at-put}
use kssio.File.Records.ReadBack.{
  IsReadWrite, stored, stored-IsArray, stored-IsReadWrite, read-IsReadWrite, placed-IsArray,
}

pub data Access : Type 0 where
  get_at : ℕ → Access
  set_at : ℕ → Text → Access

-- The records that are read, and the records at the end.
pub run_array : List Access → List Text → List Text × List Text
run_array [] rs = ([], rs)
run_array (get_at j ∷ accesses) rs =
    let (read, rs') = run_array accesses rs in (get_or rs j [] ∷ read, rs')
run_array (set_at i r ∷ accesses) rs = run_array accesses (put rs i r)

-- A record that is read is there, and one that is written has the size and is there or comes next.
abbrev pub IsWithin : ℕ → List Access → List Text → Type 0
IsWithin size [] rs = Unit
IsWithin size (get_at j ∷ accesses) rs =
    (j < length rs) × ((j * size < 2 ^ 63) × IsWithin size accesses rs)
IsWithin size (set_at i r ∷ accesses) rs =
    (length r ≡ size)
    × ((i ≤ length rs) × ((i * size < 2 ^ 63) × IsWithin size accesses (put rs i r)))

-- How many bytes are written.
abbrev volume : ℕ → List Access → ℕ
volume size [] = 0
volume size (get_at j ∷ accesses) = volume size accesses
volume size (set_at i r ∷ accesses) = size + volume size accesses

pub IsReceiving-add : (n m : ℕ) (fp : CFile) → IsReceiving (n + m) fp → IsReceiving n fp
IsReceiving-add n m fp t = record {
  ready = t.ready;
  writable = t.writable;
  at_position = t.at_position;
  enough_room = omega (arith, t.enough_room);
}

module _ (size : ℕ) where
  pub run_file : List Access → M (List Text)
  run_file [] = pure []
  run_file (get_at j ∷ accesses) = do r ← read_at size j; read ← run_file accesses; pure (r ∷ read)
  run_file (set_at i r ∷ accesses) = write_at size r i >> run_file accesses

  -- A file of records that is open for both and has the space for what is written is the array of
  -- its records: any accesses within it read what they read there, and leave the records that they
  -- leave there.
  pub run_file-run_array :
      (accesses : List Access) (rs : List Text) (fp : CFile)
      → IsArray size rs fp
      → IsReadWrite (volume size accesses) fp
      → IsWithin size accesses rs
      → (fp' : CFile) × (run_file accesses fp ≡ (ok (run_array accesses rs).0, fp'))
        × IsArray size (run_array accesses rs).1 fp'
  unfolding run_file run_array
  run_file-run_array [] rs fp array both within = (fp, refl, array)
  run_file-run_array (get_at j ∷ accesses) rs fp array both (there, (small, within)) =
      let fp1 = placed (j * size + size) fp in
      let (fp', runs, array') =
        run_file-run_array accesses rs fp1 (placed-IsArray size rs (j * size + size) fp array)
          (read-IsReadWrite size (volume size accesses) (j * size + size) fp both) within in
      (
        fp',
        after_ok (read_at size j) (λ r. run_file accesses >>= λ read. pure (r ∷ read))
              (read_at-get_or size rs j fp array small both.opened there)
            ∙ after_ok (run_file accesses) (λ read. pure (get_or rs j [] ∷ read)) runs,
        array',
      )
  run_file-run_array (set_at i r ∷ accesses) rs fp array both (full, (there, (small, within))) =
      let fp1 = stored size rs i r fp in
      let (fp', runs, array') =
        run_file-run_array accesses (put rs i r) fp1 (stored-IsArray size rs i r fp array full)
          (stored-IsReadWrite size (volume size accesses) rs i r fp both) within in
      (
        fp',
        after_ok (write_at size r i) (λ _. run_file accesses)
              (write_at-put size rs i fp array r full small there
                (IsReceiving-add size (volume size accesses) fp both.receiving))
            ∙ runs,
        array',
      )

-- ===== src/File/Records/Iteration.antt =====
-- A loop over a file of records.
use kssio.Prelude.{
  concat, ℕ, ◌+◌, ◌<◌, ◌≡◌, length, List, [], ◌∷◌, ◌++◌, append_assoc, append-nil, leb,
  length-append, take, drop, Text, ok, thrown, false, true, refl, arith, ap, ◌∙◌, Result, some,
  Option,
}
use kssio.File.CFile.{CFile, left}
use kssio.File.Binary.{reading, is_open}
use kssio.File.Binary.Read.{IsReady, advanced, exhausted}
use kssio.File.Binary.Seek.{placed, rewind_lem, is_open-flags, placed-IsReady}
use kssio.File.Records.{record_stream, begin_reading}
use kssio.File.Records.Concat.{IsSized, take_behind, drop_behind, drop-drop}
use kssio.File.Records.Next.{read_next_cases}
use kssio.Stream.Iterator.Contents.{
  Holds, found_end, holds, run_range, for_each_value, run_range-for_each_value,
}

module _ (size : ℕ) (default : Text) {W : Type 0} (fn : Text → W → Result W)
    (fuel address : ℕ) where
  after_begin : Result (Unit {0}) × CFile → W → Option (Result W)
  after_begin (ok _, fp) w = run_range (record_stream size) default fn fuel address fp w
  after_begin (thrown e, fp) w = some (thrown e)

  -- `for (auto& r : f) fn(r);`: the loop from `f.begin()` to `f.end()`, on fuel.
  pub for_each_record : CFile → W → Option (Result W)
  unfolding after_begin
  for_each_record fp w = after_begin (begin_reading size fp) w

module _ (size : ℕ) (positive : 0 < size) (partial : Text) (short : length partial < size) where
  -- What is left of a file, in records: the end is only found by reading.
  Holds-left :
      (rs : List Text) (fp : CFile)
      → IsSized size rs
      → left fp ≡ concat rs ++ partial
      → IsReady reading fp
      → fp.broken ≡ false
      → Holds (record_stream size) fp rs
  Holds-left [] fp sized rest ready fine =
      let few : leb size (length partial) ≡ false = ground arith in
      found_end fp (exhausted fp) (ap ok ready.before_end)
        (read_next_cases size fp positive ready ∙ rw (rest, few, fine) refl)
  Holds-left (r ∷ rs) fp sized rest ready fine =
      let later = concat rs ++ partial in
      let all : left fp ≡ r ++ later = rest ∙ append_assoc r (concat rs) partial in
      let enough : leb size (length (r ++ later)) ≡ true =
        ground (arith, length-append r later, sized.0) in
      let first : take size (r ++ later) ≡ r =
        take_behind r later size 0 (omega (arith, sized.0)) ∙ append-nil r in
      let behind : left (advanced size fp) ≡ later =
        drop-drop (fp.position + size) fp.position size fp.content refl
        ∙ ap (λ t. drop size t) all
        ∙ drop_behind r later size 0 (omega (arith, sized.0)) in
      let ready' : IsReady reading (advanced size fp) = record {
        opened = is_open-flags reading (advanced size fp) fp refl ∙ ready.opened;
        has_position = ready.has_position;
        before_end = ready.before_end;
        without_error = ready.without_error;
      } in
      holds fp (advanced size fp) r rs (ap ok ready.before_end)
        (read_next_cases size fp positive ready ∙ rw (all, enough, first) refl)
        (Holds-left rs (advanced size fp) sized.1 behind ready' fine)

  -- `begin()` on a file of records: the stream that the iterator reads.
  begin_reading_lem :
      (fp : CFile)
      → is_open reading fp ≡ true
      → fp.seekable ≡ true
      → begin_reading size fp ≡ (ok tt, placed 0 (record fp { error = false }))
  unfolding begin_reading
  begin_reading_lem fp opened seekable = rw opened (rewind_lem fp seekable)

  -- A loop over a file of records, from its `begin()` to its `end()`, calls its function once for
  -- each record, in order, until a call throws, wherever the stream was before, and it ends; bytes
  -- at the end of the file that are fewer than a record are left out without an error.
  pub for_each_record-for_each_value :
      {W : Type 0}
      → (default : Text) → (fn : Text → W → Result W) → (fuel address : ℕ) → (rs : List Text)
      → (fp : CFile) → (w : W) → IsSized size rs
      → fp.content ≡ concat rs ++ partial
      → is_open reading fp ≡ true
      → fp.seekable ≡ true
      → fp.broken ≡ false
      → length rs + 1 < fuel
      → for_each_record size default fn fuel address fp w
        ≡ some (for_each_value (record_stream size) default fn rs w)
  unfolding for_each_record after_begin
  for_each_record-for_each_value default fn fuel address rs fp w sized content opened seekable fine
        enough =
      let fp' = record fp { error = false } in
      let ready : IsReady reading (placed 0 fp') =
        placed-IsReady 0 fp' (is_open-flags reading fp' fp refl ∙ opened) seekable refl in
      ap (λ z. after_begin size default fn fuel address z w) (begin_reading_lem fp opened seekable)
      ∙ run_range-for_each_value (record_stream size) default fn fuel address (placed 0 fp') rs w
          (Holds-left rs (placed 0 fp') sized content ready fine) enough

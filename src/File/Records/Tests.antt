-- ===== src/File/Records/Tests.antt =====
-- Concrete files of records.
use kssio.Prelude.{
  ◌++◌, ◌≡◌, ◌+◌, ◌/◌, ◌<◌, ◌==◌, ℕ, length, true, false, some, ok, thrown, codes, refl, arith,
  if◌then◌else◌, Text, List, [], ◌∷◌, Result, failed, postconditions,
}
use kssio.File.CFile.{CFile, o_rdwr, o_append}
use kssio.File.Binary.{is_open_for}
use kssio.File.Binary.Write.{written}
use kssio.File.Records.{write_next, record_stream}
use kssio.File.Records.Next.{write_next-appending}
use kssio.File.Records.Array.{IsArray}
use kssio.File.Records.ReadBack.{IsReadWrite}
use kssio.File.Records.Accesses.{Access, get_at, set_at, run_file, run_array, run_file-run_array}
use kssio.File.Records.Append.{append_records, append_records-concat}
use kssio.File.Records.Iteration.{for_each_record, for_each_record-for_each_value}
use kssio.Stream.Iterator.Contents.{for_each_value}

abbrev two_records : List Text
two_records = codes "ab" ∷ codes "cd" ∷ []

abbrev records_file : ℕ → CFile
records_file flags = record {
  content = codes "abcd";
  position = 1;
  at_eof = true;
  error = false;
  flags = flags;
  seekable = true;
  broken = false;
  room = 9;
}

abbrev both : CFile
both = record (records_file o_rdwr) { at_eof = false }

abbrev at_end : CFile
at_end = record (records_file (o_rdwr + o_append)) { at_eof = false }

both-IsArray : IsArray 2 two_records both
both-IsArray = record {
  has_size = omega arith;
  sized = (refl, (refl, tt));
  whole = refl;
  has_position = refl;
  without_error = refl;
}

both-IsReadWrite : (n : ℕ) → n < 10 → IsReadWrite n both
unfolding is_open_for
both-IsReadWrite n h = record {
  opened = refl;
  receiving = record {
    ready = record { opened = refl; has_position = refl; before_end = refl; without_error = refl };
    writable = refl;
    at_position = refl;
    enough_room = omega arith;
  };
}

abbrev some_accesses : List Access
some_accesses = set_at 2 (codes "pq") ∷ get_at 2 ∷ set_at 0 (codes "rs") ∷ get_at 0 ∷ []

run_file-run_array_example :
    (fp' : CFile) × (run_file 2 some_accesses both
      ≡ (ok (run_array some_accesses two_records).0, fp'))
    × IsArray 2 (run_array some_accesses two_records).1 fp'
run_file-run_array_example =
    run_file-run_array 2 some_accesses two_records both both-IsArray
      (both-IsReadWrite 4 (omega arith))
      (
        refl,
        (
          omega arith,
          (
            omega arith,
            (
              omega arith,
              (omega arith, (refl, (omega arith, (omega arith, (omega arith, (omega arith, tt)))))),
            ),
          ),
        ),
      )

abbrev collect : Text → List Text → Result (List Text)
collect r rs = ok (r ∷ rs)

for_each_record_example :
    for_each_record 2 [] collect 4 1000 (records_file 0) []
    ≡ some (for_each_value (record_stream 2) [] collect two_records [])
for_each_record_example =
    for_each_record-for_each_value 2 (omega arith) [] (omega arith) [] collect 4 1000 two_records
      (records_file 0) [] (refl, (refl, tt)) refl (unfold is_open_for in refl) refl refl
      (omega arith)

write_next-appending_example : write_next 2 (codes "pq") at_end ≡ (
  if length at_end.content / 2 == at_end.position / 2
      then ok tt
      else thrown (failed postconditions),
  written (codes "pq") at_end,
)
unfolding is_open_for
write_next-appending_example =
    write_next-appending 2 (codes "pq") at_end refl (omega arith)
      (record { opened = refl; has_position = refl; before_end = refl; without_error = refl }) refl
      refl (omega arith)

append_records-concat_example :
    (fp' : CFile) × (append_records 2 1000 (codes "pq" ∷ []) both ≡ some (ok tt, fp'))
    × IsArray 2 (two_records ++ codes "pq" ∷ []) fp'
append_records-concat_example =
    append_records-concat 2 1000 (omega arith) two_records (codes "pq" ∷ []) both both-IsArray
      (refl, tt) (both-IsReadWrite 2 (omega arith)).receiving

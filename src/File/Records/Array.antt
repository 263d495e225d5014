-- ===== src/File/Records/Array.antt =====
-- A file of records as an array of records.
use native.Mathlib.Nat.{suc-mul, mul-le-mul_right}
use kssio.Prelude.{
  concat, concat-append, length-append, ℕ, suc, ◌+◌, ◌-◌, ◌*◌, ◌^◌, ◌<◌, ◌≤◌, ◌≡◌, true, false, leb,
  length, take, drop, get_or, List, [], ◌++◌, Text, ok, arith, refl, ap, ◌∙◌, append-nil,
}
use kssio.Prelude.Effect.{after_ok, ◌>>◌}
use kssio.File.CFile.{CFile, left, overwrite}
use kssio.File.Binary.{reading, is_open}
use kssio.File.Binary.Read.{IsReady}
use kssio.File.Binary.Write.{not_appending, IsReceiving, written}
use kssio.File.Binary.Seek.{placed, placed-IsReady}
use kssio.File.Records.{set_position, read_next, read_at, write_next, write_at}
use kssio.File.Records.Concat.{
  IsSized, put, take_behind, take-concat, drop-concat, length-concat, drop-get_or, get_or-IsSized,
}
use kssio.File.Records.Next.{set_position_lem, read_next_cases, write_next_lem}

-- A stream on a file of records, which has a position and has met no error.
pub record IsArray (size : ℕ) (rs : List Text) (fp : CFile) : Type 0 where
  pub has_size : 0 < size
  pub sized : IsSized size rs
  pub whole : fp.content ≡ concat rs
  pub has_position : fp.seekable ≡ true
  pub without_error : fp.error ≡ false

module _ (size : ℕ) (rs : List Text) (i : ℕ) (fp : CFile) (array : IsArray size rs fp) where
  left_at : i < length rs → left (placed (i * size) fp) ≡ get_or rs i [] ++ concat (drop (suc i) rs)
  left_at h = rw array.whole (drop-concat size i rs array.sized ∙ ap concat (drop-get_or i rs h))

  -- Reading at the place of a record gives the record.
  read_next-get_or :
      is_open reading fp ≡ true
      → i < length rs
      → read_next size (placed (i * size) fp) ≡ (ok (get_or rs i []), placed (i * size + size) fp)
  read_next-get_or opened h =
      let r = get_or rs i [] in
      let behind = concat (drop (suc i) rs) in
      let full : length r ≡ size = get_or-IsSized size i rs array.sized h in
      let ready : IsReady reading (placed (i * size) fp) =
        placed-IsReady (i * size) fp opened array.has_position array.without_error in
      let enough : leb size (length (r ++ behind)) ≡ true =
        ground (arith, length-append r behind, full) in
      let first : take size (r ++ behind) ≡ r =
        take_behind r behind size 0 (omega (arith, full)) ∙ append-nil r in
      read_next_cases size (placed (i * size) fp) array.has_size ready
      ∙ rw (left_at h, enough, first) refl

  -- Reading a record of a file of records by its number gives that record, and leaves the position
  -- behind it.
  pub read_at-get_or :
      i * size < 2 ^ 63
      → is_open reading fp ≡ true
      → i < length rs
      → read_at size i fp ≡ (ok (get_or rs i []), placed (i * size + size) fp)
  unfolding read_at
  read_at-get_or small opened h =
      after_ok (set_position size i) (λ _. read_next size)
        (set_position_lem size i fp array.has_size small array.has_position)
      ∙ read_next-get_or opened h

  -- The content of the file with a record written at its place.
  overwrite-put :
      (r : Text)
      → length r ≡ size
      → i ≤ length rs
      → overwrite fp.content (i * size) r ≡ concat (put rs i r)
  overwrite-put r full h =
      let there : i * size ≤ length rs * size = mul-le-mul_right size h in
      let no_gap : i * size - length fp.content ≡ 0 =
        omega (arith, ap length array.whole, length-concat size rs array.sized) in
      let end : i * size + length r ≡ suc i * size = omega (arith, suc-mul i size, full) in
      rw
        (
          no_gap,
          end,
          array.whole,
          take-concat size i rs array.sized,
          drop-concat size (suc i) rs array.sized,
          concat-append,
        )
        refl

  -- Writing a record of a file of records by its number puts it there, or behind the last one, and
  -- leaves the position behind it.
  pub write_at-put :
      (r : Text)
      → length r ≡ size
      → i * size < 2 ^ 63
      → i ≤ length rs
      → IsReceiving size fp
      → write_at size r i fp ≡ (
        ok tt,
        record (placed (i * size + size) fp) {
          content = concat (put rs i r);
          room = fp.room - size;
        },
      )
  unfolding write_at
  write_at-put r full small h t =
      let fp' = placed (i * size) fp in
      let t' : IsReceiving size fp' = record {
        ready = placed-IsReady (i * size) fp t.ready.opened array.has_position array.without_error;
        writable = t.writable;
        at_position = t.at_position;
        enough_room = t.enough_room;
      } in
      let there : (set_position size i >> write_next size r) fp ≡ (ok tt, written r fp') =
        after_ok (set_position size i) (λ _. write_next size r)
          (set_position_lem size i fp array.has_size small array.has_position)
        ∙ write_next_lem size r fp' full array.has_size t' in
      rw (t.ready.opened, not_appending fp t.at_position)
        (there ∙ rw (t.at_position, overwrite-put r full h, full) refl)

-- ===== src/File/Records/Append.antt =====
-- What the output iterator of a file of records writes.
use mathlib.Core.Path.{subst}
use native.Mathlib.Nat.{suc-mul}
use kssio.Prelude.{
  concat, concat-append, ℕ, ◌+◌, ◌-◌, ◌*◌, ◌<◌, ◌≡◌, true, length, drop, length-append, List, [],
  ◌∷◌, ◌++◌, Text, Option, some, Result, ok, thrown, refl, arith, ap, sym, ◌∙◌, append-nil,
  append_assoc,
}
use kssio.File.CFile.{CFile, overwrite}
use kssio.File.Binary.{writing, is_open}
use kssio.File.Binary.Write.{IsReceiving, take_all, drop_all}
use kssio.File.Binary.Seek.{placed, placed-IsReady, fast_forward_lem, is_open-flags}
use kssio.File.Records.{write_next, begin_writing}
use kssio.File.Records.Concat.{IsSized, drop-drop, drop_none}
use kssio.File.Records.Next.{write_next_lem}
use kssio.File.Records.Array.{IsArray}
use kssio.File.Records.Accesses.{IsReceiving-add}
use kssio.Stream.Output.{OutputStream, construct, copy_values}

-- `operator<<`, as the iterator uses it.
abbrev record_output : ℕ → OutputStream CFile Text
record_output size = record { put = write_next size }

begin_writing_lem :
    (size : ℕ) (fp : CFile)
    → is_open writing fp ≡ true
    → fp.seekable ≡ true
    → begin_writing size fp ≡ (ok tt, placed (length fp.content) fp)
unfolding begin_writing
begin_writing_lem size fp opened seekable = rw (opened, fast_forward_lem fp seekable) refl

append-IsSized :
    (size : ℕ) (rs ts : List Text) → IsSized size rs → IsSized size ts → IsSized size (rs ++ ts)
append-IsSized size [] ts a b = b
append-IsSized size (r ∷ rs) ts a b = (a.0, append-IsSized size rs ts a.1 b)

after_begin : ℕ → ℕ → List Text → Result (Unit {0}) × CFile → Option (Result (Unit {0}) × CFile)
after_begin size address ts (ok _, fp) = copy_values (record_output size) (construct address) ts fp
after_begin size address ts (thrown e, fp) = some (thrown e, fp)

-- `for (auto& t : ts) { *it++ = t; }` with `it = f.obegin()`.
pub append_records : ℕ → ℕ → List Text → CFile → Option (Result (Unit {0}) × CFile)
unfolding after_begin
append_records size address ts fp = after_begin size address ts (begin_writing size fp)

drop_behind_all : (s : Text) (n : ℕ) → drop (length s + n) s ≡ []
drop_behind_all s n =
    drop-drop (length s + n) (length s) n s refl ∙ ap (drop n) (drop_all s) ∙ drop_none n

overwrite-end : (s r : Text) → overwrite s (length s) r ≡ s ++ r
overwrite-end s r =
    let no_gap : length s - length s ≡ 0 = omega arith in
    rw (no_gap, take_all, drop_behind_all s (length r), append-nil r) refl

module _ (size address : ℕ) (positive : 0 < size) where
  -- The stream behind a record that was written at its end.
  abbrev behind : Text → CFile → CFile
  behind r fp = record fp {
    content = fp.content ++ r;
    position = length fp.content + length r;
    room = fp.room - length r;
  }

  abbrev appended : List Text → CFile → CFile
  appended [] fp = fp
  appended (r ∷ ts) fp = appended ts (behind r fp)

  step_lem :
      (r : Text) (fp : CFile)
      → fp.position ≡ length fp.content
      → length r ≡ size
      → IsReceiving size fp
      → write_next size r fp ≡ (ok tt, behind r fp)
  step_lem r fp at_end full t =
      write_next_lem size r fp full positive t
      ∙ rw (t.at_position, at_end, overwrite-end fp.content r) refl

  behind-IsReceiving :
      (space : ℕ) (r : Text) (fp : CFile)
      → length r ≡ size
      → IsReceiving (size + space) fp
      → IsReceiving space (behind r fp)
  behind-IsReceiving space r fp full t = record {
    ready = record {
      opened = is_open-flags writing (behind r fp) fp refl ∙ t.ready.opened;
      has_position = t.ready.has_position;
      before_end = t.ready.before_end;
      without_error = t.ready.without_error;
    };
    writable = t.writable;
    at_position = t.at_position;
    enough_room = omega (arith, t.enough_room, full);
  }

  copy_lem :
      (ts : List Text) (fp : CFile)
      → fp.position ≡ length fp.content
      → IsSized size ts
      → IsReceiving (length ts * size) fp
      → copy_values (record_output size) (construct address) ts fp ≡ some (ok tt, appended ts fp)
  unfolding copy_values construct
  copy_lem [] fp at_end sized t = refl
  copy_lem (r ∷ ts) fp at_end sized t =
      let t' : IsReceiving (size + length ts * size) fp =
        subst (λ n. IsReceiving n fp) (omega (arith, suc-mul (length ts) size)) t in
      ap
        (λ z. elim z.0 as (λ x. Option (Result (Unit {0}) × CFile)) [
          | ok _ ↦ copy_values (record_output size) (construct address) ts z.1
          | thrown e ↦ some (thrown e, z.1)
        ])
        (step_lem r fp at_end sized.0 (IsReceiving-add size (length ts * size) fp t'))
      ∙ copy_lem ts (behind r fp) (sym (length-append fp.content r)) sized.1
          (behind-IsReceiving (length ts * size) r fp sized.0 t')

  content-appended :
      (ts : List Text) (fp : CFile) → (appended ts fp).content ≡ fp.content ++ concat ts
  content-appended [] fp = sym (append-nil fp.content)
  content-appended (r ∷ ts) fp =
      content-appended ts (behind r fp) ∙ append_assoc fp.content r (concat ts)

  appended-flags :
      (ts : List Text) (fp : CFile)
      → ((appended ts fp).seekable ≡ fp.seekable) × ((appended ts fp).error ≡ fp.error)
  appended-flags [] fp = (refl, refl)
  appended-flags (r ∷ ts) fp = appended-flags ts (behind r fp)

  -- The output iterator that obegin gives writes records behind those that a file of records has,
  -- wherever the position was before, if the stream is ready, writes at its position and has the
  -- space; the records that were there stay what they are.
  pub append_records-concat :
      (rs ts : List Text) (fp : CFile)
      → IsArray size rs fp
      → IsSized size ts
      → IsReceiving (length ts * size) fp
      → (fp' : CFile) × (append_records size address ts fp ≡ some (ok tt, fp'))
        × IsArray size (rs ++ ts) fp'
  unfolding append_records after_begin
  append_records-concat rs ts fp array sized t =
      let fp0 = placed (length fp.content) fp in
      let t0 : IsReceiving (length ts * size) fp0 = record {
        ready =
            placed-IsReady (length fp.content) fp t.ready.opened array.has_position
              array.without_error;
        writable = t.writable;
        at_position = t.at_position;
        enough_room = t.enough_room;
      } in
      (
        appended ts fp0,
        ap (after_begin size address ts)
              (begin_writing_lem size fp t.ready.opened array.has_position)
            ∙ copy_lem ts fp0 refl sized t0,
        record {
          has_size = positive;
          sized = append-IsSized size rs ts array.sized sized;
          whole = content-appended ts fp0 ∙ rw (array.whole, concat-append) refl;
          has_position = (appended-flags ts fp0).0 ∙ array.has_position;
          without_error = (appended-flags ts fp0).1 ∙ array.without_error;
        },
      )

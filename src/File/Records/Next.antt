-- ===== src/File/Records/Next.antt =====
-- One record at the position: what is read and written there.
use mathlib.Core.Path.{subst}
use native.Mathlib.Nat.{div-eq-sub-div, mul-div_cancel}
use kssio.Prelude.{
  failed, ◌≤◌, ◌%◌, ◌^◌, ◌*◌, ltb, ℕ, ◌+◌, ◌-◌, ◌/◌, ◌<◌, ◌≡◌, false, leb, length, take,
  if◌then◌else◌, Text, ok, thrown, eof, system_error, codes, arith, ap, [], ◌∷◌, refl, sym, ◌∙◌,
  is_empty,
}
use kssio.Prelude.Effect.{after_ok, assert, ◌>>=◌}
use kssio.File.CFile.{has, o_append, CFile, left, eio}
use kssio.File.Binary.{writing, reading, tell, seek}
use kssio.File.Binary.Read.{IsReady, advanced, exhausted, read_record_cases}
use kssio.File.Binary.Write.{
  is_writable, write_record-appending, written, IsReceiving, write_record_lem,
}
use kssio.File.Binary.Seek.{placed, seek_lem}
use kssio.File.Records.{
  position, ◌==◌, postconditions, off_t_of, pos, true, set_position, read_next, write_next,
}

next_quotient : (p size : ℕ) → 0 < size → (p + size) / size ≡ p / size + 1
next_quotient p size h =
    let e : p + size - size ≡ p = omega arith in
    div-eq-sub-div h (omega arith) ∙ ap (λ (t : ℕ). t / size + 1) e

-- Reading the record at the position gives its bytes and moves the position behind them; where not
-- all of a record is left it throws as readFully does, at the end of the file.
pub read_next_cases :
    (size : ℕ) (fp : CFile)
    → 0 < size
    → IsReady reading fp
    → read_next size fp ≡ (
        if leb size (length (left fp))
        then (ok (take size (left fp)), advanced size fp)
        else if fp.broken
        then (thrown (system_error eio (codes "fread")), exhausted fp)
        else (thrown eof, exhausted fp))
unfolding read_next tell
read_next_cases size fp h r =
    ground (arith, read_record_cases size fp h r, r.opened, next_quotient fp.position size h)

full-is_empty : (r : Text) → 0 < length r → is_empty r ≡ false
full-is_empty [] h = absurd (omega arith)
full-is_empty (c ∷ r) h = refl

-- Writing a record at the position.
pub write_next_lem :
    (size : ℕ) (r : Text) (fp : CFile)
    → length r ≡ size
    → 0 < size
    → IsReceiving size fp
    → write_next size r fp ≡ (ok tt, written r fp)
unfolding write_next tell
write_next_lem size r fp full positive t =
    let t' : IsReceiving (length r) fp = subst (λ n. IsReceiving n fp) (sym full) t in
    ground (
      arith,
      write_record_lem r fp (full-is_empty r (omega (arith, full))) t',
      t.at_position,
      t.ready.opened,
      full,
      next_quotient fp.position size positive,
    )

off_t_of-small : (n : ℕ) → n < 2 ^ 63 → off_t_of (n % 2 ^ 64) ≡ pos n
unfolding off_t_of
off_t_of-small n small =
    let kept : n % 2 ^ 64 ≡ n = omega arith in
    let fits : ltb n (2 ^ 63) ≡ true = ground arith in rw (kept, fits)

-- The position of a record, for as many records as an `off_t` can tell.
pub set_position_lem :
    (size rec_no : ℕ) (fp : CFile)
    → 0 < size
    → rec_no * size < 2 ^ 63
    → fp.seekable ≡ true
    → set_position size rec_no fp ≡ (ok tt, placed (rec_no * size) fp)
unfolding set_position tell
set_position_lem size rec_no fp h small seekable =
    let back : rec_no * size / size ≡ rec_no = mul-div_cancel rec_no h in
    let there : seek (off_t_of (rec_no * size % 2 ^ 64)) fp ≡ (ok tt, placed (rec_no * size) fp) =
      ap (λ o. seek o fp) (off_t_of-small (rec_no * size) small)
      ∙ seek_lem (rec_no * size) fp seekable in
    after_ok (seek (off_t_of (rec_no * size % 2 ^ 64)))
      (λ _. position size >>= λ p. assert postconditions (p == rec_no)) there
    ∙ rw (seekable, back) (ground arith)

-- On a stream that is ready, on which all writing is at the end and for which the record has the
-- space, it is written at the end; the call returns only if as many whole records were before the
-- position as were in the file, and fails its own postcondition otherwise.
pub write_next-appending :
    (size : ℕ) (r : Text) (fp : CFile)
    → length r ≡ size
    → 0 < size
    → IsReady writing fp
    → has fp.flags o_append ≡ true
    → is_writable fp ≡ true
    → size ≤ fp.room
    → write_next size r fp ≡ (
      if length fp.content / size == fp.position / size
          then ok tt
          else thrown (failed postconditions),
      written r fp,
    )
unfolding write_next tell
write_next-appending size r fp full positive ready at_end writable room =
    let ne : is_empty r ≡ false = full-is_empty r (omega (arith, full)) in
    ground (
      arith,
      write_record-appending r fp ne ready at_end writable (omega (arith, full)),
      at_end,
      ready.opened,
      full,
      next_quotient (length fp.content) size positive,
    )

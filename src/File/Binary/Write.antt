-- ===== src/File/Binary/Write.antt =====
-- What writeFully writes, and that readFully reads it back.
use kssio.Prelude.{
  ◌≤◌, ℕ, ◌+◌, ◌-◌, ◌≡◌, ◌||◌, not, ◌&&◌, ◌==◌, leb, Bool, true, false, [], ◌∷◌, length, take, drop,
  min, Text, if◌then◌else◌, ok, thrown, system_error, codes, refl, arith, Bool-cases, inl, inr,
  is_empty, length-take,
}
use kssio.File.CFile.{CFile, fwrite, o_wronly, o_rdwr, o_append, has, eio, overwrite}
use kssio.File.Binary.{
  appending, is_open, write_record, single_write, write_fully, write_loop, writing, is_open_for,
}
use kssio.File.Binary.Read.{IsReady}

abbrev pub is_writable : CFile → Bool
is_writable fp = has fp.flags o_wronly || has fp.flags o_rdwr

-- Where the next byte goes.
abbrev write_position : CFile → ℕ
write_position fp = if has fp.flags o_append then length fp.content else fp.position

-- The stream behind bytes that were written.
abbrev pub written : Text → CFile → CFile
written buf fp = record fp {
  content = overwrite fp.content (write_position fp) buf;
  position = write_position fp + length buf;
  room = fp.room - length buf;
}

pub take_all : (s : Text) → take (length s) s ≡ s
take_all [] = refl
take_all (c ∷ s) = ground (arith, take_all s)

pub drop_all : (s : Text) → drop (length s) s ≡ []
drop_all [] = refl
drop_all (c ∷ s) = drop_all s

-- What a call of `fwrite` makes of a stream for which the bytes are one too many at least.
abbrev pub cut_short : Text → CFile → CFile
cut_short buf fp = record (written (take fp.room buf) fp) { error = true }

write_all :
    (buf : Text) (fp : CFile)
    → is_writable fp ≡ true
    → leb (length buf) fp.room ≡ true
    → single_write buf fp ≡ (ok (length buf), written buf fp)
unfolding single_write fwrite
write_all buf fp w enough =
    let m : min (length buf) fp.room ≡ length buf = ground arith in
    let refused : (not (has fp.flags o_wronly) && not (has fp.flags o_rdwr)) ≡ false =
      ground arith in
    rw (refused, m, take_all, enough) (ground arith)

write_some :
    (buf : Text) (fp : CFile)
    → is_writable fp ≡ true
    → leb (length buf) fp.room ≡ false
    → single_write buf fp ≡ (thrown (system_error eio (codes "fwrite")), cut_short buf fp)
unfolding single_write fwrite
write_some buf fp w short =
    let m : min (length buf) fp.room ≡ fp.room = ground arith in
    let k : length (take fp.room buf) ≡ fp.room = ground (arith, length-take fp.room buf) in
    let less : (fp.room == length buf) ≡ false = ground arith in
    let refused : (not (has fp.flags o_wronly) && not (has fp.flags o_rdwr)) ≡ false =
      ground arith in
    rw (refused, m, less, short, k) refl

write_none :
    (buf : Text) (fp : CFile)
    → is_empty buf ≡ false
    → is_writable fp ≡ false
    → single_write buf fp ≡ (thrown (system_error eio (codes "fwrite")), record fp { error = true })
unfolding single_write fwrite
write_none [] fp ne w = cc
write_none (c ∷ buf) fp ne w = ground arith

-- On a stream that is ready, writeFully of some bytes writes them all at the position, or at the end
-- of the file if all writing is there, and moves the position behind them, if the device takes as
-- many; if not, it throws the error of writing, and the bytes that the device takes are written. On
-- a descriptor that is open for reading only it throws the same and changes no byte.
pub write_fully_cases :
    (buf : Text) (fp : CFile)
    → is_empty buf ≡ false
    → IsReady writing fp
    → write_fully buf fp ≡ (
        if not (is_writable fp)
        then (thrown (system_error eio (codes "fwrite")), record fp { error = true })
        else if leb (length buf) fp.room
        then (ok tt, written buf fp)
        else (thrown (system_error eio (codes "fwrite")), cut_short buf fp))
unfolding write_fully write_loop is_open_for
write_fully_cases [] fp ne r = cc
write_fully_cases (c ∷ buf) fp ne r = elim (Bool-cases (is_writable fp)) [
  | inr w ↦ ground (arith, write_none (c ∷ buf) fp ne w)
  | inl w ↦ elim (Bool-cases (leb (length (c ∷ buf)) fp.room)) [
    | inl enough ↦ ground (arith, write_all (c ∷ buf) fp w enough, drop_all buf)
    | inr short ↦ ground (arith, write_some (c ∷ buf) fp w short)
  ]
]

-- A stream that takes bytes at its position, and has space for some.
pub record IsReceiving (size : ℕ) (fp : CFile) : Type 0 where
  pub ready : IsReady writing fp
  pub writable : is_writable fp ≡ true
  pub at_position : has fp.flags o_append ≡ false
  pub enough_room : size ≤ fp.room

pub write_record_lem :
    (r : Text) (fp : CFile)
    → is_empty r ≡ false
    → IsReceiving (length r) fp
    → write_record r fp ≡ (ok tt, written r fp)
unfolding write_record is_open_for
write_record_lem r fp ne t =
    let enough : leb (length r) fp.room ≡ true = ground (arith, t.enough_room) in
    ground (arith, write_fully_cases r fp ne t.ready, t.writable, t.at_position)

pub not_appending : (fp : CFile) → has fp.flags o_append ≡ false → is_open appending fp ≡ false
unfolding is_open_for
not_appending fp h = ground arith

appending-is_open : (fp : CFile) → has fp.flags o_append ≡ true → is_open appending fp ≡ true
unfolding is_open_for
appending-is_open fp h = ground arith

-- Where all writing is at the end, a record is written there wherever the position is.
pub write_record-appending :
    (r : Text) (fp : CFile)
    → is_empty r ≡ false
    → IsReady writing fp
    → has fp.flags o_append ≡ true
    → is_writable fp ≡ true
    → length r ≤ fp.room
    → write_record r fp ≡ (ok tt, written r fp)
unfolding write_record is_open_for
write_record-appending r fp ne ready at_end writable room =
    let enough : leb (length r) fp.room ≡ true = ground (arith, room) in
    ground (arith, write_fully_cases r fp ne ready, writable, at_end)

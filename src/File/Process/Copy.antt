-- ===== src/File/Process/Copy.antt =====
-- copyFile copies, and does not end where reading fails.
use kssio.Prelude.{
  if◌then◌else◌, ◌∙◌, refl, zero, inr, take-append-drop, append_assoc, length-drop, inl, Bool-cases,
  ◌++◌, arith, ◌+◌, ◌≡◌, ◌<◌, ℕ,
}
use kssio.File.Process.{
  leb, [], take, drop, some, suc, none, length, true, false, Text, InFile, copy_loop,
}

copy_loop_total :
    (fuel size : ℕ) (f : InFile) (out : Text)
    → 0 < size
    → f.broken ≡ false
    → f.at_eof ≡ false
    → length f.rest + 1 < fuel
    → copy_loop fuel size f out ≡ some (out ++ f.rest)
unfolding copy_loop
copy_loop_total zero size f out hs b e h = absurd (omega arith)
copy_loop_total (suc zero) size f out hs b e h = absurd (omega arith)
copy_loop_total (suc (suc fuel)) size f out hs b e h =
    elim (Bool-cases (leb size (length f.rest))) [
      | inl more ↦
          let next : InFile = record f { rest = drop size f.rest } in
          ground (
            arith,
            copy_loop_total (suc fuel) size next (out ++ take size f.rest) hs b e,
            length-drop size f.rest,
            append_assoc out (take size f.rest) (drop size f.rest),
            take-append-drop size f.rest,
          )
      | inr last ↦ ground arith
    ]

copy_loop_broken :
    (fuel size : ℕ) (f : InFile) (out : Text)
    → f.broken ≡ true
    → f.at_eof ≡ false
    → copy_loop fuel size f out ≡ none
unfolding copy_loop
copy_loop_broken zero size f out b e = refl
copy_loop_broken (suc fuel) size f out b e = ground (
  arith,
  copy_loop_broken fuel size (record f { rest = drop size f.rest }) (out ++ take size f.rest) b e,
  copy_loop_broken fuel size (record f { rest = []; error = true }) (out ++ f.rest) b e,
)

-- With some bytes in the buffer, and as many rounds as the file has bytes and two more, the loop has
-- written the whole rest of a file that can be read behind what it had written before; and it has
-- not ended, nor does it with any more rounds, on a file whose device fails.
pub copy_loop_cases :
    (fuel size : ℕ) (f : InFile) (out : Text)
    → 0 < size
    → f.at_eof ≡ false
    → length f.rest + 1 < fuel
    → copy_loop fuel size f out ≡ (if f.broken then none else some (out ++ f.rest))
copy_loop_cases fuel size f out hs e h = elim (Bool-cases f.broken) [
  | inl b ↦ copy_loop_broken fuel size f out b e ∙ rw b refl
  | inr b ↦ copy_loop_total fuel size f out hs b e h ∙ rw b refl
]

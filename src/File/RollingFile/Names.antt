-- ===== src/File/RollingFile/Names.antt =====
-- The names that a rolling file gives to its files.
use mathlib.Core.List.{append_cancel_left, append_cancel_right}
use kssio.Prelude.{ap, ◌∙◌, sym, ◌∷◌, if◌then◌else◌, ◌≡◌, ℕ}
use kssio.Net.Text.{print_padded}
use kssio.Net.Text.Laws.{value, value-print_padded}
use kssio.File.RollingFile.{[], is_empty, Text, next_file_name}

-- No two indices give the same file name, also beyond the six digits of the padding; so a rolling
-- file does not come back to a file that it has closed before its counter of 32 bits wraps.
pub next_file_name_injective :
    (prefix : Text) (i j : ℕ) (suffix : Text)
    → next_file_name prefix i suffix ≡ next_file_name prefix j suffix
    → i ≡ j
unfolding next_file_name
next_file_name_injective prefix i j suffix e =
    let ext = if is_empty suffix then [] else b'.' ∷ suffix in
    let same =
      append_cancel_right (print_padded 10 6 i) (print_padded 10 6 j) ext
        (append_cancel_left prefix _ _ e) in
    sym (value-print_padded 6 i) ∙ ap (value 0) same ∙ value-print_padded 6 j

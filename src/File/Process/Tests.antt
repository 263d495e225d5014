-- ===== src/File/Process/Tests.antt =====
-- Concrete files.
use kssio.Prelude.{All, Lacks, ◌⊎◌, ◌∷◌, ◌++◌, refl, arith, ◌≡◌, codes}
use kssio.File.Process.{
  ok, Result, true, some, none, List, false, [], Text, line_by_line, char_by_char, copy_loop,
  copy_file, InFile,
}
use kssio.File.Process.Lines.{lines_spell, glue, line_by_line-for_each, lines, for_each}
use kssio.File.Process.Copy.{copy_loop_cases}

abbrev collect : Text → List Text → Result (List Text)
collect line seen = ok (seen ++ line ∷ [])

three_lines :
    line_by_line 9 b'\n' collect (codes "ab\n\nc") [] ≡ some (ok (codes "ab" ∷ [] ∷ codes "c" ∷ []))
unfolding line_by_line kssio.File.Process.getline kssio.File.Process.span
three_lines = refl

line_by_line-for_each_example :
    line_by_line 9 b'\n' collect (codes "ab\n") []
    ≡ some (for_each collect (lines b'\n' (codes "ab\n")) [])
line_by_line-for_each_example =
    line_by_line-for_each collect 9 b'\n' (codes "ab\n") [] (omega arith)

spelled :
    let s = codes "ab\n\nc" in
    All (Lacks b'\n') (lines b'\n' s)
    × ((glue b'\n' (lines b'\n' s) ≡ s) ⊎ (glue b'\n' (lines b'\n' s) ≡ s ++ b'\n' ∷ []))
spelled = lines_spell b'\n' (codes "ab\n\nc")

abbrev input : InFile
input = record { rest = codes "hello"; broken = false; at_eof = false; error = false }

copy_loop_cases_example : copy_loop 8 2 input (codes ">") ≡ some (codes ">hello")
copy_loop_cases_example = copy_loop_cases 8 2 input (codes ">") (omega arith) refl (omega arith)

-- Such as a directory, which `fopen` opens and `fread` does not read.
abbrev unreadable : InFile
unreadable = record { rest = []; broken = true; at_eof = false; error = false }

endless : copy_loop 50 8192 unreadable [] ≡ none
endless = copy_loop_cases 50 8192 unreadable [] (omega arith) refl (omega arith)

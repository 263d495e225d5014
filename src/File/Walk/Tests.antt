-- ===== src/File/Walk/Tests.antt =====
-- Concrete walks.
use kssio.Prelude.{
  ◌≡◌, ◌∷◌, [], ◌++◌, ◌&&◌, refl, true, false, Bool, if◌then◌else◌, Text, List, Result, ok, done,
  fails, codes,
}
use kssio.File.Walk.{Ftsent, WalkSystem, file_tree_walk, do_file_tree_walk, is_hidden}
use kssio.File.Walk.Visible.{
  Forest, nothing, file, folder, entries_of, visible, report, do_file_tree_walk-report,
}

abbrev is_top : Text → Bool
is_top (c ∷ []) = true
is_top s = false

abbrev os_of : Forest → WalkSystem
os_of f = record {
  stat = λ path follow. done (if is_top path then 0o040755 else 0o100644);
  fts_open = λ path with_stat. done (entries_of (codes "d") (codes "d") f);
  last_errno = 0;
  open_file = λ path. fails 2;
}

abbrev collect : Text → List Text → Result (List Text)
collect path seen = ok (seen ++ path ∷ [])

abbrev plain_tree : Forest
plain_tree = file (codes "a") 0 (
    folder (codes ".git") (file (codes "b") 0 nothing)
      (folder (codes "s") (file (codes ".c") 0 (file (codes "e") 0 nothing)) nothing))

visible_files :
    file_tree_walk (os_of plain_tree) (codes "d") true collect []
    ≡ ok (codes "d/a" ∷ codes "d/s/e" ∷ [])
unfolding file_tree_walk kssio.File.Stat.is_directory kssio.File.Stat.do_stat
    kssio.File.Path.basename kssio.File.Path.find_last_of kssio.File.Stat.is_file
visible_files = refl

-- A directory in a hidden one that has the same name ends the ignoring too early.
abbrev nested_tree : Forest
nested_tree = folder (codes ".g") (folder (codes ".g") nothing (file (codes "b") 0 nothing)) nothing

file_in_hidden :
    file_tree_walk (os_of nested_tree) (codes "d") true collect [] ≡ ok (codes "d/.g/b" ∷ [])
unfolding file_tree_walk kssio.File.Stat.is_directory kssio.File.Stat.do_stat
    kssio.File.Path.basename kssio.File.Path.find_last_of kssio.File.Stat.is_file
file_in_hidden = refl

abbrev note : Ftsent → List Text → Result (List Text)
note entry seen = ok (seen ++ entry.fts_path ∷ [])

do_file_tree_walk-report_example :
    do_file_tree_walk (os_of plain_tree) (codes "d") true false note [] ≡ (
      if true && is_hidden (codes "d")
      then ok []
      else report note (visible true (codes "d") plain_tree) [])
do_file_tree_walk-report_example =
    do_file_tree_walk-report (os_of plain_tree) (codes "d") (codes "d") true false plain_tree note
      [] refl (unfold kssio.File.Stat.is_directory kssio.File.Stat.do_stat in refl) refl refl
      (unfold is_hidden in ((tt, (tt, tt)), tt))

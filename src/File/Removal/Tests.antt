-- ===== src/File/Removal/Tests.antt =====
-- A directory with a file and a directory in it.
use kssio.Prelude.{
  ◌≡◌, ◌||◌, ℕ, Bool, true, false, some, Option, [], ◌∷◌, Text, text_eq, codes, Result, ok, thrown,
  system_error, done, fails, refl, arith, if◌then◌else◌,
}
use kssio.File.Stat.{is_directory, exists, do_stat}
use kssio.File.Directory.{DirStream}
use kssio.File.System.{unlink, rmdir, History, System}
use kssio.File.Removal.{remove_path}
use kssio.File.Removal.Tree.{
  file, directory, Entries, no_entry, entry, entry_names, removed, removed_entries, Opens, AreTrees,
}
use kssio.File.Removal.Removed.{remove_path-removed}

abbrev called : Text → History → Bool
called path [] = false
called path (unlink p ∷ h) = text_eq path p || called path h
called path (rmdir p ∷ h) = text_eq path p || called path h
called path (_ ∷ h) = called path h

abbrev modes : Text → ℕ
modes path = if text_eq path (codes "d") || text_eq path (codes "d/s") then 0o040755 else 0o100644

abbrev listing : Text → DirStream
listing path =
    if text_eq path (codes "d")
    then done (codes ".") ∷ done (codes "f") ∷ done (codes "s") ∷ []
    else done (codes "g") ∷ done (codes "..") ∷ []

-- With the last argument, `rmdir` refuses the directory itself.
abbrev small_system : Bool → System
small_system refuses = record {
  stat = λ h path follow_links. if called path h then fails 2 else done (modes path);
  opendir = λ h path. done (listing path);
  answer = λ h call. elim call [
    | rmdir path ↦
        if refuses then (if text_eq path (codes "d") then fails 20 else done tt) else done tt
    | _ ↦ done tt
  ];
}

abbrev in_d : Entries
in_d =
    entry (codes "f") file
      (entry (codes "s") (directory (entry (codes "g") file no_entry)) no_entry)

abbrev history : History
history = rmdir (codes "d/s") ∷ unlink (codes "d/s/g") ∷ unlink (codes "d/f") ∷ []

order : removed_entries (codes "d") in_d [] ≡ history
order = refl

small_system-Opens :
    (refuses : Bool) → Opens (small_system refuses) (codes "d") (entry_names in_d) []
unfolding is_directory do_stat
small_system-Opens refuses = record {
  is_there = refl;
  not_empty = refl;
  stream = listing (codes "d");
  opened = refl;
  has_names = refl;
  fine = refl;
  named = (refl, (refl, (refl, (refl, tt))));
}

small_system-AreTrees : AreTrees (small_system true) (codes "d") in_d []
unfolding is_directory do_stat
small_system-AreTrees = (
  (refl, refl),
  (
    (
      record {
        is_there = refl;
        not_empty = refl;
        stream = listing (codes "d/s");
        opened = refl;
        has_names = refl;
        fine = refl;
        named = (refl, (refl, tt));
      },
      (((refl, refl), tt), refl),
    ),
    tt,
  ),
)

remove_path-removed_example :
    remove_path (small_system true) 2 5 (codes "d") true (some [])
    ≡ (elim ((small_system true).answer (removed_entries (codes "d") in_d []) (rmdir (codes "d")))
        as (λ x. Result (Unit {0}) × Option History) [
          | done _ ↦ (ok tt, some (removed (codes "d") (directory in_d) []))
          | fails errno ↦ (
            thrown (system_error errno (codes "rmdir")),
            some (removed_entries (codes "d") in_d []),
          )
        ])
remove_path-removed_example =
    remove_path-removed (small_system true) 1 5 (codes "d") in_d []
      (omega arith, (tt, ((omega arith, (tt, tt)), tt))) (small_system-Opens true)
      small_system-AreTrees (unfold exists in refl) (unfold exists in refl)

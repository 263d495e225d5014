-- ===== src/File/Directory/Tests.antt =====
-- Concrete directories.
use kssio.Prelude.{
  ◌≡◌, ◌%◌, ◌^◌, ◌↔◌, ◌⊎◌, ℕ, Bool, true, false, some, List, [], ◌∷◌, length, is_empty, Text, codes,
  Result, ok, Sys, done, fails, refl, arith, if◌then◌else◌,
}
use kssio.File.Stat.{is_directory, do_stat}
use kssio.File.Directory.{Directory, DirStream, read_dir, size, empty, same_entries}
use kssio.File.Directory.Listing.{names, failure, unless_failed, size_and_empty}
use kssio.File.Directory.Compare.{beginnings, same_entries-beginnings}
use kssio.File.Directory.Loop.{
  terminated, for_each_entry, for_each_found, for_each_entry-for_each_name,
}

abbrev all_directories : Text → Bool → Sys ℕ
all_directories path follow_links = done 0o040755

abbrev two_names : DirStream
two_names =
    done (codes ".")
    ∷ done (codes "b")
    ∷ done (codes ".h")
    ∷ done (codes "a")
    ∷ done (codes "..")
    ∷ []

abbrev turned : DirStream
turned = done (codes "a") ∷ done (codes "b") ∷ []

abbrev opened : Text → Sys DirStream
opened [] = fails 2
opened (c ∷ name) = if is_empty name then done two_names else done turned

abbrev first_directory : Directory
first_directory = record { directory_name = codes "x"; ignore_hidden = true }

abbrev second_directory : Directory
second_directory = record { directory_name = codes "xy"; ignore_hidden = true }

-- The same entries in another order.
order_matters :
    same_entries all_directories opened 9 false first_directory second_directory ≡ some (ok false)
unfolding same_entries is_directory do_stat read_dir kssio.File.Directory.compare_opened
    kssio.File.Directory.compare_loop
order_matters = refl

two_counted :
    (size all_directories opened 3 first_directory
      ≡ some (unless_failed (failure two_names) (ok (length (names true two_names) % 2 ^ 64))))
    × (empty all_directories opened first_directory ≡ (
        if is_empty (names true two_names)
        then unless_failed (failure two_names) (ok true)
        else ok false))
two_counted =
    size_and_empty all_directories opened first_directory two_names
      (unfold is_directory do_stat in refl) refl 3 (omega arith)

same_entries-beginnings_example :
    (b : Bool) × (same_entries all_directories opened 3 false first_directory second_directory
      ≡ some (ok b))
    × ((b ≡ true) ↔ (
        (false ≡ true)
        ⊎ ((codes "x" ≡ codes "xy") × (true ≡ true))
        ⊎ (beginnings (names true two_names) ≡ beginnings (names true turned))))
same_entries-beginnings_example =
    same_entries-beginnings all_directories opened first_directory second_directory two_names turned
      (unfold is_directory do_stat in refl) (unfold is_directory do_stat in refl) refl refl 3 false
      refl refl (omega arith)

abbrev collect : Text → List Text → Result (Unit {0}) × List Text
collect name seen = (ok tt, name ∷ seen)

for_each_entry_example :
    for_each_entry collect all_directories opened 4 first_directory []
    ≡ some (for_each_found collect (names true two_names) (failure two_names) [])
for_each_entry_example =
    for_each_entry-for_each_name collect all_directories opened first_directory two_names
      (unfold is_directory do_stat in refl) refl 4 [] (refl, (refl, (refl, (refl, tt))))
      (omega arith)

-- The first read fails.
unreadable :
    for_each_entry collect all_directories (λ name. done (fails 5 ∷ [])) 4 first_directory []
    ≡ some (terminated, [])
unreadable =
    for_each_entry-for_each_name collect all_directories (λ name. done (fails 5 ∷ []))
      first_directory (fails 5 ∷ []) (unfold is_directory do_stat in refl) refl 4 [] tt
      (omega arith)

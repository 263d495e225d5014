-- ===== src/File/Directory/Listing.antt =====
-- What reading a directory to its end gives.
use kssio.Prelude.{
  ℕ, zero, suc, ◌+◌, ◌%◌, ◌^◌, ◌<◌, ◌≡◌, Bool, true, false, not, Option, none, some, List, [], ◌∷◌,
  length, if◌then◌else◌, is_empty, Text, codes, Result, ok, thrown, system_error, Sys, done, fails,
  ◌>>=◌, refl, ap, ◌∙◌, arith, Bool-cases, inl, inr,
}
use kssio.File.Stat.{is_directory}
use kssio.File.Directory.{
  construct, DirStream, Directory, is_skipped, has_entry, read_dir, count_loop, size, empty,
  open_checked,
}

-- The names that are not skipped before the first failure, and the `errno` of it.
abbrev pub names : Bool → DirStream → List Text
names ih [] = []
names ih (fails errno ∷ dir) = []
names ih (done name ∷ dir) = if is_skipped ih name then names ih dir else name ∷ names ih dir

abbrev pub failure : DirStream → Option ℕ
failure [] = none
failure (fails errno ∷ dir) = some errno
failure (done name ∷ dir) = failure dir

-- What follows the names, unless reading fails there.
abbrev pub unless_failed : {A : Type 0} → Option ℕ → Result A → Result A
unless_failed none r = r
unless_failed (some errno) r = thrown (system_error errno (codes "readdir"))

-- Reading name by name.
pub data Lists (ih : Bool) : DirStream → List Text → Option ℕ → Type 0 where
  at_end : (dir dir' : DirStream) → read_dir ih dir ≡ ok (none, dir') → Lists ih dir [] none
  at_failure :
      (dir : DirStream) (errno : ℕ)
      → read_dir ih dir ≡ thrown (system_error errno (codes "readdir"))
      → Lists ih dir [] (some errno)
  at_name :
      (dir dir' : DirStream) (name : Text) (ns : List Text) (e : Option ℕ)
      → read_dir ih dir ≡ ok (some name, dir')
      → Lists ih dir' ns e
      → Lists ih dir (name ∷ ns) e

Lists-skip :
    {ih : Bool} {dir dir0 : DirStream} {ns : List Text} {e : Option ℕ}
    → read_dir ih dir0 ≡ read_dir ih dir
    → Lists ih dir ns e
    → Lists ih dir0 ns e
Lists-skip {dir0 = dir0} same (at_end _ dir' r) = at_end dir0 dir' (same ∙ r)
Lists-skip {dir0 = dir0} same (at_failure _ errno r) = at_failure dir0 errno (same ∙ r)
Lists-skip {dir0 = dir0} same (at_name _ dir' name ns e r more) =
    at_name dir0 dir' name ns e (same ∙ r) more

pub Lists-names : (ih : Bool) (dir : DirStream) → Lists ih dir (names ih dir) (failure dir)
unfolding read_dir
Lists-names ih [] = at_end [] [] refl
Lists-names ih (fails errno ∷ dir) = at_failure (fails errno ∷ dir) errno refl
Lists-names ih (done name ∷ dir) = elim (Bool-cases (is_skipped ih name)) [
  | inl e ↦ rw e (Lists-skip (rw e refl) (Lists-names ih dir))
  | inr e ↦ rw e (
      at_name (done name ∷ dir) dir name (names ih dir) (failure dir) (rw e refl)
        (Lists-names ih dir))
]

count_loop-names :
    (fuel : ℕ) (ih : Bool) (dir : DirStream) (ns : List Text) (e : Option ℕ) (count : ℕ)
    → Lists ih dir ns e
    → length ns < fuel
    → count < 2 ^ 64
    → count_loop fuel ih dir count ≡ some (unless_failed e (ok ((count + length ns) % 2 ^ 64)))
unfolding count_loop
count_loop-names zero ih dir ns e count lists enough small = absurd (omega arith)
count_loop-names (suc fuel) ih dir ns e count (at_end _ dir' r) enough small =
    let same : count ≡ (count + 0) % 2 ^ 64 = omega arith in
    rw (count_loop, r) (ap (λ c. some (ok c)) same)
count_loop-names (suc fuel) ih dir ns e count (at_failure _ errno r) enough small =
    rw (count_loop, r) refl
count_loop-names (suc fuel) ih dir ns e count (at_name _ dir' name ns' _ r more) enough small =
    let c = (count + 1) % 2 ^ 64 in
    let same : (c + length ns') % 2 ^ 64 ≡ (count + suc (length ns')) % 2 ^ 64 = omega arith in
    rw (count_loop, r)
      (count_loop-names fuel ih dir' ns' e c more (omega arith) (omega arith)
        ∙ ap (λ c. some (unless_failed e (ok c))) same)

first-names :
    (ih : Bool) (dir : DirStream) (ns : List Text) (e : Option ℕ)
    → Lists ih dir ns e
    → (read_dir ih dir >>= λ r. ok (not (has_entry r.0)))
      ≡ (if is_empty ns then unless_failed e (ok true) else ok false)
first-names ih dir ns e (at_end _ dir' r) = rw r refl
first-names ih dir ns e (at_failure _ errno r) = rw r refl
first-names ih dir ns e (at_name _ dir' name ns' _ r more) = rw r refl

module _ (stat : Text → Bool → Sys ℕ) (opendir : Text → Sys DirStream) (d : Directory)
    (dir : DirStream) (there : is_directory stat d.directory_name true ≡ ok true)
    (found : opendir d.directory_name ≡ done dir) where
  abbrev entries : List Text
  entries = names d.ignore_hidden dir

  opens : open_checked stat opendir d.directory_name ≡ ok dir
  opens = rw (there, found) refl

  -- On a directory that is there, `size` is the number of its entries that are not skipped, or throws
  -- the error of reading, whichever entries come before it; `empty` tells whether there are none,
  -- and throws the error of reading only if it comes before the first of them. The loop of `size`
  -- ends with more fuel than there are entries.
  pub size_and_empty :
      (fuel : ℕ)
      → length entries < fuel
      → (size stat opendir fuel d
          ≡ some (unless_failed (failure dir) (ok (length entries % 2 ^ 64))))
        × (empty stat opendir d
            ≡ (if is_empty entries then unless_failed (failure dir) (ok true) else ok false))
  unfolding size empty
  size_and_empty fuel enough =
      let none_yet : (0 + length entries) % 2 ^ 64 ≡ length entries % 2 ^ 64 = omega arith in
      let lists = Lists-names d.ignore_hidden dir in
      (
        rw (size, opens)
            (count_loop-names fuel d.ignore_hidden dir entries (failure dir) 0 lists enough
                (omega arith)
              ∙ ap (λ c. some (unless_failed (failure dir) (ok c))) none_yet),
        rw (empty, opens) (first-names d.ignore_hidden dir entries (failure dir) lists),
      )

pub construct_lem :
    (stat : Text → Bool → Sys ℕ) (opendir : Text → Sys DirStream) (name : Text) (ih : Bool)
    → is_empty name ≡ false
    → is_directory stat name true ≡ ok true
    → construct stat opendir name ih ≡ ok (record { directory_name = name; ignore_hidden = ih })
unfolding construct
construct_lem stat opendir name ih full there = rw (full, there) refl

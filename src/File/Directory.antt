-- ===== src/File/Directory.antt =====
-- Directories and the paths to them: Sources/directory.cpp and directory.hpp. `stat` and `opendir`
-- are the system; a `DIR*` is the answers that `readdir` still has for it, a name or an `errno`, and
-- behind the last one it gives the null pointer. The closing of a directory is left out.
pub mod Listing
pub mod Compare
pub mod Loop
mod Tests
use kssio.Prelude.{
  ℕ, zero, suc, ◌+◌, ◌%◌, ◌^◌, Bool, true, false, not, ◌&&◌, ◌||◌, Option, none, some, List, [],
  ◌∷◌, ◌==◌, if◌then◌else◌, is_empty, get_or, take, Text, codes, text_eq, Result, ok, thrown,
  system_error, Sys, done, fails, or_throw, check, parameters, preconditions, postconditions, ◌>>=◌,
  ◌>>◌,
}
use kssio.File.Stat.{is_directory}

abbrev pub DirStream : Type 0
DirStream = List (Sys Text)

-- NAME_MAX
abbrev name_max : ℕ
name_max = 255

pub record Directory : Type 0 where
  pub directory_name : Text
  pub ignore_hidden : Bool

-- `.` and `..`, and the hidden files if they are ignored.
abbrev pub is_skipped : Bool → Text → Bool
is_skipped ignore_hidden name =
    (text_eq name (codes ".") || text_eq name (codes ".."))
    || (ignore_hidden && (get_or name 0 0 == b'.'))

-- What `readDir` returns.
abbrev pub has_entry : Option Text → Bool
has_entry none = false
has_entry (some name) = true

-- `readDir`: the next name, none at the end, and the stream then.
pub read_dir : Bool → DirStream → Result (Option Text × DirStream)
read_dir ignore_hidden [] = ok (none, [])
read_dir ignore_hidden (fails errno ∷ dir) = thrown (system_error errno (codes "readdir"))
read_dir ignore_hidden (done name ∷ dir) =
    let again = read_dir ignore_hidden dir in
    if is_skipped ignore_hidden name then again else ok (some name, dir)

-- The loop of `size`, on fuel.
pub count_loop : ℕ → Bool → DirStream → ℕ → Option (Result ℕ)
count_loop zero ignore_hidden dir count = none
count_loop (suc fuel) ignore_hidden dir count = elim (read_dir ignore_hidden dir) [
  | thrown e ↦ some (thrown e)
  | ok r ↦ elim r.0 [
    | none ↦ some (ok count)
    | some name ↦ count_loop fuel ignore_hidden r.1 ((count + 1) % 2 ^ 64)
  ]
]

-- `getCwd`: what the system's `getcwd` writes, or its `errno`.
get_cwd : Sys Text → Result Text
get_cwd getcwd = do
  cwd ← or_throw (codes "getcwd") getcwd
  check postconditions (not (is_empty cwd))
  ok cwd

-- `strncmp(a, b, NAME_MAX) == 0`, for names with no character 0.
abbrev pub same_name : Text → Text → Bool
same_name a b = text_eq (take name_max a) (take name_max b)

-- The loop of `operator==`, on fuel.
pub compare_loop : ℕ → Bool → Bool → DirStream → DirStream → Option (Result Bool)
compare_loop zero ih1 ih2 dir1 dir2 = none
compare_loop (suc fuel) ih1 ih2 dir1 dir2 = elim (read_dir ih1 dir1) [
  | thrown e ↦ some (thrown e)
  | ok r1 ↦ elim (read_dir ih2 dir2) [
    | thrown e ↦ some (thrown e)
    | ok r2 ↦ elim r1.0 [
      | none ↦ elim r2.0 [ none ↦ some (ok true) | some name2 ↦ some (ok false) ]
      | some name1 ↦ elim r2.0 [
        | none ↦ some (ok false)
        | some name2 ↦
            let rest = compare_loop fuel ih1 ih2 r1.1 r2.1 in
            if same_name name1 name2 then rest else some (ok false)
      ]
    ]
  ]
]

pub record ConstIterator : Type 0 where
  pub dirptr : Option DirStream
  pub current_value : Text
  pub directory_name : Text
  pub ignore_hidden : Bool

-- `*de`, or the empty text for the null pointer.
abbrev pub value_of : Option Text → Text
value_of none = []
value_of (some name) = name

-- `operator++`
pub increment : ConstIterator → Result ConstIterator
increment it = elim it.dirptr [
  | none ↦ check preconditions false >> ok it
  | some dir ↦ do
    check preconditions (not (is_empty it.current_value))
    r ← read_dir it.ignore_hidden dir
    check postconditions (not (text_eq (value_of r.0) it.current_value))
    ok (record it { dirptr = some r.1; current_value = value_of r.0 })
]

-- `operator==`
pub equals : ConstIterator → ConstIterator → Bool
equals it rhs =
    text_eq it.directory_name rhs.directory_name && text_eq it.current_value rhs.current_value

-- The same path, read in the same way.
abbrev pub is_same_view : Directory → Directory → Bool
is_same_view d rhs =
    text_eq d.directory_name rhs.directory_name
    && (if d.ignore_hidden then rhs.ignore_hidden else not rhs.ignore_hidden)

-- What a function that is noexcept returns: none, if an exception ends the program.
abbrev no_exception : Result ConstIterator → Option ConstIterator
no_exception (thrown e) = none
no_exception (ok it) = some it

module _ (stat : Text → Bool → Sys ℕ) (opendir : Text → Sys DirStream) where
  -- `Directory(dirName, ignoreHidden)`
  pub construct : Text → Bool → Result Directory
  construct dir_name ignore_hidden = do
    check parameters (not (is_empty dir_name))
    b ← is_directory stat dir_name true
    check parameters b
    ok (record { directory_name = dir_name; ignore_hidden = ignore_hidden })

  -- The precondition of the methods.
  abbrev check_directory : Text → Result (Unit {0})
  check_directory name = do b ← is_directory stat name true; check preconditions b

  -- `openDir`
  abbrev open_dir : Text → Result DirStream
  open_dir name = or_throw (codes "opendir") (opendir name)

  abbrev pub open_checked : Text → Result DirStream
  open_checked name = check_directory name >> open_dir name

  pub size : ℕ → Directory → Option (Result ℕ)
  size fuel d = elim (open_checked d.directory_name) [
    | thrown e ↦ some (thrown e)
    | ok dir ↦ count_loop fuel d.ignore_hidden dir 0
  ]

  pub empty : Directory → Result Bool
  empty d = do
    dir ← open_checked d.directory_name
    r ← read_dir d.ignore_hidden dir
    ok (not (has_entry r.0))

  compare_opened : ℕ → Directory → Directory → Option (Result Bool)
  compare_opened fuel d rhs = elim (open_dir d.directory_name) [
    | thrown e ↦ some (thrown e)
    | ok dir1 ↦ elim (open_dir rhs.directory_name) [
      | thrown e ↦ some (thrown e)
      | ok dir2 ↦ compare_loop fuel d.ignore_hidden rhs.ignore_hidden dir1 dir2
    ]
  ]

  -- `operator==`; the Boolean tells whether the objects are the same.
  pub same_entries : ℕ → Bool → Directory → Directory → Option (Result Bool)
  same_entries fuel same_object d rhs =
      elim (check_directory d.directory_name >> check_directory rhs.directory_name) [
        | thrown e ↦ some (thrown e)
        | ok _ ↦
            if same_object || is_same_view d rhs then some (ok true) else compare_opened fuel d rhs
      ]

  -- `const_iterator(directoryName, ignoreHidden, true)`
  pub construct_end : Directory → Result ConstIterator
  construct_end d = do
    check_directory d.directory_name
    ok (record {
      dirptr = none;
      current_value = [];
      directory_name = d.directory_name;
      ignore_hidden = d.ignore_hidden;
    })

  -- `const_iterator(directoryName, ignoreHidden)`
  pub construct_begin : Directory → Result ConstIterator
  construct_begin d = do
    dir ← open_checked d.directory_name
    r ← read_dir d.ignore_hidden dir
    b ← is_directory stat d.directory_name true
    check postconditions b
    ok (record {
      dirptr = some r.1;
      current_value = value_of r.0;
      directory_name = d.directory_name;
      ignore_hidden = d.ignore_hidden;
    })

  -- `begin()` and `end()`, which are noexcept.
  pub begin : Directory → Option ConstIterator
  begin d = no_exception (construct_begin d)

  pub end_iterator : Directory → Option ConstIterator
  end_iterator d = no_exception (construct_end d)

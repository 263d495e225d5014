-- ===== src/File/Removal/Tree.antt =====
-- Trees of files and directories, and the calls that remove them.
use kssio.Prelude.{
  ℕ, zero, suc, ◌+◌, ◌<◌, ◌≡◌, true, false, none, List, [], ◌∷◌, ◌++◌, length, is_empty, Text,
  codes, ok, done,
}
use kssio.File.Stat.{is_directory}
use kssio.File.Directory.{DirStream}
use kssio.File.Directory.Listing.{names, failure}
use kssio.File.Directory.Loop.{IsNamed}
use kssio.File.System.{unlink, rmdir, History, System}

mutual
  pub data Tree : Type 0 where
    file : Tree
    directory : Entries → Tree

  pub data Entries : Type 0 where
    no_entry : Entries
    entry : Text → Tree → Entries → Entries

abbrev pub entry_names : Entries → List Text
entry_names no_entry = []
entry_names (entry n t es) = n ∷ entry_names es

abbrev pub in_directory : Text → Text → Text
in_directory dir name = dir ++ (codes "/" ++ name)

-- The calls that remove a tree: what is in a directory goes before it.
abbrev mutual
  pub removed : Text → Tree → History → History
  removed path file h = unlink path ∷ h
  removed path (directory es) h = rmdir path ∷ removed_entries path es h

  pub removed_entries : Text → Entries → History → History
  removed_entries dir no_entry h = h
  removed_entries dir (entry n t es) h = removed_entries dir es (removed (in_directory dir n) t h)

-- How deep a tree is, and how many entries a directory in it has at most.
abbrev mutual
  pub IsWithin : ℕ → ℕ → Tree → Type 0
  IsWithin depth rounds file = Unit
  IsWithin zero rounds (directory es) = ⊥
  IsWithin (suc depth) rounds (directory es) =
      (length (entry_names es) + 1 < rounds) × AreWithin depth rounds es

  pub AreWithin : ℕ → ℕ → Entries → Type 0
  AreWithin depth rounds no_entry = Unit
  AreWithin depth rounds (entry n t es) = IsWithin depth rounds t × AreWithin depth rounds es

module _ (sys : System) where
  -- A directory that can be read to its end and has some entries.
  pub record Opens (path : Text) (ns : List Text) (h : History) : Type 0 where
    pub is_there : is_directory (sys.stat h) path true ≡ ok true
    pub not_empty : is_empty path ≡ false
    pub stream : DirStream
    pub opened : sys.opendir h path ≡ done stream
    pub has_names : names false stream ≡ ns
    pub fine : failure stream ≡ none
    pub named : IsNamed [] ns

  -- A system that answers for a tree at a path as it is documented: at each path, before what is
  -- there is removed.
  abbrev mutual
    pub IsTree : Text → Tree → History → Type 0
    IsTree path file h =
        (is_directory (sys.stat h) path true ≡ ok false) × (sys.answer h (unlink path) ≡ done tt)
    IsTree path (directory es) h =
        Opens path (entry_names es) h
        × (AreTrees path es h × (sys.answer (removed_entries path es h) (rmdir path) ≡ done tt))

    pub AreTrees : Text → Entries → History → Type 0
    AreTrees dir no_entry h = Unit
    AreTrees dir (entry n t es) h =
        IsTree (in_directory dir n) t h × AreTrees dir es (removed (in_directory dir n) t h)

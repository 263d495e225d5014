-- ===== src/File/Removal/Removed.antt =====
-- That removePath removes a tree, and in which order.
use kssio.Prelude.{
  ℕ, zero, suc, ◌+◌, ◌<◌, ◌≡◌, true, false, not, Option, some, List, ◌∷◌, length, is_empty, Text,
  codes, Result, ok, thrown, system_error, done, fails, refl, postconditions, Sys-cases, inl, inr,
  arith, ◌∙◌, ap,
}
use kssio.Prelude.Effect.{◌>>=◌, ◌>>◌, after_ok, after_thrown, assert}
use kssio.File.Stat.{is_directory, exists}
use kssio.File.Directory.Listing.{construct_lem}
use kssio.File.Directory.Loop.{for_each_name, for_each_found-none, for_each_entry-for_each_name}
use kssio.File.System.{unlink, rmdir, History, System, M, perform, ask}
use kssio.File.Removal.{remove_simple, remove_entry, remove_entries, remove_recursive, remove_path}
use kssio.File.Removal.Tree.{
  file, directory, Entries, no_entry, entry, entry_names, in_directory, removed, removed_entries,
  IsWithin, AreWithin, Opens, IsTree, AreTrees,
}

module _ (sys : System) where
  remove_entries_lem :
      (remove_directory : Text → M (Unit {0})) (rounds : ℕ) (path : Text) (ns : List Text)
      (h : History)
      → Opens sys path ns h
      → length ns + 1 < rounds
      → remove_entries sys remove_directory rounds path (some h)
        ≡ for_each_name (remove_entry sys remove_directory path) ns (ok tt) (some h)
  unfolding remove_entries
  remove_entries_lem remove_directory rounds path ns h o enough =
      let loops =
        for_each_entry-for_each_name (remove_entry sys remove_directory path) (sys.stat h)
          (sys.opendir h) (record { directory_name = path; ignore_hidden = false }) o.stream
          o.is_there o.opened rounds (some h) (rw o.has_names o.named)
          (omega (arith, ap length o.has_names)) in
      rw
        (
          remove_entries,
          construct_lem (sys.stat h) (sys.opendir h) path false o.not_empty o.is_there,
          loops,
          o.has_names,
          o.fine,
          for_each_found-none (remove_entry sys remove_directory path) ns (some h),
        )
        refl

  remove_simple_lem :
      (path : Text) (h : History)
      → sys.answer h (rmdir path) ≡ done tt
      → remove_simple sys path (some h) ≡ (ok tt, some (rmdir path ∷ h))
  unfolding remove_simple perform
  remove_simple_lem path h e = rw (remove_simple, perform, e) refl

  refused_lem :
      (path : Text) (h : History) (errno : ℕ)
      → sys.answer h (rmdir path) ≡ fails errno
      → remove_simple sys path (some h) ≡ (thrown (system_error errno (codes "rmdir")), some h)
  unfolding remove_simple perform
  refused_lem path h errno e = rw (remove_simple, perform, e) refl

  module _ (remove_directory : Text → M (Unit {0})) (dir n : Text) (h : History) where
    remove_file_lem :
        is_directory (sys.stat h) (in_directory dir n) true ≡ ok false
        → sys.answer h (unlink (in_directory dir n)) ≡ done tt
        → remove_entry sys remove_directory dir n (some h)
          ≡ (ok tt, some (unlink (in_directory dir n) ∷ h))
    unfolding remove_entry ask perform
    remove_file_lem plain e = rw (remove_entry, ◌>>=◌, ask, plain, perform, e) refl

    enter_lem :
        is_directory (sys.stat h) (in_directory dir n) true ≡ ok true
        → remove_entry sys remove_directory dir n (some h)
          ≡ remove_directory (in_directory dir n) (some h)
    unfolding remove_entry ask
    enter_lem there = rw (remove_entry, ◌>>=◌, ask, there) refl

  -- The removal of directories of some depth.
  abbrev Removes : ℕ → ℕ → (Text → M (Unit {0})) → Type 0
  Removes depth rounds remove_directory =
      (path : Text) (es : Entries) (h : History)
      → IsWithin depth rounds (directory es)
      → IsTree sys path (directory es) h
      → remove_directory path (some h) ≡ (ok tt, some (removed path (directory es) h))

  module _ (depth rounds : ℕ) (remove_directory : Text → M (Unit {0}))
      (removes : Removes depth rounds remove_directory) (dir : Text) where
    remove_all :
        (es : Entries) (h : History)
        → AreWithin depth rounds es
        → AreTrees sys dir es h
        → for_each_name (remove_entry sys remove_directory dir) (entry_names es) (ok tt) (some h)
          ≡ (ok tt, some (removed_entries dir es h))
    remove_all no_entry h within trees = refl
    remove_all (entry n file es) h within trees =
        after_ok (remove_entry sys remove_directory dir n)
          (λ _. for_each_name (remove_entry sys remove_directory dir) (entry_names es) (ok tt))
          (remove_file_lem remove_directory dir n h trees.0.0 trees.0.1)
        ∙ remove_all es (removed (in_directory dir n) file h) within.1 trees.1
    remove_all (entry n (directory sub) es) h within trees =
        after_ok (remove_entry sys remove_directory dir n)
          (λ _. for_each_name (remove_entry sys remove_directory dir) (entry_names es) (ok tt))
          (enter_lem remove_directory dir n h trees.0.0.is_there
            ∙ removes (in_directory dir n) sub h within.0 trees.0)
        ∙ remove_all es (removed (in_directory dir n) (directory sub) h) within.1 trees.1

    empties :
        (es : Entries) (h : History)
        → IsWithin (suc depth) rounds (directory es)
        → Opens sys dir (entry_names es) h
        → AreTrees sys dir es h
        → remove_entries sys remove_directory rounds dir (some h)
          ≡ (ok tt, some (removed_entries dir es h))
    empties es h within o trees =
        remove_entries_lem remove_directory rounds dir (entry_names es) h o within.0
        ∙ remove_all es h within.1 trees

  recursion_lem :
      (depth rounds : ℕ)
      → Removes depth rounds (remove_recursive sys depth rounds)
      → (path : Text) → (es : Entries) → (h : History) → IsWithin (suc depth) rounds (directory es)
      → Opens sys path (entry_names es) h
      → AreTrees sys path es h
      → remove_recursive sys (suc depth) rounds path (some h)
        ≡ remove_simple sys path (some (removed_entries path es h))
  unfolding remove_recursive
  recursion_lem depth rounds removes path es h within o trees =
      after_ok (remove_entries sys (remove_recursive sys depth rounds) rounds path)
        (λ _. remove_simple sys path) {s = some h}
        (empties depth rounds (remove_recursive sys depth rounds) removes path es h within o trees)

  remove_recursive-Removes :
      (depth rounds : ℕ) → Removes depth rounds (remove_recursive sys depth rounds)
  remove_recursive-Removes zero rounds path es h within tree = absurd within
  remove_recursive-Removes (suc depth) rounds path es h within tree =
      recursion_lem depth rounds (remove_recursive-Removes depth rounds) path es h within tree.0
        tree.1.0
      ∙ remove_simple_lem path (removed_entries path es h) tree.1.1

  abbrev ends : Text → M (Unit {0})
  ends path = ask sys exists path >>= λ still. assert postconditions (not still)

  remove_path_lem :
      (depth rounds : ℕ) (path : Text) (h : History)
      → is_empty path ≡ false
      → is_directory (sys.stat h) path true ≡ ok true
      → exists (sys.stat h) path true ≡ ok true
      → remove_path sys depth rounds path true (some h)
        ≡ (remove_recursive sys depth rounds path >> ends path) (some h)
  unfolding remove_path ask
  remove_path_lem depth rounds path h full directory_there there =
      rw (remove_path, ◌>>=◌, ◌>>◌, full, ask, there, directory_there) (rw (◌>>=◌, ask, there) refl)

  -- `removePath` with `recursive`, for a directory with a tree of files and directories in it: each
  -- entry is removed before its directory, each exactly once and in the order of the entries, and the
  -- directory itself comes last. If the system refuses to remove that, as it does for a link to a
  -- directory, the call throws its error when all that is in the directory is gone already.
  pub remove_path-removed :
      (depth rounds : ℕ) (path : Text) (es : Entries) (h : History)
      → IsWithin (suc depth) rounds (directory es)
      → Opens sys path (entry_names es) h
      → AreTrees sys path es h
      → exists (sys.stat h) path true ≡ ok true
      → exists (sys.stat (removed path (directory es) h)) path true ≡ ok false
      → remove_path sys (suc depth) rounds path true (some h)
        ≡ (elim (sys.answer (removed_entries path es h) (rmdir path))
            as (λ x. Result (Unit {0}) × Option History) [
              | done _ ↦ (ok tt, some (removed path (directory es) h))
              | fails errno ↦
                  (thrown (system_error errno (codes "rmdir")), some (removed_entries path es h))
            ])
  unfolding ask
  remove_path-removed depth rounds path es h within o trees there gone =
      let emptied =
        recursion_lem depth rounds (remove_recursive-Removes depth rounds) path es h within o
          trees in
      let start = remove_path_lem (suc depth) rounds path h o.not_empty o.is_there there in
      elim (Sys-cases (sys.answer (removed_entries path es h) (rmdir path))) [
        | inl (u, e) ↦ rw e (
            start
            ∙ after_ok (remove_recursive sys (suc depth) rounds path) (λ _. ends path)
                (emptied ∙ remove_simple_lem path (removed_entries path es h) e)
            ∙ rw (◌>>=◌, ask, gone) refl)
        | inr (errno, e) ↦ rw e (
            start
            ∙ after_thrown (remove_recursive sys (suc depth) rounds path) (λ _. ends path)
                (emptied ∙ refused_lem path (removed_entries path es h) errno e))
      ]

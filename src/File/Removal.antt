-- ===== src/File/Removal.antt =====
-- `removePath` of Sources/directory.cpp.
pub mod Tree
pub mod Removed
mod Tests
use kssio.Prelude.{
  ℕ, zero, suc, Bool, true, false, not, ◌||◌, Option, none, some, List, [], ◌∷◌, ◌++◌,
  if◌then◌else◌, is_empty, Text, codes, Result, ok, thrown, system_error, Sys, done, fails,
  parameters, postconditions,
}
use kssio.Prelude.Effect.{Effect, ◌>>=◌, ◌>>◌, pure, lift, assert}
use kssio.File.Stat.{is_directory, exists}
use kssio.File.System.{Call, unlink, rmdir, History, System, M, perform, ask}
use kssio.File.Directory.{Directory, DirStream, construct}
use kssio.File.Directory.Loop.{LoopEnd, terminated, ended, for_each_entry}

-- What follows the loop over a directory.
abbrev after_loop : LoopEnd × Option History → Result (Unit {0}) × Option History
after_loop (terminated, w) = (ok tt, none)
after_loop (ended r, w) = (r, w)

module _ (sys : System) where
  -- `removePathSimple`
  pub remove_simple : Text → M (Unit {0})
  unfolding perform
  remove_simple dir = perform sys (codes "rmdir") (rmdir dir)

  -- The body of the loop over the entries, with the removal of a directory in it.
  pub remove_entry : (Text → M (Unit {0})) → Text → Text → M (Unit {0})
  unfolding perform ask
  remove_entry remove_directory dir entry =
      let path = dir ++ (codes "/" ++ entry) in
      ask sys is_directory path >>= λ b.
      if b then remove_directory path else perform sys (codes "unlink") (unlink path)

  -- The loop over the entries, with `Directory d(dir)`.
  pub remove_entries : (Text → M (Unit {0})) → ℕ → Text → M (Unit {0})
  unfolding remove_entry
  remove_entries remove_directory rounds dir none = (ok tt, none)
  remove_entries remove_directory rounds dir (some h) =
      elim (construct (sys.stat h) (sys.opendir h) dir false) [
        | thrown e ↦ (thrown e, some h)
        | ok d ↦
            elim (for_each_entry (remove_entry remove_directory dir) (sys.stat h) (sys.opendir h)
              rounds d (some h)) [ none ↦ (ok tt, none) | some r ↦ after_loop r ]
      ]

  -- `removePathRecursive`, for directories of some depth and loops of some rounds.
  pub remove_recursive : ℕ → ℕ → Text → M (Unit {0})
  unfolding remove_entries remove_simple
  remove_recursive zero rounds dir w = (ok tt, none)
  remove_recursive (suc depth) rounds dir w =
      (remove_entries (remove_recursive depth rounds) rounds dir >> remove_simple dir) w

  -- `removePath(dir, recursive)`
  pub remove_path : ℕ → ℕ → Text → Bool → M (Unit {0})
  unfolding remove_recursive
  remove_path depth rounds dir recursive = do
    assert parameters (not (is_empty dir))
    there ← ask sys exists dir
    b ← if there then ask sys is_directory dir else pure true
    assert parameters b
    there' ← ask sys exists dir
    if there'
        then (if recursive then remove_recursive depth rounds dir else remove_simple dir)
        else pure tt
    still ← ask sys exists dir
    assert postconditions (not still)

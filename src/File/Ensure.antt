-- ===== src/File/Ensure.antt =====
-- `ensurePath` of Sources/directory.cpp. The tokenizer is code of another library.
pub mod Created
mod Tests
use kssio.Prelude.{
  check, or_throw, ℕ, Bool, true, false, not, Option, none, some, List, [], ◌∷◌, ◌++◌, ◌==◌,
  if◌then◌else◌, is_empty, get_or, Text, codes, Result, ok, thrown, system_error, Sys, done, fails,
  parameters, postconditions,
}
use kssio.Prelude.Effect.{Effect, ◌>>=◌, ◌>>◌, pure, throw, lift, assert}
use kssio.File.Stat.{is_directory, exists}
use kssio.File.System.{Call, mkdir, chmod, History, System, M, perform, ask}

abbrev eexist : ℕ
eexist = 17

abbrev pub separator : Text
separator = codes "/"

module _ (sys : System) (permissions : ℕ) where
  -- `ensurePathSoFar`, on Linux.
  pub ensure_path_so_far : Text → M (Unit {0})
  ensure_path_so_far path = ask sys is_directory path >>= λ b.
      if b
      then pure tt
      else perform sys (codes "mkdir") (mkdir path permissions)
        >> perform sys (codes "chmod") (chmod path permissions)

  -- The loop over the components, with `pathSoFar`.
  pub ensure_loop : Text → List Text → M (Unit {0})
  ensure_loop path_so_far [] = pure tt
  ensure_loop path_so_far (component ∷ components) =
      ensure_path_so_far (path_so_far ++ component)
      >> ensure_loop (path_so_far ++ component ++ separator) components

  -- What is done where `dir` is not a directory yet; `tokens` splits a path at separators.
  pub create_path : (Text → Text → List Text) → Text → M (Unit {0})
  create_path tokens dir = do
    there ← ask sys exists dir
    if there
        then throw (system_error eexist (dir ++ codes " is not a directory"))
        else ensure_loop (if get_or dir 0 0 == b'/' then codes "/" else []) (tokens dir separator)

  pub ensure_path : (Text → Text → List Text) → Text → M (Unit {0})
  ensure_path tokens dir = do
    assert parameters (not (is_empty dir))
    b ← ask sys is_directory dir
    if b then pure tt else create_path tokens dir
    b' ← ask sys is_directory dir
    assert postconditions b'

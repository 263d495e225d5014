-- ===== src/File/Path.antt =====
-- `basename`, `dirname` and the temporary files of Sources/fileutil.cpp.
pub mod Parts
mod Tests
use kssio.Prelude.{
  ℕ, zero, suc, ◌+◌, Bool, true, false, not, Option, none, some, List, [], ◌∷◌, ◌++◌, ◌==◌,
  if◌then◌else◌, is_empty, take, drop, Text, codes, Result, ok, thrown, system_error, Sys, done,
  fails, parameters, check, ◌>>=◌, ◌>>◌, or_throw,
}

-- `path.find_last_of(c)`, with none for `npos`.
unfoldable pub find_last_of : ℕ → Text → Option ℕ
find_last_of c [] = none
find_last_of c (d ∷ s) = elim (find_last_of c s) [
  | some i ↦ some (suc i)
  | none ↦ if d == c then some 0 else none
]

unfoldable pub basename : Text → Text
basename path = elim (find_last_of b'/' path) [
  | none ↦ path
  | some dir_sep_pos ↦ drop (dir_sep_pos + 1) path
]

pub dirname : Text → Text
dirname path = elim (find_last_of b'/' path) [
  | none ↦ codes "./"
  | some dir_sep_pos ↦ if dir_sep_pos == 0 then codes "/" else take (dir_sep_pos + 1) path
]

-- What happens to a temporary file.
pub data TempEvent : Type 0 where
  created closed unlinked opened : TempEvent

create_template : Text → Result Text
create_template prefix = do check parameters (not (is_empty prefix)); ok (prefix ++ codes "XXXXXX")

-- `mkstemp` turns the template into the name of a new file, or fails.
module _ (mkstemp : Text → Sys Text) where
  pub temporary_filename : Text → Result (Text × List TempEvent)
  unfolding create_template
  temporary_filename prefix = do
    template ← create_template prefix
    templ ← or_throw (codes "mkstemp") (mkstemp template)
    ok (templ, created ∷ closed ∷ unlinked ∷ [])

  -- The result, and what has happened: `fdopen` may fail behind the creation.
  unfoldable temporary_file : Sys (Unit {0}) → Text → Result Text × List TempEvent
  unfolding create_template
  temporary_file fdopen prefix =
      elim (create_template prefix >>= λ t. or_throw (codes "mkstemp") (mkstemp t)) [
        | thrown e ↦ (thrown e, [])
        | ok templ ↦ elim fdopen [
          | fails errno ↦ (thrown (system_error errno (codes "fdopen")), created ∷ [])
          | done _ ↦ (ok templ, created ∷ opened ∷ [])
        ]
      ]

  -- The stream is opened by name behind the removal of the file.
  unfoldable temporary_fstream : Text → Result (Text × List TempEvent)
  unfolding temporary_filename
  temporary_fstream prefix = do
    r ← temporary_filename prefix
    ok (r.0, r.1 ++ created ∷ opened ∷ [])

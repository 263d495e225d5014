-- ===== src/File/Walk.antt =====
-- `fileTreeWalk` of Sources/file_tree_walk.cpp. The library `fts` answers with the entries that
-- `fts_read` gives one after the other, and the `errno` that is left when it gives none. What the
-- caller's function changes is the state `w`. The closing of the walk is left out.
pub mod Visible
mod Tests
use kssio.Prelude.{
  ℕ, Bool, true, false, not, ◌&&◌, ◌||◌, List, [], ◌∷◌, ◌++◌, ◌==◌, if◌then◌else◌, is_empty, get_or,
  Text, codes, text_eq, Result, ok, thrown, system_error, Sys, or_throw, require, parameters,
  conditions, check, ◌>>=◌, ◌>>◌,
}
use kssio.File.Stat.{is_file, is_directory}
use kssio.File.Path.{basename}

-- `fts_info`: the kinds that the code tells apart.
pub data FtsInfo : Type 0 where
  fts_d fts_dp fts_dot fts_dnr fts_err fts_ns fts_other : FtsInfo

pub record Ftsent : Type 0 where
  pub fts_info : FtsInfo
  pub fts_name : Text
  pub fts_path : Text
  pub fts_errno : ℕ
  pub fts_stat : ℕ

pub is_hidden : Text → Bool
is_hidden name =
    if text_eq name (codes ".") || text_eq name (codes "..") then false else get_or name 0 0 == b'.'

-- `!strncmp(ignored, name, length of name)`, for texts with no character 0.
abbrev pub same_start : Text → Text → Bool
same_start ignored [] = true
same_start [] (c ∷ name) = false
same_start (d ∷ ignored) (c ∷ name) = (d == c) && same_start ignored name

module _ {W : Type 0} (ignore_hidden_files : Bool) (fn : Ftsent → W → Result W) where
  -- The loop over the entries; `ignored` is ignoreUntilWeVisit. With the state it gives what is
  -- ignored behind the last entry.
  pub walk_loop : List Ftsent → Text → W → Result (Text × W)
  unfolding is_hidden
  walk_loop [] ignored w = ok (ignored, w)
  walk_loop (entry ∷ more) ignored w =
      let name = entry.fts_name in
      let hide = ignore_hidden_files && is_hidden name in
      let skip = walk_loop more ignored w in
      let failure : Result (Text × W) =
        thrown (system_error entry.fts_errno (codes "fts_read failed on " ++ entry.fts_path)) in
      elim entry.fts_info [
        | fts_d ↦
            if not (is_empty ignored) then skip else if hide then walk_loop more name w else skip
        | fts_dp ↦ if same_start ignored name then walk_loop more [] w else skip
        | fts_dot ↦ skip
        | fts_dnr ↦ failure
        | fts_err ↦ failure
        | fts_ns ↦ failure
        | fts_other ↦
            if not (is_empty ignored) || hide
            then skip
            else fn entry w >>= λ w'. walk_loop more ignored w'
      ]

-- The answers of the system: `stat` and `lstat`, the entries of the walk with or without a stat of
-- each, the `errno` behind the last entry, and the opening of a file for reading.
pub record WalkSystem : Type 0 where
  pub stat : Text → Bool → Sys ℕ
  pub fts_open : Text → Bool → Sys (List Ftsent)
  pub last_errno : ℕ
  pub open_file : Text → Sys Text

-- The conditions that the three functions check of a path.
is_reported : Bool → Text → Bool
is_reported ignore_hidden_files path_to_file =
    not (is_empty path_to_file)
    && (not ignore_hidden_files || not (get_or (basename path_to_file) 0 0 == b'.'))

module _ {W : Type 0} (os : WalkSystem) where
  pub do_file_tree_walk : Text → Bool → Bool → (Ftsent → W → Result W) → W → Result W
  unfolding walk_loop
  do_file_tree_walk path_to_directory ignore_hidden_files include_stat_with_output fn w = do
    directory ← is_directory os.stat path_to_directory true
    check parameters (not (is_empty path_to_directory) && directory)
    entries ← or_throw (codes "fts_open") (os.fts_open path_to_directory include_stat_with_output)
    r ← walk_loop ignore_hidden_files fn entries [] w
    if os.last_errno == 0 then ok r.1 else thrown (system_error os.last_errno (codes "fts_read"))

  name_only : Bool → (Text → W → Result W) → Ftsent → W → Result W
  unfolding is_reported
  name_only ignore_hidden_files fn entry w = do
    check conditions (is_reported ignore_hidden_files entry.fts_path)
    regular ← is_file os.stat entry.fts_path true
    if regular then fn entry.fts_path w else ok w

  name_and_stat : Bool → (Text → ℕ → W → Result W) → Ftsent → W → Result W
  unfolding is_reported
  name_and_stat ignore_hidden_files fn entry w = do
    check conditions (is_reported ignore_hidden_files entry.fts_path)
    fn entry.fts_path entry.fts_stat w

  -- The caller's function gets the content of the file; with the state it gives the `errno` if the
  -- stream is bad behind it, and 0 if not.
  read_file : (Text → Text → W → Result (W × ℕ)) → Text → W → Result W
  read_file fn path_to_file w = do
    strm ← or_throw (codes "Failed to open " ++ path_to_file) (os.open_file path_to_file)
    r ← fn path_to_file strm w
    require (r.1 == 0) (system_error r.1 (codes "Failed while reading " ++ path_to_file))
    ok r.0

  name_and_stream : Bool → (Text → Text → W → Result (W × ℕ)) → Ftsent → W → Result W
  unfolding is_reported read_file
  name_and_stream ignore_hidden_files fn entry w = do
    check conditions (is_reported ignore_hidden_files entry.fts_path)
    regular ← is_file os.stat entry.fts_path true
    if regular then read_file fn entry.fts_path w else ok w

  -- The three forms of fileTreeWalk.
  pub file_tree_walk : Text → Bool → (Text → W → Result W) → W → Result W
  unfolding do_file_tree_walk name_only
  file_tree_walk path_to_directory ignore_hidden_files fn w =
      do_file_tree_walk path_to_directory ignore_hidden_files false
        (name_only ignore_hidden_files fn) w

  file_tree_walk_stat : Text → Bool → (Text → ℕ → W → Result W) → W → Result W
  unfolding do_file_tree_walk name_and_stat
  file_tree_walk_stat path_to_directory ignore_hidden_files fn w =
      do_file_tree_walk path_to_directory ignore_hidden_files true
        (name_and_stat ignore_hidden_files fn) w

  file_tree_walk_stream : Text → Bool → (Text → Text → W → Result (W × ℕ)) → W → Result W
  unfolding do_file_tree_walk name_and_stream
  file_tree_walk_stream path_to_directory ignore_hidden_files fn w =
      do_file_tree_walk path_to_directory ignore_hidden_files false
        (name_and_stream ignore_hidden_files fn) w

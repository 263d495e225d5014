-- ===== src/File/Stat.antt =====
-- The questions about a path of Sources/fileutil.cpp and Sources/fileutil.hpp. `stat` is the
-- system: the mode of a path, with links followed or not, or the `errno`. The numbers are those of
-- POSIX systems in octal; there is no S_IFWHT on Linux.
pub mod Kinds
mod Tests
use kssio.Prelude.{
  ℕ, Bool, true, false, not, ◌||◌, bit_and, ◌==◌, if◌then◌else◌, is_empty, Text, codes, Result, ok,
  thrown, system_error, Sys, done, fails, parameters, check, ◌>>=◌, ◌>>◌,
}

abbrev enoent : ℕ
enoent = 2

abbrev enotdir : ℕ
enotdir = 20

-- S_IFIFO, S_IFCHR, S_IFDIR, S_IFBLK, S_IFREG, S_IFLNK and S_IFSOCK.
abbrev s_ififo : ℕ
s_ififo = 0o010000

abbrev s_ifchr : ℕ
s_ifchr = 0o020000

abbrev s_ifdir : ℕ
s_ifdir = 0o040000

abbrev s_ifblk : ℕ
s_ifblk = 0o060000

abbrev s_ifreg : ℕ
s_ifreg = 0o100000

abbrev s_iflnk : ℕ
s_iflnk = 0o120000

abbrev s_ifsock : ℕ
s_ifsock = 0o140000

-- The name that `throwSystemError` is given.
abbrev call_name : Bool → Text
call_name follow_links = if follow_links then codes "lstat" else codes "stat"

module _ (stat : Text → Bool → Sys ℕ) where
  -- What is said of a path whose `stat` fails.
  on_failure : Bool → ℕ → Result Bool
  on_failure follow_links errno =
      if (errno == enoent) || (errno == enotdir)
      then ok false
      else thrown (system_error errno (call_name follow_links))

  unfoldable pub do_stat : Text → Bool → ℕ → Result Bool
  unfolding on_failure
  do_stat path follow_links mode = do
    check parameters (not (is_empty path))
    (elim (stat path follow_links) [
      | done st_mode ↦ ok (bit_and st_mode mode == mode)
      | fails errno ↦ on_failure follow_links errno
    ])

  unfoldable pub exists : Text → Bool → Result Bool
  unfolding on_failure
  exists path follow_links = do
    check parameters (not (is_empty path))
    (elim (stat path follow_links) [
      | done st_mode ↦ ok true
      | fails errno ↦ on_failure follow_links errno
    ])

  unfoldable pub is_file : Text → Bool → Result Bool
  is_file path follow_links = do_stat path follow_links s_ifreg

  unfoldable pub is_directory : Text → Bool → Result Bool
  is_directory path follow_links = do_stat path follow_links s_ifdir

  pub is_symbolic_link : Text → Bool → Result Bool
  is_symbolic_link path follow_links = do_stat path follow_links s_iflnk

  pub is_pipe : Text → Bool → Result Bool
  is_pipe path follow_links = do_stat path follow_links s_ififo

  pub is_character_special : Text → Bool → Result Bool
  is_character_special path follow_links = do_stat path follow_links s_ifchr

  pub is_block_special : Text → Bool → Result Bool
  is_block_special path follow_links = do_stat path follow_links s_ifblk

  pub is_socket : Text → Bool → Result Bool
  is_socket path follow_links = do_stat path follow_links s_ifsock

-- Where there are no whiteouts only the parameter is checked.
unfoldable is_whiteout : Text → Bool → Result Bool
is_whiteout path follow_links = do check parameters (not (is_empty path)); ok false

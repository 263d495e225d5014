-- ===== src/File/Ensure/Tests.antt =====
-- A path with one directory that is there and two that are missing.
use kssio.Prelude.{
  ◌≡◌, Bool, some, List, [], ◌∷◌, Text, text_eq, codes, done, fails, ok, refl, ◌||◌, if◌then◌else◌,
}
use kssio.File.Stat.{is_directory, exists, do_stat}
use kssio.File.System.{mkdir, History, System}
use kssio.File.Ensure.{ensure_path}
use kssio.File.Ensure.Created.{created, ensure_path-created}

abbrev is_made : Text → History → Bool
is_made path [] = text_eq path (codes "/a")
is_made path (mkdir p mode ∷ h) = text_eq path p || is_made path h
is_made path (_ ∷ h) = is_made path h

abbrev small_system : System
small_system = record {
  stat = λ h path follow_links. if is_made path h then done 0o040755 else fails 2;
  opendir = λ h path. done [];
  answer = λ h call. done tt;
}

abbrev split : Text → Text → List Text
split path separator = codes "a" ∷ codes "b" ∷ codes "c" ∷ []

abbrev old : List Text
old = codes "/a" ∷ []

abbrev new : List Text
new = codes "/a/b" ∷ codes "/a/b/c" ∷ []

ensure_path-created_example :
    ensure_path small_system 0o755 split (codes "/a/b/c") (some [])
    ≡ (ok tt, some (created small_system 0o755 new []))
unfolding is_directory do_stat exists
ensure_path-created_example =
    ensure_path-created small_system 0o755 split (codes "/a/b/c") old new [] refl refl refl refl
      (refl, tt) (refl, (refl, (refl, (refl, (refl, (refl, tt)))))) refl

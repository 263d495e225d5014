-- ===== src/File/Ensure/Created.antt =====
-- What ensurePath creates.
use kssio.Prelude.{
  postconditions, ℕ, ◌≡◌, true, false, ◌==◌, some, List, [], ◌∷◌, ◌++◌, if◌then◌else◌, is_empty,
  get_or, Text, codes, ok, done, refl, ap, ◌∙◌, All,
}
use kssio.Prelude.Effect.{◌>>=◌, ◌>>◌, pure, after_ok, assert}
use kssio.File.Stat.{is_directory, exists}
use kssio.File.System.{mkdir, chmod, History, System, M, perform, ask}
use kssio.File.Ensure.{separator, ensure_path_so_far, ensure_loop, create_path, ensure_path}

-- The paths to the directories above the last component and to it.
abbrev prefixes : Text → List Text → List Text
prefixes path_so_far [] = []
prefixes path_so_far (component ∷ components) =
    (path_so_far ++ component) ∷ prefixes (path_so_far ++ component ++ separator) components

module _ (sys : System) (permissions : ℕ) where
  -- The calls that create some directories.
  abbrev pub created : List Text → History → History
  created [] h = h
  created (p ∷ ps) h = created ps (chmod p permissions ∷ mkdir p permissions ∷ h)

  -- Directories that are there.
  abbrev AreThere : List Text → History → Type 0
  AreThere ps h = All (λ p. is_directory (sys.stat h) p true ≡ ok true) ps

  -- Directories that are missing each until it is created, which succeeds.
  abbrev AreMissing : List Text → History → Type 0
  AreMissing [] h = Unit
  AreMissing (p ∷ ps) h =
      (is_directory (sys.stat h) p true ≡ ok false)
      × ((sys.answer h (mkdir p permissions) ≡ done tt)
          × ((sys.answer (mkdir p permissions ∷ h) (chmod p permissions) ≡ done tt)
              × AreMissing ps (chmod p permissions ∷ mkdir p permissions ∷ h)))

  -- The loop, on the paths.
  abbrev run : List Text → M (Unit {0})
  run [] = pure tt
  run (p ∷ ps) = ensure_path_so_far sys permissions p >> run ps

  ensure_loop-run :
      (path_so_far : Text) (components : List Text)
      → ensure_loop sys permissions path_so_far components ≡ run (prefixes path_so_far components)
  unfolding ensure_loop
  ensure_loop-run path_so_far [] = refl
  ensure_loop-run path_so_far (c ∷ components) =
      ap (λ m. ensure_path_so_far sys permissions (path_so_far ++ c) >> m)
        (ensure_loop-run (path_so_far ++ c ++ separator) components)

  run-created :
      (old new : List Text) (h : History)
      → AreThere old h
      → AreMissing new h
      → run (old ++ new) (some h) ≡ (ok tt, some (created new h))
  unfolding ensure_path_so_far ask perform
  run-created [] [] h there missing = refl
  run-created [] (p ∷ ps) h there missing =
      after_ok (ensure_path_so_far sys permissions p) (λ _. run ps) {s = some h}
        (rw (ensure_path_so_far, ◌>>=◌, ask, missing.0, ◌>>◌, perform, missing.1.0)
          (rw (perform, missing.1.0, missing.1.1.0) refl))
      ∙ run-created [] ps (chmod p permissions ∷ mkdir p permissions ∷ h) tt missing.1.1.1
  run-created (p ∷ old) new h there missing =
      after_ok (ensure_path_so_far sys permissions p) (λ _. run (old ++ new)) {s = some h}
        (rw (ensure_path_so_far, ◌>>=◌, ask, there.0) refl)
      ∙ run-created old new h there.1 missing

  abbrev ends : Text → M (Unit {0})
  ends dir = ask sys is_directory dir >>= λ b. assert postconditions b

  -- ensurePath of a path that does not exist, whose first directories are there and whose others are
  -- missing, creates exactly the missing ones, each before those in it, and returns, if the system
  -- creates them and the path is a directory then.
  pub ensure_path-created :
      (tokens : Text → Text → List Text)
      → (dir : Text) → (old new : List Text) → (h : History) → is_empty dir ≡ false
      → is_directory (sys.stat h) dir true ≡ ok false
      → exists (sys.stat h) dir true ≡ ok false
      → prefixes (if get_or dir 0 0 == b'/' then codes "/" else []) (tokens dir separator)
        ≡ old ++ new
      → AreThere old h
      → AreMissing new h
      → is_directory (sys.stat (created new h)) dir true ≡ ok true
      → ensure_path sys permissions tokens dir (some h) ≡ (ok tt, some (created new h))
  unfolding ensure_path create_path ask
  ensure_path-created tokens dir old new h full none_there nothing split there missing afterwards =
      let start = if get_or dir 0 0 == b'/' then codes "/" else [] in
      let creates : create_path sys permissions tokens dir (some h)
          ≡ (ok tt, some (created new h)) =
        rw (create_path, ◌>>=◌, ask, nothing, ensure_loop-run start (tokens dir separator), split)
          (run-created old new h there missing) in
      let starts : ensure_path sys permissions tokens dir (some h)
          ≡ (create_path sys permissions tokens dir >> ends dir) (some h) =
        rw (ensure_path, ◌>>=◌, ◌>>◌, full, ask, none_there) refl in
      starts
      ∙ after_ok (create_path sys permissions tokens dir) (λ _. ends dir) {s = some h} creates
      ∙ rw (◌>>=◌, ask, afterwards) refl

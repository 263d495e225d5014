-- ===== src/File/Walk/Visible.antt =====
-- What a walk reports of a directory tree.
use kssio.Prelude.{
  append_assoc, ℕ, Bool, true, false, ◌&&◌, List, [], ◌∷◌, ◌++◌, ◌≡◌, if◌then◌else◌, is_empty, Text,
  Result, ok, done, ◌>>=◌, refl, ◌∙◌, arith, Bool-cases, Result-cases, inl, inr,
}
use kssio.File.Walk.{
  Ftsent, FtsInfo, fts_d, fts_dp, fts_other, is_hidden, same_start, walk_loop, WalkSystem,
  do_file_tree_walk,
}
use kssio.File.Stat.{is_directory}

-- The entries of a directory in order: files, and directories with what they hold.
pub data Forest : Type 0 where
  nothing : Forest
  file : Text → ℕ → Forest → Forest
  folder : Text → Forest → Forest → Forest

abbrev entry_of : FtsInfo → Text → Text → ℕ → Ftsent
entry_of info name path mode = record {
  fts_info = info;
  fts_name = name;
  fts_path = path;
  fts_errno = 0;
  fts_stat = mode;
}

-- The path of an entry of a directory.
abbrev below : Text → Text → Text
below path name = path ++ (b'/' ∷ name)

-- What `fts` gives for them below a path, when everything can be read: each directory before and
-- behind what it holds.
abbrev traverse : Text → Forest → List Ftsent
traverse path nothing = []
traverse path (file name mode more) =
    entry_of fts_other name (below path name) mode ∷ traverse path more
traverse path (folder name inside more) =
    entry_of fts_d name (below path name) 0
    ∷ (traverse (below path name) inside
        ++ (entry_of fts_dp name (below path name) 0 ∷ traverse path more))

-- The same for the directory itself, whose name is the last part of its path.
abbrev pub entries_of : Text → Text → Forest → List Ftsent
entries_of path name f =
    entry_of fts_d name path 0 ∷ (traverse path f ++ (entry_of fts_dp name path 0 ∷ []))

-- The files to be reported: none that is hidden or lies in a hidden directory, if those are to be
-- ignored.
abbrev pub visible : Bool → Text → Forest → List Ftsent
visible hide path nothing = []
visible hide path (file name mode more) =
    if hide && is_hidden name
    then visible hide path more
    else entry_of fts_other name (below path name) mode ∷ visible hide path more
visible hide path (folder name inside more) =
    if hide && is_hidden name
    then visible hide path more
    else visible hide (below path name) inside ++ visible hide path more

-- No directory has a name that begins `ignored`.
abbrev KeepsIgnoring : Text → Forest → Type 0
KeepsIgnoring ignored nothing = Unit
KeepsIgnoring ignored (file name mode more) = KeepsIgnoring ignored more
KeepsIgnoring ignored (folder name inside more) =
    (same_start ignored name ≡ false) × KeepsIgnoring ignored inside × KeepsIgnoring ignored more

-- Where hidden files are ignored, no directory in a hidden one has a name that begins the name of
-- the hidden one.
abbrev IsPlain : Bool → Forest → Type 0
IsPlain hide nothing = Unit
IsPlain hide (file name mode more) = IsPlain hide more
IsPlain hide (folder name inside more) =
    (if hide && is_hidden name then KeepsIgnoring name inside else IsPlain hide inside)
    × IsPlain hide more

same_start_refl : (name : Text) → same_start name name ≡ true
same_start_refl [] = refl
same_start_refl (c ∷ name) = ground (arith, same_start_refl name)

is_hidden-is_empty : (name : Text) → is_hidden name ≡ true → is_empty name ≡ false
unfolding is_hidden
is_hidden-is_empty [] h = ground arith
is_hidden-is_empty (c ∷ name) h = refl

module _ {W : Type 0} (fn : Ftsent → W → Result W) where
  -- One call for each entry, as long as none throws.
  abbrev pub report : List Ftsent → W → Result W
  report [] w = ok w
  report (entry ∷ more) w = fn entry w >>= λ w'. report more w'

  report-append :
      (xs ys : List Ftsent) (w : W) → report (xs ++ ys) w ≡ (report xs w >>= λ w'. report ys w')
  report-append [] ys w = refl
  report-append (x ∷ xs) ys w = elim (Result-cases (fn x w)) [
    | inl (w', e) ↦ rw e (report-append xs ys w')
    | inr (x, e) ↦ rw e refl
  ]

  module _ (hide : Bool) where
    ignores_all :
        (path ignored : Text) (f : Forest) (rest : List Ftsent) (w : W)
        → is_empty ignored ≡ false
        → KeepsIgnoring ignored f
        → walk_loop hide fn (traverse path f ++ rest) ignored w ≡ walk_loop hide fn rest ignored w
    unfolding walk_loop
    ignores_all path ignored nothing rest w ne keeps = refl
    ignores_all path ignored (file name mode more) rest w ne keeps =
        rw ne (ignores_all path ignored more rest w ne keeps)
    ignores_all path ignored (folder name inside more) rest w ne keeps =
        rw
          (
            ne,
            append_assoc,
            ignores_all (below path name) ignored inside
                (entry_of fts_dp name (below path name) 0 ∷ (traverse path more ++ rest)) w ne
                keeps.1,
            keeps.0,
          )
          (ignores_all path ignored more rest w ne keeps.2)

    leaves_folder :
        (name path : Text) (rest : List Ftsent) (w : W)
        → walk_loop hide fn (entry_of fts_dp name path 0 ∷ rest) [] w ≡ walk_loop hide fn rest [] w
    unfolding walk_loop
    leaves_folder name path rest w = elim (Bool-cases (same_start [] name)) [
      | inl e ↦ rw e refl
      | inr e ↦ rw e refl
    ]

    hidden_name : (name : Text) → (hide && is_hidden name) ≡ true → is_empty name ≡ false
    hidden_name name h = is_hidden-is_empty name (ground arith)

    walk_loop-traverse :
        (path : Text) (f : Forest) (rest : List Ftsent) (w : W)
        → IsPlain hide f
        → walk_loop hide fn (traverse path f ++ rest) [] w
          ≡ (report (visible hide path f) w >>= λ w'. walk_loop hide fn rest [] w')
    unfolding walk_loop
    walk_loop-traverse path nothing rest w plain = refl
    walk_loop-traverse path (file name mode more) rest w plain =
        elim (Bool-cases (hide && is_hidden name)) [
          | inl h ↦ rw h (walk_loop-traverse path more rest w plain)
          | inr h ↦ elim (Result-cases (fn (entry_of fts_other name (below path name) mode) w)) [
            | inl (w', e) ↦ rw (h, e) (walk_loop-traverse path more rest w' plain)
            | inr (x, e) ↦ rw (h, e) refl
          ]
        ]
    walk_loop-traverse path (folder name inside more) rest w plain =
        elim (Bool-cases (hide && is_hidden name)) [
          | inl h ↦
              rw
                (
                  h,
                  append_assoc,
                  ignores_all (below path name) name inside
                      (entry_of fts_dp name (below path name) 0 ∷ (traverse path more ++ rest)) w
                      (hidden_name name h) (rw h at plain.0),
                  same_start_refl,
                )
                (walk_loop-traverse path more rest w plain.1)
          | inr h ↦
              let at_end =
                entry_of fts_dp name (below path name) 0 ∷ (traverse path more ++ rest) in
              let ih = walk_loop-traverse (below path name) inside at_end w (rw h at plain.0) in
              elim (Result-cases (report (visible hide (below path name) inside) w)) [
                | inl (w', e) ↦
                    rw (h, append_assoc, ih, report-append, e)
                      (leaves_folder name (below path name) (traverse path more ++ rest) w'
                        ∙ walk_loop-traverse path more rest w' plain.1)
                | inr (x, e) ↦ rw (h, append_assoc, ih, report-append, e) refl
              ]
        ]

    loop_of_root :
        (path name : Text) (f : Forest) (w : W)
        → IsPlain hide (folder name f nothing)
        → walk_loop hide fn (entries_of path name f) [] w
          ≡ (if hide && is_hidden name then ok w else report (visible hide path f) w) >>= λ w'.
              ok ([], w')
    unfolding walk_loop
    loop_of_root path name f w plain = elim (Bool-cases (hide && is_hidden name)) [
      | inl h ↦
          rw
            (
              h,
              ignores_all path name f (entry_of fts_dp name path 0 ∷ []) w (hidden_name name h)
                  (rw h at plain.0),
              same_start_refl,
            )
            refl
      | inr h ↦
          let at_end = entry_of fts_dp name path 0 ∷ [] in
          let ih = walk_loop-traverse path f at_end w (rw h at plain.0) in
          elim (Result-cases (report (visible hide path f) w)) [
            | inl (w', e) ↦ rw (h, ih, e) (leaves_folder name path [] w')
            | inr (x, e) ↦ rw (h, ih, e) refl
          ]
    ]

-- If the system can read the whole directory, and, where hidden files are ignored, no directory
-- within a hidden one has a name that begins the hidden one's name, then a walk calls the function
-- once for each file that is visible, in the order of the system, until a call throws. If the name
-- of the directory itself is hidden and hidden files are ignored, it calls nothing.
pub do_file_tree_walk-report :
    {W : Type 0} (os : WalkSystem) (path name : Text) (hide with_stat : Bool) (f : Forest)
    (fn : Ftsent → W → Result W) (w : W)
    → is_empty path ≡ false
    → is_directory os.stat path true ≡ ok true
    → os.fts_open path with_stat ≡ done (entries_of path name f)
    → os.last_errno ≡ 0
    → IsPlain hide (folder name f nothing)
    → do_file_tree_walk os path hide with_stat fn w
      ≡ (if hide && is_hidden name then ok w else report fn (visible hide path f) w)
unfolding do_file_tree_walk
do_file_tree_walk-report os path name hide with_stat f fn w ne directory entries last plain =
    rw (directory, ne, entries, loop_of_root fn hide path name f w plain)
      (elim (Result-cases
        (if hide && is_hidden name then ok w else report fn (visible hide path f) w)) [
          | inl (w', e) ↦ rw (e, last) refl
          | inr (x, e) ↦ rw e refl
        ])

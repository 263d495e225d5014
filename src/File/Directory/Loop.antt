-- ===== src/File/Directory/Loop.antt =====
-- A loop over the entries of a directory.
use kssio.Prelude.{
  text_eq_refl, ℕ, zero, suc, ◌+◌, ◌<◌, ◌≡◌, Bool, true, false, Option, none, some, List, [], ◌∷◌,
  length, if◌then◌else◌, is_empty, Text, text_eq, Result, ok, thrown, Sys, done, refl, arith,
  Result-cases, inl, inr,
}
use kssio.Prelude.Effect.{Effect, ◌>>=◌, ◌>>◌, lift}
use kssio.File.Stat.{is_directory}
use kssio.File.Directory.{
  value_of, DirStream, Directory, ConstIterator, read_dir, increment, equals, begin, end_iterator,
  construct_begin, construct_end,
}
use kssio.File.Directory.Listing.{
  names, failure, unless_failed, Lists, at_end, at_failure, at_name, Lists-names,
}

-- Names as a directory has them: none is empty, and neighbours differ.
abbrev pub IsNamed : Text → List Text → Type 0
IsNamed before [] = Unit
IsNamed before (n ∷ ns) = (is_empty n ≡ false) × ((text_eq n before ≡ false) × IsNamed n ns)

full-text_eq : (s : Text) → is_empty s ≡ false → text_eq s [] ≡ false
full-text_eq [] h = cc
full-text_eq (c ∷ s) h = refl

text_eq-full : (s : Text) → is_empty s ≡ false → text_eq [] s ≡ false
text_eq-full [] h = cc
text_eq-full (c ∷ s) h = refl

-- How a loop ends; `terminated` is the end of the program by an exception in a function that is noexcept.
pub data LoopEnd : Type 0 where
  terminated : LoopEnd
  ended : Result (Unit {0}) → LoopEnd

abbrev pub ending : {W : Type 0} → Result (Unit {0}) × W → LoopEnd × W
ending (r, w) = (ended r, w)

module _ {W : Type 0} (fn : Text → Effect W (Unit {0})) where
  -- `for (; it != last; ++it) { fn(*it); }`, on fuel.
  pub loop : ℕ → ConstIterator → ConstIterator → W → Option (LoopEnd × W)
  loop zero it last w = none
  loop (suc fuel) it last w =
      let (r, w') = fn it.current_value w in
      if equals it last then some (ended (ok tt), w) else elim r [
        | thrown e ↦ some (ended (thrown e), w')
        | ok _ ↦ elim (increment it) [
          | thrown e ↦ some (ended (thrown e), w')
          | ok it' ↦ loop fuel it' last w'
        ]
      ]

  -- `for (const auto& entry : d) { fn(entry); }`
  pub for_each_entry :
      (Text → Bool → Sys ℕ) → (Text → Sys DirStream) → ℕ → Directory → W → Option (LoopEnd × W)
  unfolding loop
  for_each_entry stat opendir fuel d w = elim (begin stat opendir d) [
    | none ↦ some (terminated, w)
    | some it ↦ elim (end_iterator stat opendir d) [
      | none ↦ some (terminated, w)
      | some last ↦ loop fuel it last w
    ]
  ]

  -- One call for each name, as long as none throws, and then the end.
  abbrev pub for_each_name : List Text → Result (Unit {0}) → Effect W (Unit {0})
  for_each_name [] end = lift end
  for_each_name (n ∷ ns) end = fn n >> for_each_name ns end

  -- An error before the first entry ends the program; the others are thrown.
  abbrev pub for_each_found : List Text → Option ℕ → W → LoopEnd × W
  for_each_found [] (some errno) w = (terminated, w)
  for_each_found [] none w = (ended (ok tt), w)
  for_each_found (n ∷ ns) e w = ending (for_each_name (n ∷ ns) (unless_failed e (ok tt)) w)

  pub for_each_found-none :
      (ns : List Text) (w : W) → for_each_found ns none w ≡ ending (for_each_name ns (ok tt) w)
  for_each_found-none [] w = refl
  for_each_found-none (n ∷ ns) w = refl

  module _ (name : Text) (ih : Bool) where
    abbrev at : Option DirStream → Text → ConstIterator
    at dirptr value = record {
      dirptr = dirptr;
      current_value = value;
      directory_name = name;
      ignore_hidden = ih;
    }

    same_directory :
        (dirptr : Option DirStream) (value : Text)
        → equals (at dirptr value) (at none []) ≡ text_eq value []
    unfolding equals
    same_directory dirptr value = rw (text_eq_refl name) refl

    loop-for_each_name :
        (fuel : ℕ) (dir : DirStream) (n : Text) (ns : List Text) (e : Option ℕ) (w : W)
        → Lists ih dir ns e
        → is_empty n ≡ false
        → IsNamed n ns
        → length ns + 1 < fuel
        → loop fuel (at (some dir) n) (at none []) w
          ≡ some (ending (for_each_name (n ∷ ns) (unless_failed e (ok tt)) w))
    unfolding loop increment
    loop-for_each_name zero dir n ns e w l full named enough = absurd (omega arith)
    loop-for_each_name (suc zero) dir n ns e w l full named enough = absurd (omega arith)
    loop-for_each_name (suc (suc fuel)) dir n ns e w (at_end _ d r) full named enough =
        elim (Result-cases (fn n w).0) [
          | inl (u, f) ↦
              rw
                (
                  ◌>>◌,
                  ◌>>=◌,
                  loop,
                  same_directory (some dir) n,
                  full-text_eq n full,
                  f,
                  increment,
                  full,
                  r,
                  text_eq-full n full,
                )
                (rw (same_directory (some d) []) refl)
          | inr (x, f) ↦
              rw (◌>>◌, ◌>>=◌, loop, same_directory (some dir) n, full-text_eq n full, f) refl
        ]
    loop-for_each_name (suc (suc fuel)) dir n ns e w (at_failure _ errno r) full named enough =
        elim (Result-cases (fn n w).0) [
          | inl (u, f) ↦
              rw
                (
                  ◌>>◌,
                  ◌>>=◌,
                  loop,
                  same_directory (some dir) n,
                  full-text_eq n full,
                  f,
                  increment,
                  full,
                  r,
                )
                refl
          | inr (x, f) ↦
              rw (◌>>◌, ◌>>=◌, loop, same_directory (some dir) n, full-text_eq n full, f) refl
        ]
    loop-for_each_name (suc (suc fuel)) dir n ns e w (at_name _ d m ms _ r more) full named enough =
        elim (Result-cases (fn n w).0) [
          | inl (u, f) ↦
              rw
                (
                  ◌>>◌,
                  ◌>>=◌,
                  loop,
                  same_directory (some dir) n,
                  full-text_eq n full,
                  f,
                  increment,
                  full,
                  r,
                  named.1.0,
                )
                (loop-for_each_name (suc fuel) d m ms e (fn n w).1 more named.0 named.1.1
                  (omega arith))
          | inr (x, f) ↦
              rw (◌>>◌, ◌>>=◌, loop, same_directory (some dir) n, full-text_eq n full, f) refl
        ]

  module _ (stat : Text → Bool → Sys ℕ) (opendir : Text → Sys DirStream) (d : Directory)
      (dir : DirStream) (there : is_directory stat d.directory_name true ≡ ok true)
      (found : opendir d.directory_name ≡ done dir) where
    abbrev at_d : Option DirStream → Text → ConstIterator
    at_d = at d.directory_name d.ignore_hidden

    begins :
        (o : Option Text) (dir' : DirStream)
        → read_dir d.ignore_hidden dir ≡ ok (o, dir')
        → begin stat opendir d ≡ some (at_d (some dir') (value_of o))
    unfolding begin construct_begin
    begins o dir' r = rw (there, found, r) refl

    ends : end_iterator stat opendir d ≡ some (at_d none [])
    unfolding end_iterator construct_end
    ends = rw there refl

    from_begin :
        (fuel : ℕ) (ns : List Text) (e : Option ℕ) (w : W)
        → Lists d.ignore_hidden dir ns e
        → IsNamed [] ns
        → length ns < fuel
        → for_each_entry stat opendir (suc fuel) d w ≡ some (for_each_found ns e w)
    unfolding for_each_entry loop
    from_begin fuel ns e w (at_end _ dir' r) named enough =
        rw
          (
            for_each_entry,
            begins none dir' r,
            ends,
            loop,
            same_directory d.directory_name d.ignore_hidden (some dir') [],
          )
          refl
    from_begin fuel ns e w (at_failure _ errno r) named enough =
        let stops : begin stat opendir d ≡ none =
          unfold begin construct_begin in rw (begin, construct_begin, there, found, r) refl in
        rw (for_each_entry, stops) refl
    from_begin fuel ns e w (at_name _ dir' m ms _ r more) named enough =
        rw (for_each_entry, begins (some m) dir' r, ends)
          (loop-for_each_name d.directory_name d.ignore_hidden (suc fuel) dir' m ms e w more named.0
            named.1.1 (omega arith))

    -- A range loop over a directory that is there calls its function once for each entry that is not
    -- skipped, in order, until a call throws, and then throws the error of reading, if there is one; but
    -- an error of reading before the first such entry ends the program. No name is empty, neighbours
    -- differ, and there is more fuel than there are entries and one more.
    pub for_each_entry-for_each_name :
        (fuel : ℕ) (w : W)
        → IsNamed [] (names d.ignore_hidden dir)
        → length (names d.ignore_hidden dir) + 1 < fuel
        → for_each_entry stat opendir fuel d w
          ≡ some (for_each_found (names d.ignore_hidden dir) (failure dir) w)
    for_each_entry-for_each_name zero w named enough = absurd (omega arith)
    for_each_entry-for_each_name (suc fuel) w named enough =
        from_begin fuel (names d.ignore_hidden dir) (failure dir) w
          (Lists-names d.ignore_hidden dir) named (omega arith)

-- ===== src/File/Directory/Compare.antt =====
-- When two directories count as equal.
use kssio.Prelude.{
  ℕ, zero, suc, ◌<◌, ◌≡◌, Bool, true, false, ◌&&◌, ◌||◌, none, some, List, [], ◌∷◌, length, Text,
  ok, Sys, done, refl, arith, Bool-cases, inl, inr, take, map, ◌↔◌, ◌⊎◌, eq_of_text_eq, text_eq,
  text_eq_refl, ap, sym, ◌∙◌,
}
use kssio.File.Stat.{is_directory}
use kssio.File.Directory.{
  DirStream, Directory, compare_loop, compare_opened, same_entries, same_name, is_same_view,
}
use kssio.File.Directory.Listing.{names, failure, Lists, at_end, at_name, Lists-names}

-- The same names in the same order, up to NAME_MAX characters of each.
abbrev pub same_list : List Text → List Text → Bool
same_list [] [] = true
same_list [] (b ∷ bs) = false
same_list (a ∷ as_) [] = false
same_list (a ∷ as_) (b ∷ bs) = same_name a b && same_list as_ bs

compare_loop-same_list :
    (fuel : ℕ) (ih1 ih2 : Bool) (dir1 dir2 : DirStream) (ns1 ns2 : List Text)
    → Lists ih1 dir1 ns1 none
    → Lists ih2 dir2 ns2 none
    → length ns1 < fuel
    → compare_loop fuel ih1 ih2 dir1 dir2 ≡ some (ok (same_list ns1 ns2))
unfolding compare_loop
compare_loop-same_list zero ih1 ih2 dir1 dir2 ns1 ns2 l1 l2 enough = absurd (omega arith)
compare_loop-same_list (suc fuel) ih1 ih2 dir1 dir2 ns1 ns2 (at_end _ d1 r1) (at_end _ d2 r2)
      enough =
    rw (compare_loop, r1, r2) refl
compare_loop-same_list (suc fuel) ih1 ih2 dir1 dir2 ns1 ns2 (at_end _ d1 r1)
      (at_name _ d2 b bs e2 r2 m2) enough =
    rw (compare_loop, r1, r2) refl
compare_loop-same_list (suc fuel) ih1 ih2 dir1 dir2 ns1 ns2 (at_name _ d1 a as_ e1 r1 m1)
      (at_end _ d2 r2) enough =
    rw (compare_loop, r1, r2) refl
compare_loop-same_list (suc fuel) ih1 ih2 dir1 dir2 ns1 ns2 (at_name _ d1 a as_ e1 r1 m1)
      (at_name _ d2 b bs e2 r2 m2) enough =
    elim (Bool-cases (same_name a b)) [
      | inl e ↦
          rw (compare_loop, r1, r2, e)
            (compare_loop-same_list fuel ih1 ih2 d1 d2 as_ bs m1 m2 (omega arith))
      | inr e ↦ rw (compare_loop, r1, r2, e) refl
    ]

-- The beginnings of some names, of up to 255 characters each.
abbrev pub beginnings : List Text → List Text
beginnings = map (take 255)

same_name-take : (a b : Text) → (same_name a b ≡ true) ↔ (take 255 a ≡ take 255 b)
same_name-take a b = (
  eq_of_text_eq (take 255 a) (take 255 b),
  λ e. ap (text_eq (take 255 a)) (sym e) ∙ text_eq_refl (take 255 a),
)

both_true : (x y : Bool) → (x && y) ≡ true → (x ≡ true) × (y ≡ true)
both_true true y h = (refl, h)
both_true false y h = cc

same_list-beginnings :
    (as_ bs : List Text) → (same_list as_ bs ≡ true) ↔ (beginnings as_ ≡ beginnings bs)
same_list-beginnings [] [] = (λ h. refl, λ h. refl)
same_list-beginnings [] (b ∷ bs) = (λ h. cc, λ h. cc)
same_list-beginnings (a ∷ as_) [] = (λ h. cc, λ h. cc)
same_list-beginnings (a ∷ as_) (b ∷ bs) =
    let (to, from) = same_name-take a b in
    let (to_all, from_all) = same_list-beginnings as_ bs in
    (
      (λ h.
          let (x, y) = both_true (same_name a b) (same_list as_ bs) h in
          let p = to x in let q = to_all y in cc),
      (λ h.
          let p : take 255 a ≡ take 255 b = cc in
          let q : beginnings as_ ≡ beginnings bs = cc in rw (from p, from_all q) refl),
    )

is_same_view-equal :
    (d rhs : Directory)
    → (is_same_view d rhs ≡ true)
      ↔ ((d.directory_name ≡ rhs.directory_name) × (d.ignore_hidden ≡ rhs.ignore_hidden))
is_same_view-equal d rhs = (
  λ h.
      let same : text_eq d.directory_name rhs.directory_name ≡ true = ground (arith, h) in
      let view : d.ignore_hidden ≡ rhs.ignore_hidden = ground (arith, h) in
      (eq_of_text_eq d.directory_name rhs.directory_name same, view),
  λ (p, q).
      let same : text_eq d.directory_name rhs.directory_name ≡ true =
        ap (text_eq d.directory_name) (sym p) ∙ text_eq_refl d.directory_name in
      rw (same, q) (ground arith),
)

module _ (stat : Text → Bool → Sys ℕ) (opendir : Text → Sys DirStream) (d rhs : Directory)
    (dir1 dir2 : DirStream) (there1 : is_directory stat d.directory_name true ≡ ok true)
    (there2 : is_directory stat rhs.directory_name true ≡ ok true)
    (found1 : opendir d.directory_name ≡ done dir1)
    (found2 : opendir rhs.directory_name ≡ done dir2) where
  same_entries-same_list :
      (fuel : ℕ) (same_object : Bool)
      → failure dir1 ≡ none
      → failure dir2 ≡ none
      → length (names d.ignore_hidden dir1) < fuel
      → same_entries stat opendir fuel same_object d rhs
        ≡ some (
            ok (
              (same_object || is_same_view d rhs)
              || same_list (names d.ignore_hidden dir1) (names rhs.ignore_hidden dir2)))
  unfolding same_entries compare_opened
  same_entries-same_list fuel same_object fine1 fine2 enough =
      let lists1 : Lists d.ignore_hidden dir1 (names d.ignore_hidden dir1) none =
        rw⁻¹ fine1 (Lists-names d.ignore_hidden dir1) in
      let lists2 : Lists rhs.ignore_hidden dir2 (names rhs.ignore_hidden dir2) none =
        rw⁻¹ fine2 (Lists-names rhs.ignore_hidden dir2) in
      elim (Bool-cases (same_object || is_same_view d rhs)) [
        | inl e ↦ rw (same_entries, there1, there2, e) refl
        | inr e ↦
            rw (same_entries, there1, there2, e, compare_opened, found1, found2)
              (compare_loop-same_list fuel d.ignore_hidden rhs.ignore_hidden dir1 dir2
                (names d.ignore_hidden dir1) (names rhs.ignore_hidden dir2) lists1 lists2 enough)
      ]

  -- Two directories that are there and can be read to their ends are equal for `operator==` exactly
  -- if they are the same object, or have the same path and both ignore hidden files or both do not,
  -- or have the same entries in the same order, up to 255 characters of each; the loop ends with more
  -- fuel than the first has entries.
  pub same_entries-beginnings :
      (fuel : ℕ) (same_object : Bool)
      → failure dir1 ≡ none
      → failure dir2 ≡ none
      → length (names d.ignore_hidden dir1) < fuel
      → (b : Bool) × (same_entries stat opendir fuel same_object d rhs ≡ some (ok b))
        × ((b ≡ true) ↔ (
            (same_object ≡ true)
            ⊎ ((d.directory_name ≡ rhs.directory_name) × (d.ignore_hidden ≡ rhs.ignore_hidden))
            ⊎ (beginnings (names d.ignore_hidden dir1)
                ≡ beginnings (names rhs.ignore_hidden dir2))))
  same_entries-beginnings fuel same_object fine1 fine2 enough =
      let (to_view, from_view) = is_same_view-equal d rhs in
      let (to_list, from_list) =
        same_list-beginnings (names d.ignore_hidden dir1) (names rhs.ignore_hidden dir2) in
      (
        _,
        same_entries-same_list fuel same_object fine1 fine2 enough,
        (
          λ h. elim (Bool-cases same_object) [
            | inl o ↦ inl o
            | inr o ↦ elim (Bool-cases (is_same_view d rhs)) [
              | inl v ↦ inr (inl (to_view v))
              | inr v ↦ inr (inr (to_list (ground (arith, h, o, v))))
            ]
          ],
          λ h. elim h [
            | inl o ↦ rw o refl
            | inr (inl v) ↦ rw (from_view v) (ground arith)
            | inr (inr l) ↦ rw (from_list l) (ground arith)
          ],
        ),
      )

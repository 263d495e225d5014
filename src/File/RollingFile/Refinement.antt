-- ===== src/File/RollingFile/Refinement.antt =====
-- The rolling file, with the files that it has written, against a log that is cut into files.
use mathlib.Core.List.{append_assoc, append-nil}
use mathlib.Core.Path.{subst}
use kssio.Prelude.{
  ℕ, zero, suc, ◌+◌, ◌^◌, ◌<◌, ◌≤◌, ◌≡◌, ◌==◌, Bool, none, some, List, [], ◌∷◌, ◌++◌, length,
  length-append, ltb, if◌then◌else◌, Text, ok, refl, arith, ap, sym, ◌∙◌, Bool-cases, inl, inr,
  get_or, All, concat, concat-append,
}
use kssio.Prelude.Int.{ℤ}
use kssio.File.RollingFile.{State, World, write, construct, next_file_name}
use kssio.File.RollingFile.History.{
  IsCalm, put, Log, Shows, files, place, add, add_all, write_all, contents, name_of, write-Shows,
  construct-idle, text_eq-name_of,
}

files-place :
    (maximum : ℕ) (done : List Text) (c : Text) → files (place maximum done c) ≡ done ++ c ∷ []
files-place maximum done c = ground arith

-- A text more at the end of the last file, which may be a new one.
get_or-new :
    (xs : List Text) (t : Text) (k : ℕ)
    → get_or (xs ++ t ∷ []) k [] ≡ get_or xs k [] ++ (if k == length xs then t else [])
get_or-new [] t zero = refl
get_or-new [] t (suc k) = ground arith
get_or-new (x ∷ xs) t zero = ground (arith, append-nil x)
get_or-new (x ∷ xs) t (suc k) = ground (arith, get_or-new xs t k)

get_or-longer :
    (xs : List Text) (c t : Text) (k : ℕ)
    → get_or (xs ++ (c ++ t) ∷ []) k []
      ≡ get_or (xs ++ c ∷ []) k [] ++ (if k == length xs then t else [])
get_or-longer [] c t zero = refl
get_or-longer [] c t (suc k) = ground arith
get_or-longer (x ∷ xs) c t zero = ground (arith, append-nil x)
get_or-longer (x ∷ xs) c t (suc k) = ground (arith, get_or-longer xs c t k)

get_or-files-add :
    (maximum : ℕ) (t : Text) (a : Log) (k : ℕ)
    → get_or (files (add maximum t a)) k []
      ≡ get_or (files a) k [] ++ (if k == length a.0 then t else [])
get_or-files-add maximum t (done, none) k = rw (files-place maximum done t) (get_or-new done t k)
get_or-files-add maximum t (done, some c) k =
    rw (files-place maximum done (c ++ t)) (get_or-longer done c t k)

length-add : (maximum : ℕ) (t : Text) (a : Log) → length (add maximum t a).0 ≤ length a.0 + 1
length-add maximum t (done, none) = ground (arith, length-append done (t ∷ []))
length-add maximum t (done, some c) = ground (arith, length-append done ((c ++ t) ∷ []))

concat-files-add :
    (maximum : ℕ) (t : Text) (a : Log) → concat (files (add maximum t a)) ≡ concat (files a) ++ t
concat-files-add maximum t (done, none) =
    rw (files-place maximum done t, concat-append done (t ∷ []), append-nil t) refl
concat-files-add maximum t (done, some c) =
    rw
      (
        files-place maximum done (c ++ t),
        concat-append done (c ∷ []),
        concat-append done ((c ++ t) ∷ []),
        append-nil c,
        append-nil (c ++ t),
        append_assoc (concat done) c t,
      )
      refl

-- Nothing is lost between two files, and nothing changes its place.
concat-files-add_all :
    (maximum : ℕ) (ts : List Text) (a : Log)
    → concat (files (add_all maximum ts a)) ≡ concat (files a) ++ concat ts
concat-files-add_all maximum [] a = sym (append-nil (concat (files a)))
concat-files-add_all maximum (t ∷ ts) a =
    concat-files-add_all maximum ts (add maximum t a)
    ∙ rw (concat-files-add maximum t a) (append_assoc (concat (files a)) t (concat ts))

-- A file that is complete is longer than the size, and the one that is not is within it.
abbrev pub IsCut : ℕ → Log → Type 0
IsCut maximum (done, none) = All (λ c. maximum < length c) done
IsCut maximum (done, some c) = All (λ d. maximum < length d) done × length c ≤ maximum

run_cons :
    (w : World) (t : Text) (ts : List Text) (s : State) (trace : List (Text × Text))
    → (write w (put t) 0 s).0 ≡ ok tt
    → let s' = (write w (put t) 0 s).1 in
      (write_all w ts s').0 ≡ ok trace
      → write_all w (t ∷ ts) s ≡ (ok ((s'.current_file_name, t) ∷ trace), (write_all w ts s').1)
unfolding write_all
run_cons w t ts s trace r r' = ground (arith, r, r')

All-snoc : (P : Text → Type 0) (xs : List Text) (x : Text) → All P xs → P x → All P (xs ++ x ∷ [])
All-snoc P [] x a p = (p, tt)
All-snoc P (y ∷ xs) x (q, a) p = (q, All-snoc P xs x a p)

place-IsCut :
    (maximum : ℕ) (done : List Text) (c : Text)
    → All (λ d. maximum < length d) done
    → IsCut maximum (place maximum done c)
place-IsCut maximum done c a = elim (Bool-cases (ltb maximum (length c))) [
  | inl e ↦ rw e (All-snoc (λ d. maximum < length d) done c a (ground arith))
  | inr e ↦ rw e (a, ground arith)
]

add_all-IsCut :
    (maximum : ℕ) (ts : List Text) (a : Log)
    → IsCut maximum a
    → IsCut maximum (add_all maximum ts a)
add_all-IsCut maximum [] a cut = cut
add_all-IsCut maximum (t ∷ ts) (done, none) cut =
    add_all-IsCut maximum ts (place maximum done t) (place-IsCut maximum done t cut)
add_all-IsCut maximum (t ∷ ts) (done, some c) cut =
    add_all-IsCut maximum ts (place maximum done (c ++ t)) (place-IsCut maximum done (c ++ t) cut.0)

module _ (w : World) (calm : IsCalm w) (l : Bool) where
  write_all-Shows :
      (ts : List Text) (a : Log) (s : State)
      → Shows w calm l a s
      → length a.0 + length ts < 2 ^ 32
      → let (r, s') = write_all w ts s in
        (trace : List (Text × Text)) × (r ≡ ok trace)
        × Shows w calm l (add_all w.maximum_file_size ts a) s'
        × ((k : ℕ)
            → get_or (files (add_all w.maximum_file_size ts a)) k []
              ≡ get_or (files a) k [] ++ contents (name_of w calm l k) trace)
  unfolding write_all
  write_all-Shows [] a s shows small =
      ([], refl, shows, λ k. sym (append-nil (get_or (files a) k [])))
  write_all-Shows (t ∷ ts) a s shows small =
      let m = w.maximum_file_size in
      let (r, shows', named) = write-Shows w calm l t a s shows (omega (arith, small)) in
      let s' = (write w (put t) 0 s).1 in
      let (trace, r', shows'', same) =
        write_all-Shows ts (add m t a) s' shows' (omega (arith, small, length-add m t a)) in
      let run = run_cons w t ts s trace r r' in
      (
        (s'.current_file_name, t) ∷ trace,
        ap (λ z. z.0) run,
        subst (λ z. Shows w calm l (add_all m ts (add m t a)) z.1) (sym run) shows'',
        λ k.
            same k
            ∙ rw
                (
                  named,
                  text_eq-name_of w calm l k (length a.0),
                  get_or-files-add m t a k,
                  append_assoc (get_or (files a) k []) (if k == length a.0 then t else [])
                      (contents (name_of w calm l k) trace),
                )
                refl,
      )

  -- A new rolling file that writes some texts, fewer than its counter has values, on a system that
  -- opens every file and with a listener that does nothing: all the calls return, and each file of
  -- the sequence ends with just the text that the log, cut into files by the size, has for it.
  -- No part of the log is lost or moved, every file but the last is longer than the size, and the
  -- last, if it is still open, is not.
  pub write_all-files :
      (ts : List Text) (file_wrap_size : ℤ) (s : State)
      → construct file_wrap_size w.prefix ≡ ok s
      → length ts < 2 ^ 32
      → let a = add_all w.maximum_file_size ts ([], none) in
        (trace : List (Text × Text)) × ((write_all w ts (record s { has_listener = l })).0
          ≡ ok trace)
        × ((k : ℕ) → contents (next_file_name w.prefix k w.suffix) trace ≡ get_or (files a) k [])
        × (concat (files a) ≡ concat ts)
        × IsCut w.maximum_file_size a
  write_all-files ts file_wrap_size s e small =
      let m = w.maximum_file_size in
      let s' = record s { has_listener = l } in
      let (trace, r, shows, same) =
        write_all-Shows ts ([], none) s' ([], construct-idle w calm l file_wrap_size s e)
          (omega (arith, small)) in
      (
        trace,
        r,
        λ k. sym (same k),
        concat-files-add_all m ts ([], none),
        add_all-IsCut m ts ([], none) tt,
      )

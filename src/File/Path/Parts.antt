-- ===== src/File/Path/Parts.antt =====
-- A path is its directory followed by its base name.
use native.Mathlib.Numerals.{add-one}
use kssio.Prelude.{
  take-append-drop, sym, zero, suc, ap, ◌∙◌, inr, inl, Option-cases, ◌⊎◌, arith, ◌∷◌, ◌++◌, ◌≡◌,
  Lacks, ℕ,
}
use kssio.File.Path.{
  take, suc, codes, drop, [], ◌∷◌, some, none, Text, find_last_of, basename, dirname,
}

find_last_of-none : (c : ℕ) (s : Text) → find_last_of c s ≡ none → Lacks c s
unfolding find_last_of
find_last_of-none c [] h = tt
find_last_of-none c (d ∷ s) h = ground (arith, find_last_of-none c s)

-- The character stands at the position, and does not occur behind it.
find_last_of-some :
    (c : ℕ) (s : Text) (i : ℕ)
    → find_last_of c s ≡ some i
    → Lacks c (drop (suc i) s) × (take (suc i) s ≡ take i s ++ c ∷ [])
unfolding find_last_of
find_last_of-some c [] i h = cc
find_last_of-some c (d ∷ s) zero h = elim (Option-cases (find_last_of c s)) [
  | inl e ↦ (find_last_of-none c s e, ground arith)
  | inr (j, e) ↦ ground arith
]
find_last_of-some c (d ∷ s) (suc i) h = elim (Option-cases (find_last_of c s)) [
  | inl e ↦ ground arith
  | inr (j, e) ↦
      let same : j ≡ i = ground arith in
      let (l, t) = find_last_of-some c s i (e ∙ ap some same) in (l, ap (λ r. d ∷ r) t)
]

basename-some : (p : Text) (i : ℕ) → find_last_of b'/' p ≡ some i → basename p ≡ drop (suc i) p
unfolding basename
basename-some p i e = rw (e, basename, add-one)

dirname-some :
    (p : Text) (i : ℕ)
    → find_last_of b'/' p ≡ some i
    → take (suc i) p ≡ take i p ++ b'/' ∷ []
    → dirname p ≡ take (suc i) p
unfolding dirname
dirname-some p zero e t = rw (e, dirname) (sym t)
dirname-some p (suc i) e t = rw (e, dirname, add-one) (ground arith)

-- The base name has no slash. If the path has one, its directory followed by its base name is the
-- path, and the directory ends in a slash; if it has none, the base name is the path and the
-- directory is "./".
pub dirname-basename :
    (path : Text)
    → Lacks b'/' (basename path)
      × (((dirname path ++ basename path ≡ path) × ((t : Text) × (dirname path ≡ t ++ b'/' ∷ [])))
          ⊎ (Lacks b'/' path × (basename path ≡ path) × (dirname path ≡ codes "./")))
unfolding basename dirname
dirname-basename path = elim (Option-cases (find_last_of b'/' path)) [
  | inl e ↦
      let b : basename path ≡ path = rw (e, basename) in
      let d : dirname path ≡ codes "./" = rw (e, dirname) in
      let l = find_last_of-none b'/' path e in (rw b l, inr (l, b, d))
  | inr (i, e) ↦
      let (l, t) = find_last_of-some b'/' path i e in
      let b = basename-some path i e in
      let d = dirname-some path i e t in
      (rw b l, inl (rw (b, d) (take-append-drop (suc i) path), (take i path, d ∙ t)))
]

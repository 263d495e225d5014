-- ===== src/File/Process/Lines.antt =====
-- The lines that LineByLine hands to its function.
use kssio.Prelude.{
  Result-cases, inr, Bool-cases, inl, Lacks, ◌⊎◌, ◌≢◌, ◌++◌, All, refl, zero, ◌==◌, arith, ◌≤◌, ◌≡◌,
  ◌<◌, if◌then◌else◌, ◌∷◌, ℕ,
}
use kssio.File.Process.{
  suc, [], thrown, some, ok, ◌∷◌, length, Result, Text, List, span, getline, line_by_line,
}

-- A character before the first line.
abbrev cons_head : ℕ → List Text → List Text
cons_head c [] = (c ∷ []) ∷ []
cons_head c (l ∷ ls) = (c ∷ l) ∷ ls

-- The lines of a text: each ends at a delimiter, the last one also at the end of the text.
abbrev pub lines : ℕ → Text → List Text
lines delim [] = []
lines delim (c ∷ s) = if c == delim then [] ∷ lines delim s else cons_head c (lines delim s)

lines-span :
    (delim c : ℕ) (s : Text)
    → lines delim (c ∷ s) ≡ (span delim (c ∷ s)).0 ∷ lines delim (span delim (c ∷ s)).1
unfolding span
lines-span delim c [] = ground arith
lines-span delim c (d ∷ s) = ground (arith, lines-span delim d s)

length-span : (delim : ℕ) (s : Text) → length (span delim s).1 ≤ length s
unfolding span
length-span delim [] = omega arith
length-span delim (c ∷ s) = ground (arith, length-span delim s)

length-span_cons : (delim c : ℕ) (s : Text) → length (span delim (c ∷ s)).1 ≤ length s
unfolding span
length-span_cons delim c s = ground (arith, length-span delim s)

module _ {W : Type 0} (fn : Text → W → Result W) where
  -- One call for each line, as long as none throws.
  abbrev pub for_each : List Text → W → Result W
  for_each [] w = ok w
  for_each (l ∷ ls) w = elim (fn l w) [ thrown e ↦ thrown e | ok w' ↦ for_each ls w' ]

  -- With as much fuel as there are characters, and one more, the loop ends, and it has called the
  -- function once for each line in order, until one call threw.
  pub line_by_line-for_each :
      (fuel delim : ℕ) (s : Text) (w : W)
      → length s < fuel
      → line_by_line fuel delim fn s w ≡ some (for_each (lines delim s) w)
  unfolding line_by_line getline
  line_by_line-for_each zero delim s w h = absurd (omega arith)
  line_by_line-for_each (suc fuel) delim [] w h = refl
  line_by_line-for_each (suc fuel) delim (c ∷ s) w h =
      rw (lines-span delim c s) (elim (Result-cases (fn (span delim (c ∷ s)).0 w)) [
        | inl (w', e) ↦ rw (
          e,
          for_each,
          line_by_line-for_each fuel delim (span delim (c ∷ s)).1 w'
              (omega (arith, length-span_cons delim c s)),
        )
        | inr (x, e) ↦ rw (e, for_each)
      ])

abbrev pub glue : ℕ → List Text → Text
glue delim [] = []
glue delim (l ∷ ls) = l ++ (delim ∷ glue delim ls)

glue-cons_head :
    (delim c d : ℕ) (s : Text)
    → glue delim (cons_head c (lines delim (d ∷ s))) ≡ c ∷ glue delim (lines delim (d ∷ s))
glue-cons_head delim c d s = rw (lines-span delim d s)

cons_head-Lacks :
    (delim c : ℕ) (ls : List Text)
    → c ≢ delim
    → All (Lacks delim) ls
    → All (Lacks delim) (cons_head c ls)
cons_head-Lacks delim c [] h a = ((h, tt), tt)
cons_head-Lacks delim c (l ∷ ls) h a = ((h, a.0), a.1)

lines-Lacks : (delim : ℕ) (s : Text) → All (Lacks delim) (lines delim s)
lines-Lacks delim [] = tt
lines-Lacks delim (c ∷ s) = elim (Bool-cases (c == delim)) [
  | inl e ↦ rw e (tt, lines-Lacks delim s)
  | inr e ↦ rw e (cons_head-Lacks delim c (lines delim s) (ground arith) (lines-Lacks delim s))
]

glue-lines :
    (delim : ℕ) (s : Text)
    → (glue delim (lines delim s) ≡ s) ⊎ (glue delim (lines delim s) ≡ s ++ delim ∷ [])
glue-lines delim [] = inl refl
glue-lines delim (c ∷ []) = ground arith
glue-lines delim (c ∷ d ∷ s) = ground (arith, glue-lines delim (d ∷ s), glue-cons_head delim c d s)

-- No line holds the delimiter, and the lines with a delimiter behind each are the text, or the text
-- with one delimiter behind it. So LineByLine loses no character of a text, and joins no lines.
pub lines_spell :
    (delim : ℕ) (s : Text)
    → All (Lacks delim) (lines delim s)
      × ((glue delim (lines delim s) ≡ s) ⊎ (glue delim (lines delim s) ≡ s ++ delim ∷ []))
lines_spell delim s = (lines-Lacks delim s, glue-lines delim s)

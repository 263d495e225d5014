-- ===== src/Stream/Decode.antt =====
-- A reader of escaped text, by which the escapes of both writers are judged: `read_one` gives the
-- first character that a text stands for, and how many characters it takes.
use kssio.Prelude.{
  append_assoc, ap, ◌∙◌, arith, none, ◌<◌, All, some, refl, ◌≡◌, ◌++◌, length, [], ◌∷◌, drop,
  Option, Text, ℕ, zero, suc,
}

module _ (read_one : Text → Option (ℕ × ℕ)) where
  -- The characters up to the first place where none can be read, and what is left there.
  unfoldable pub decode : ℕ → Text → Text × Text
  decode zero s = ([], s)
  decode (suc fuel) s = elim (read_one s) [
    | none ↦ ([], s)
    | some (c, k) ↦ (let r = decode fuel (drop k s) in (c ∷ r.0, r.1))
  ]

-- Every character with its escape.
abbrev pub escape_all : (ℕ → Text) → Text → Text
escape_all escape [] = []
escape_all escape (c ∷ s) = escape c ++ escape_all escape s

pub drop-append : (s t : Text) → drop (length s) (s ++ t) ≡ t
drop-append [] t = refl
drop-append (c ∷ s) t = drop-append s t

decode-some :
    (read_one : Text → Option (ℕ × ℕ)) (fuel : ℕ) (u : Text) (c k : ℕ)
    → read_one u ≡ some (c, k)
    → decode read_one (suc fuel) u
      ≡ (c ∷ (decode read_one fuel (drop k u)).0, (decode read_one fuel (drop k u)).1)
unfolding decode
decode-some read_one fuel u c k e = rw (e, decode)

-- If each character is read back from its escape, whatever follows, then so is each text, up to a
-- place where nothing can be read.
pub decode-escape_all :
    (read_one : Text → Option (ℕ × ℕ)) (escape : ℕ → Text) (P : ℕ → Type 0)
    → ((c : ℕ) (t : Text) → P c → read_one (escape c ++ t) ≡ some (c, length (escape c)))
    → (fuel : ℕ) (s t : Text) → All P s
    → length s < fuel
    → read_one t ≡ none
    → decode read_one fuel (escape_all escape s ++ t) ≡ (s, t)
unfolding decode
decode-escape_all read_one escape P good zero s t a h e = absurd (omega arith)
decode-escape_all read_one escape P good (suc fuel) [] t a h e = rw (e, decode)
decode-escape_all read_one escape P good (suc fuel) (c ∷ s) t a h e =
    let rest = escape_all escape s ++ t in
    let ih = decode-escape_all read_one escape P good fuel s t a.1 (omega arith) e in
    ap (decode read_one (suc fuel)) (append_assoc (escape c) (escape_all escape s) t)
    ∙ decode-some read_one fuel (escape c ++ rest) c (length (escape c)) (good c rest a.0)
    ∙ rw (drop-append, ih)

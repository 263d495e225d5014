-- ===== src/File/RollingFile/History.antt =====
-- A log that is written to a rolling file, piece by piece.
use kssio.Prelude.{
  ℕ, ◌+◌, ◌^◌, ◌<◌, ◌≡◌, Bool, true, false, Option, none, some, List, [], ◌∷◌, ◌++◌, length, ltb,
  if◌then◌else◌, Text, ok, refl, arith, ap, ◌∙◌, Bool-cases, inl, inr, text_eq, sym, length-append,
  ◌==◌, ==_iff, eq_of_text_eq, text_eq_refl,
}
use kssio.Prelude.Int.{ℤ}
use kssio.Prelude.Effect.{◌>>=◌, ◌>>◌, pure, gets, after_ok}
use kssio.File.RollingFile.Names.{next_file_name_injective}
use kssio.File.RollingFile.{
  Stream, State, World, Call, M, write, open_next, write_current, call_and_end, end_of_write,
  is_usable, is_over, construct, do_close, next_file_name,
}

-- A function that writes a text.
abbrev pub put : Text → Stream → Stream × Call
put t strm = (record strm { position = strm.position + length t }, none)

-- A listener that does nothing, and a system on which every file can be opened.
pub record IsCalm (w : World) : Type 0 where
  pub opening : (name : Text) → w.listener.will_open name ≡ none
  pub opened : (name : Text) (strm : Stream) → w.listener.did_open name strm ≡ (strm, none)
  pub closing : (name : Text) (strm : Stream) → w.listener.will_close name strm ≡ (strm, none)
  pub closed : (name : Text) → w.listener.did_close name ≡ none
  pub asked : (name : Text) → (b : Bool) × (w.is_file name ≡ ok b)
  pub has_space : (name : Text) → w.open_file name ≡ none

abbrev file_at : ℕ → Stream
file_at n = record { alive = true; is_open = true; bad = false; fail = false; position = n }

-- The object with no current file, and with one in which some bytes are.
abbrev idle : ℕ → Text → Bool → State
idle i name l = record {
  next_file_index = i;
  has_permanently_closed = false;
  current_file_name = name;
  current_stream = none;
  has_listener = l;
}

abbrev busy : ℕ → ℕ → Text → Bool → State
busy i p name l = record (idle (i + 1) name l) { current_stream = some (file_at p) }

-- A log as the listener of the files sees it: the contents of the files that are complete, and of
-- the one that is still written to.
abbrev pub Log : Type 0
Log = List Text × Option Text

abbrev pub files : Log → List Text
files (done, none) = done
files (done, some c) = done ++ c ∷ []

-- A file is complete when it is longer than the size.
abbrev pub place : ℕ → List Text → Text → Log
place maximum done c = if ltb maximum (length c) then (done ++ c ∷ [], none) else (done, some c)

abbrev pub add : ℕ → Text → Log → Log
add maximum t (done, none) = place maximum done t
add maximum t (done, some c) = place maximum done (c ++ t)

abbrev pub add_all : ℕ → List Text → Log → Log
add_all maximum [] a = a
add_all maximum (t ∷ ts) a = add_all maximum ts (add maximum t a)

-- One `write` for each text, and the files that they went to.
unfoldable pub write_all : World → List Text → M (List (Text × Text))
write_all w [] = pure []
write_all w (t ∷ ts) = do
  write w (put t) 0
  name ← gets (λ s. s.current_file_name)
  rest ← write_all w ts
  pure ((name, t) ∷ rest)

-- What the writes have put into a file.
abbrev pub contents : Text → List (Text × Text) → Text
contents name [] = []
contents name ((n, t) ∷ rest) = (if text_eq name n then t else []) ++ contents name rest

module _ (w : World) (calm : IsCalm w) (l : Bool) where
  abbrev pub name_of : ℕ → Text
  name_of i = next_file_name w.prefix i w.suffix

  -- The object behind a piece that ends at a position of the file with an index.
  abbrev behind : ℕ → ℕ → State
  behind i p =
      if ltb w.maximum_file_size p then idle (i + 1) (name_of i) l else busy i p (name_of i) l

  end_lem : (i p : ℕ) → end_of_write w 0 (file_at p) (busy i p (name_of i) l) ≡ (ok tt, behind i p)
  unfolding end_of_write do_close is_usable is_over
  end_lem i p = ground (arith, calm.closing (name_of i) (file_at p), calm.closed (name_of i))

  busy_end :
      (t : Text) (i p : ℕ)
      → write w (put t) 0 (busy i p (name_of i) l) ≡ (ok tt, behind i (p + length t))
  unfolding write write_current call_and_end is_usable
  busy_end t i p = end_lem i (p + length t)

  open_lem :
      (i : ℕ) (name : Text)
      → i + 1 < 2 ^ 32
      → open_next w (idle i name l) ≡ (ok tt, busy i 0 (name_of i) l)
  unfolding open_next
  open_lem i name small = ground (
    arith,
    (calm.asked (name_of i)).1,
    calm.opening (name_of i),
    calm.has_space (name_of i),
    calm.opened (name_of i) (file_at 0),
  )

  idle_end :
      (t : Text) (i : ℕ) (name : Text)
      → i + 1 < 2 ^ 32
      → write w (put t) 0 (idle i name l) ≡ (ok tt, behind i (length t))
  unfolding write write_current call_and_end is_usable
  idle_end t i name small =
      let from_0 : 0 + length t ≡ length t = omega arith in
      after_ok (open_next w) (λ u. write_current w (put t) 0) (open_lem i name small)
      ∙ end_lem i (0 + length t)
      ∙ ap (λ n. (ok tt, behind i n)) from_0

  -- The object shows the log: its index counts the files, its position the bytes.
  abbrev pub Shows : Log → State → Type 0
  Shows (done, none) s = (name : Text) × (s ≡ idle (length done) name l)
  Shows (done, some c) s = s ≡ busy (length done) (length c) (name_of (length done)) l

  behind-Shows :
      (done : List Text) (c : Text)
      → Shows (place w.maximum_file_size done c) (behind (length done) (length c))
  behind-Shows done c = elim (Bool-cases (ltb w.maximum_file_size (length c))) [
    | inl e ↦ rw e (
      name_of (length done),
      ap (λ n. idle n (name_of (length done)) l) (sym (length-append done (c ∷ []))),
    )
    | inr e ↦ rw e refl
  ]

  ends-Shows :
      (t : Text) (done : List Text) (c : Text) (s : State)
      → write w (put t) 0 s ≡ (ok tt, behind (length done) (length c))
      → let (r, s') = write w (put t) 0 s in
        (r ≡ ok tt)
        × Shows (place w.maximum_file_size done c) s'
        × (s'.current_file_name ≡ name_of (length done))
  ends-Shows t done c s e = rw e (refl, behind-Shows done c, ground arith)

  pub write-Shows :
      (t : Text) (a : Log) (s : State)
      → Shows a s
      → length a.0 + 1 < 2 ^ 32
      → let (r, s') = write w (put t) 0 s in
        (r ≡ ok tt)
        × Shows (add w.maximum_file_size t a) s'
        × (s'.current_file_name ≡ name_of (length a.0))
  write-Shows t (done, none) s (name, e) small =
      ends-Shows t done t s (rw e (idle_end t (length done) name small))
  write-Shows t (done, some c) s e small =
      ends-Shows t done (c ++ t) s (rw (e, length-append c t) (busy_end t (length done) (length c)))

  -- Two indices have the same name where they are the same.
  pub text_eq-name_of : (i j : ℕ) → text_eq (name_of i) (name_of j) ≡ (i == j)
  text_eq-name_of i j = elim (Bool-cases (i == j)) [
    | inl d ↦ let e : i ≡ j = ground (arith, ==_iff i j) in rw d (rw e (text_eq_refl (name_of j)))
    | inr d ↦ elim (Bool-cases (text_eq (name_of i) (name_of j))) [
      | inl e ↦
          let same = eq_of_text_eq (name_of i) (name_of j) e in
          ground (arith, next_file_name_injective w.prefix i j w.suffix same)
      | inr e ↦ rw (e, d) refl
    ]
  ]

  pub construct-idle :
      (file_wrap_size : ℤ) (s : State)
      → construct file_wrap_size w.prefix ≡ ok s
      → record s { has_listener = l } ≡ idle 0 [] l
  unfolding construct
  construct-idle file_wrap_size s e = ground arith

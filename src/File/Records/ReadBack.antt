-- ===== src/File/Records/ReadBack.antt =====
-- What is written to a file of records is read back.
use kssio.Prelude.{
  concat, ℕ, zero, suc, ◌+◌, ◌-◌, ◌*◌, ◌^◌, ◌<◌, ◌≤◌, ◌≡◌, ◌==◌, true, length, get_or,
  if◌then◌else◌, List, [], ◌∷◌, Text, ok, refl, arith, ◌∙◌,
}
use kssio.Prelude.Effect.{after_ok, ◌>>◌}
use kssio.File.CFile.{CFile}
use kssio.File.Binary.{reading, writing, is_open}
use kssio.File.Binary.Write.{IsReceiving}
use kssio.File.Binary.Seek.{placed, is_open-flags, placed-IsReady}
use kssio.File.Records.{read_at, write_at}
use kssio.File.Records.Concat.{IsSized, put}
use kssio.File.Records.Array.{IsArray, read_at-get_or, write_at-put}

put-IsSized :
    (size i : ℕ) (rs : List Text) (r : Text)
    → IsSized size rs
    → length r ≡ size
    → IsSized size (put rs i r)
put-IsSized size zero [] r sized full = (full, tt)
put-IsSized size zero (s ∷ rs) r sized full = (full, sized.1)
put-IsSized size (suc i) [] r sized full = (full, tt)
put-IsSized size (suc i) (s ∷ rs) r sized full = (sized.0, put-IsSized size i rs r sized.1 full)

get_or-put :
    (i j : ℕ) (rs : List Text) (r : Text)
    → i ≤ length rs
    → get_or (put rs i r) j [] ≡ (if j == i then r else get_or rs j [])
get_or-put zero zero [] r h = refl
get_or-put zero zero (s ∷ rs) r h = refl
get_or-put zero (suc j) [] r h = ground arith
get_or-put zero (suc j) (s ∷ rs) r h = ground arith
get_or-put (suc i) j [] r h = absurd (omega arith)
get_or-put (suc i) zero (s ∷ rs) r h = ground arith
get_or-put (suc i) (suc j) (s ∷ rs) r h = ground (arith, get_or-put i j rs r (omega arith))

length-put : (i : ℕ) (rs : List Text) (r : Text) → length rs ≤ length (put rs i r)
length-put zero [] r = omega arith
length-put zero (s ∷ rs) r = omega arith
length-put (suc i) [] r = omega arith
length-put (suc i) (s ∷ rs) r = omega (arith, length-put i rs r)

length_at-put : (i : ℕ) (rs : List Text) (r : Text) → i ≤ length rs → i < length (put rs i r)
length_at-put zero [] r h = omega arith
length_at-put zero (s ∷ rs) r h = omega arith
length_at-put (suc i) [] r h = absurd (omega arith)
length_at-put (suc i) (s ∷ rs) r h = omega (arith, length_at-put i rs r (omega arith))

-- A stream that is open for both, with space for some bytes.
pub record IsReadWrite (space : ℕ) (fp : CFile) : Type 0 where
  pub opened : is_open reading fp ≡ true
  pub receiving : IsReceiving space fp

module _ (size : ℕ) where
  -- The stream after a record was written by its number.
  abbrev pub stored : List Text → ℕ → Text → CFile → CFile
  stored rs i r fp = record (placed (i * size + size) fp) {
    content = concat (put rs i r);
    room = fp.room - size;
  }

  pub read-IsReadWrite :
      (space n : ℕ) (fp : CFile) → IsReadWrite space fp → IsReadWrite space (placed n fp)
  read-IsReadWrite space n fp both = record {
    opened = is_open-flags reading (placed n fp) fp refl ∙ both.opened;
    receiving = record {
      ready =
          placed-IsReady n fp both.receiving.ready.opened both.receiving.ready.has_position
            both.receiving.ready.without_error;
      writable = both.receiving.writable;
      at_position = both.receiving.at_position;
      enough_room = both.receiving.enough_room;
    };
  }

  pub placed-IsArray :
      (rs : List Text) (n : ℕ) (fp : CFile) → IsArray size rs fp → IsArray size rs (placed n fp)
  placed-IsArray rs n fp array = record {
    has_size = array.has_size;
    sized = array.sized;
    whole = array.whole;
    has_position = array.has_position;
    without_error = array.without_error;
  }

  pub stored-IsReadWrite :
      (space : ℕ) (rs : List Text) (i : ℕ) (r : Text) (fp : CFile)
      → IsReadWrite (size + space) fp
      → IsReadWrite space (stored rs i r fp)
  stored-IsReadWrite space rs i r fp both = record {
    opened = is_open-flags reading (stored rs i r fp) fp refl ∙ both.opened;
    receiving = record {
      ready = record {
        opened = is_open-flags writing (stored rs i r fp) fp refl ∙ both.receiving.ready.opened;
        has_position = both.receiving.ready.has_position;
        before_end = refl;
        without_error = both.receiving.ready.without_error;
      };
      writable = both.receiving.writable;
      at_position = both.receiving.at_position;
      enough_room = omega (arith, both.receiving.enough_room);
    };
  }

  pub stored-IsArray :
      (rs : List Text) (i : ℕ) (r : Text) (fp : CFile)
      → IsArray size rs fp
      → length r ≡ size
      → IsArray size (put rs i r) (stored rs i r fp)
  stored-IsArray rs i r fp array full = record {
    has_size = array.has_size;
    sized = put-IsSized size i rs r array.sized full;
    whole = refl;
    has_position = array.has_position;
    without_error = array.without_error;
  }

  -- In a file of records that is open for both, a record that is written by its number is what is
  -- read under that number, and any other record is what it was.
  read_at-write_at :
      (rs : List Text) (i j : ℕ) (r : Text) (fp : CFile)
      → IsArray size rs fp
      → IsReadWrite size fp
      → length r ≡ size
      → i ≤ length rs
      → i * size < 2 ^ 63
      → j < length (put rs i r)
      → j * size < 2 ^ 63
      → (write_at size r i >> read_at size j) fp
        ≡ (ok (if j == i then r else get_or rs j []), placed (j * size + size) (stored rs i r fp))
  read_at-write_at rs i j r fp array both full h small h' small' =
      let fp' = stored rs i r fp in
      after_ok (write_at size r i) (λ _. read_at size j)
        (write_at-put size rs i fp array r full small h both.receiving)
      ∙ read_at-get_or size (put rs i r) j fp' (stored-IsArray rs i r fp array full) small'
          (is_open-flags reading fp' fp refl ∙ both.opened) h'
      ∙ rw (get_or-put i j rs r h) refl

-- ===== src/Stream/Iterator/Contents.antt =====
-- A loop from the beginning to the end visits what the stream holds.
use kssio.Prelude.{
  refl, arith, ◌<◌, length, Result-cases, inl, inr, ◌+◌, ℕ, zero, suc, ◌≡◌, true, false, Option,
  none, some, List, [], ◌∷◌, if◌then◌else◌, eof, Result, ok, thrown, ◌>>=◌,
}
use kssio.Stream.Iterator.{InputStream, InputIterator, end_iterator, increment, begin, equals}

module _ {S T : Type 0} (class : InputStream S T) where
  -- What a stream holds: it tells its end by `eof`, or `operator>>` throws Eof there.
  pub data Holds : S → List T → Type 0 where
    finished : (s : S) → class.at_eof s ≡ ok true → Holds s []
    found_end :
        (s s' : S) → class.at_eof s ≡ ok false → class.next_value s ≡ (thrown eof, s') → Holds s []
    holds :
        (s s' : S) (t : T) (ts : List T)
        → class.at_eof s ≡ ok false
        → class.next_value s ≡ (ok t, s')
        → Holds s' ts
        → Holds s (t ∷ ts)

  module _ (default : T) {W : Type 0} (fn : T → W → Result W) where
    -- `for (; it != end; ++it) { fn(*it); }`, on fuel.
    loop : ℕ → InputIterator T → S → W → Option (Result W)
    loop zero it s w = none
    loop (suc fuel) it s w =
        if equals class default it (end_iterator class default)
        then some (ok w)
        else elim (fn it.value w) [
          | thrown e ↦ some (thrown e)
          | ok w' ↦ elim (increment class default it s) [
            | thrown e ↦ some (thrown e)
            | ok r ↦ loop fuel r.0 r.1 w'
          ]
        ]

    -- The loop with its beginning.
    pub run_range : ℕ → ℕ → S → W → Option (Result W)
    unfolding loop
    run_range fuel address s w = elim (begin class default address s) [
      | thrown e ↦ some (thrown e)
      | ok r ↦ loop fuel r.0 r.1 w
    ]

    -- One call for each value, as long as none throws.
    abbrev pub for_each_value : List T → W → Result W
    for_each_value [] w = ok w
    for_each_value (t ∷ ts) w = fn t w >>= λ w'. for_each_value ts w'

    -- The loop on an iterator that has a value before the values that the stream still holds.
    loop-for_each_value :
        (fuel address : ℕ) (v : T) (s : S) (ts : List T) (w : W)
        → Holds s ts
        → length ts + 1 < fuel
        → loop fuel (record { stream = some address; value = v }) s w
          ≡ some (for_each_value (v ∷ ts) w)
    unfolding loop increment equals
    loop-for_each_value zero address v s ts w h enough = absurd (omega arith)
    loop-for_each_value (suc zero) address v s ts w h enough = absurd (omega arith)
    loop-for_each_value (suc (suc fuel)) address v s ts w (finished _ f) enough =
        elim (Result-cases (fn v w)) [ inl (w', e) ↦ rw (e, f) refl | inr (x, e) ↦ rw e refl ]
    loop-for_each_value (suc (suc fuel)) address v s ts w (found_end _ s' f r) enough =
        elim (Result-cases (fn v w)) [ inl (w', e) ↦ rw (e, f, r) refl | inr (x, e) ↦ rw e refl ]
    loop-for_each_value (suc (suc fuel)) address v s ts w (holds _ s' t later f r more) enough =
        elim (Result-cases (fn v w)) [
          | inl (w', e) ↦
              rw (e, f, r) (loop-for_each_value (suc fuel) address t s' later w' more (omega arith))
          | inr (x, e) ↦ rw e refl
        ]

    -- A loop over a range calls its function once for each value that the stream holds, in order,
    -- until a call throws; it ends, with as much fuel as there are values and two more, whether the
    -- stream tells its end before or only by throwing Eof.
    pub run_range-for_each_value :
        (fuel address : ℕ) (s : S) (ts : List T) (w : W)
        → Holds s ts
        → length ts + 1 < fuel
        → run_range fuel address s w ≡ some (for_each_value ts w)
    unfolding run_range begin increment equals
    run_range-for_each_value zero address s ts w h enough = absurd (omega arith)
    run_range-for_each_value (suc fuel) address s ts w (finished _ f) enough =
        rw (f, run_range) refl
    run_range-for_each_value (suc fuel) address s ts w (found_end _ s' f r) enough =
        rw (f, r, run_range) refl
    run_range-for_each_value (suc fuel) address s ts w (holds _ s' t later f r more) enough =
        rw (f, r, run_range)
          (loop-for_each_value (suc fuel) address t s' later w more (omega arith))

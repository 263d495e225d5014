-- ===== src/Stream/Iterator/Tests.antt =====
-- A concrete stream, which throws Eof behind its last value.
use kssio.Prelude.{
  ℕ, ◌≡◌, [], ◌∷◌, ◌++◌, List, false, some, Result, ok, thrown, eof, invalid_state, codes, refl,
  arith,
}
use kssio.Stream.Iterator.{InputStream, increment, end_iterator}
use kssio.Stream.Iterator.Contents.{
  Holds, holds, found_end, run_range, for_each_value, run_range-for_each_value,
}

abbrev take_one : List ℕ → Result ℕ × List ℕ
take_one [] = (thrown eof, [])
take_one (x ∷ xs) = (ok x, xs)

abbrev queue : InputStream (List ℕ) ℕ
queue = record { at_eof = λ s. ok false; next_value = take_one }

abbrev two : List ℕ
two = 4 ∷ 7 ∷ []

two_held : Holds queue two two
two_held =
    holds two (7 ∷ []) 4 (7 ∷ []) refl refl
      (holds (7 ∷ []) [] 7 [] refl refl (found_end [] [] refl refl))

abbrev collect : ℕ → List ℕ → Result (List ℕ)
collect x seen = ok (seen ++ x ∷ [])

run_range-for_each_value_example :
    run_range queue 0 collect 5 1 two [] ≡ some (for_each_value queue 0 collect two [])
run_range-for_each_value_example =
    run_range-for_each_value queue 0 collect 5 1 two two [] two_held (omega arith)

past_the_end :
    increment queue 0 (end_iterator queue 0) two
    ≡ thrown (invalid_state (codes "This iterator is already at the end state."))
unfolding increment
past_the_end = refl

-- ===== src/Stream/Iterator.antt =====
-- `InputIterator` of Sources/iterator.hpp. The stream that it reads is an interface: `eof` and
-- `operator>>` on a state. A pointer to a stream is its address, or none for the null pointer.
pub mod Contents
mod Tests
use kssio.Prelude.{
  ℕ, Bool, true, false, not, Option, none, some, ◌==◌, if◌then◌else◌, codes, Exception, eof,
  invalid_state, Result, ok, thrown, ◌>>=◌, ◌>>◌,
}

-- What the template asks of its class. `operator>>` changes the state also where it throws.
pub record InputStream (S T : Type 0) : Type 0 where
  pub at_eof : S → Result Bool
  pub next_value : S → Result T × S

pub record InputIterator (T : Type 0) : Type 0 where
  pub stream : Option ℕ
  pub value : T

same_stream : Option ℕ → Option ℕ → Bool
same_stream none none = true
same_stream none (some b) = false
same_stream (some a) none = false
same_stream (some a) (some b) = a == b

module _ {T : Type 0} where
  -- `InputIterator(InputIterator&&)`: the new iterator and what is left of the other, where `left` is
  -- what moving leaves of a value.
  move_construct : (T → T) → InputIterator T → InputIterator T × InputIterator T
  move_construct left it = (it, record { stream = none; value = left it.value })

  -- `operator=(InputIterator&&)`, where the Boolean tells whether the objects are the same. The
  -- iterator that was moved from keeps its stream.
  move_assign :
      (T → T) → Bool → InputIterator T → InputIterator T → InputIterator T × InputIterator T
  move_assign left same it other =
      if same then (it, other) else (other, record other { value = left other.value })

  -- `swap`
  swap : Bool → InputIterator T → InputIterator T → InputIterator T × InputIterator T
  swap same it other = if same then (it, other) else (other, it)

module _ {S T : Type 0} (class : InputStream S T) (default : T) where
  -- `InputIterator()`
  abbrev pub end_iterator : InputIterator T
  end_iterator = record { stream = none; value = default }

  -- The `try` in `operator++`: the end of the input is no error.
  catch_eof : InputIterator T → Result T × S → Result (InputIterator T × S)
  catch_eof it (ok t, s) = ok (record it { value = t }, s)
  catch_eof it (thrown eof, s) = ok (record it { stream = none }, s)
  catch_eof it (thrown e, s) = thrown e

  -- `operator++`, on the iterator and the state of the stream that it points to.
  pub increment : InputIterator T → S → Result (InputIterator T × S)
  unfolding catch_eof
  increment it s = elim it.stream [
    | none ↦ thrown (invalid_state (codes "This iterator is already at the end state."))
    | some address ↦ class.at_eof s >>= λ finished.
        if finished then ok (record it { stream = none }, s) else catch_eof it (class.next_value s)
  ]

  -- `operator++(int)`: the copy is what it was, and the iterator goes on.
  post_increment : InputIterator T → S → Result (InputIterator T × InputIterator T × S)
  unfolding increment
  post_increment it s = do r ← increment it s; ok (it, r.0, r.1)

  -- `InputIterator(stream)`, of a stream at an address.
  pub begin : ℕ → S → Result (InputIterator T × S)
  unfolding increment
  begin address s = do
    finished ← class.at_eof s
    if finished
        then ok (end_iterator, s)
        else increment (record { stream = some address; value = default }) s

  -- `operator==`
  pub equals : InputIterator T → InputIterator T → Bool
  unfolding same_stream
  equals it other = same_stream it.stream other.stream

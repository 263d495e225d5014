-- ===== src/Stream/Output.antt =====
-- `OutputIterator` of Sources/iterator.hpp. The stream that it writes is an interface: `operator<<`
-- on a state. A pointer to a stream is its address, or none for the null pointer.
use kssio.Prelude.{ℕ, Bool, Option, none, some, List, [], ◌∷◌, Result, ok, thrown, if◌then◌else◌}
use kssio.Prelude.Effect.{Effect}

-- What the template asks of its class.
pub record OutputStream (S T : Type 0) : Type 0 where
  pub put : T → Effect S (Unit {0})

pub record OutputIterator : Type 0 where
  pub stream : Option ℕ

-- `OutputIterator(stream)`, of a stream at an address.
unfoldable pub construct : ℕ → OutputIterator
construct address = record { stream = some address }

-- `OutputIterator(OutputIterator&&)`: the new iterator, and what is left of the other.
pub move_construct : OutputIterator → OutputIterator × OutputIterator
move_construct it = (it, record { stream = none })

-- `operator=(OutputIterator&&)`, where the Boolean tells whether the objects are the same.
pub move_assign : Bool → OutputIterator → OutputIterator → OutputIterator × OutputIterator
move_assign same it other =
    if same then (it, other) else (record { stream = other.stream }, record { stream = none })

-- `swap`
pub swap : Bool → OutputIterator → OutputIterator → OutputIterator × OutputIterator
swap same it other = if same then (it, other) else (other, it)

module _ {S T : Type 0} (class : OutputStream S T) where
  -- `operator=(t)`; it is not defined on the null pointer.
  assign : OutputIterator → T → S → Option (Result (Unit {0}) × S)
  assign it t s = elim it.stream [ none ↦ none | some address ↦ some (class.put t s) ]

  -- `for (auto& t : ts) { *it = t; ++it; }`: the other operators do nothing.
  unfoldable pub copy_values : OutputIterator → List T → S → Option (Result (Unit {0}) × S)
  unfolding assign
  copy_values it [] s = some (ok tt, s)
  copy_values it (t ∷ ts) s = elim (assign it t s) [
    | none ↦ none
    | some r ↦ elim r.0 [ ok _ ↦ copy_values it ts r.1 | thrown e ↦ some (thrown e, r.1) ]
  ]

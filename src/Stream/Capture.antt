-- ===== src/Stream/Capture.antt =====
-- `capture` of Sources/utility.cpp. The buffers of the streams that are alive are a stack: `capture`
-- puts its own on top, and takes it away when it ends, however it ends.
pub mod Laws
mod Tests
use kssio.Prelude.{
  ℕ, zero, suc, List, [], ◌∷◌, ◌++◌, Text, length, get_or, take, ◌==◌, if◌then◌else◌,
}
use kssio.Prelude.Effect.{Effect, ◌>>=◌, ◌>>◌, pure, gets, modify}

-- An `ostream`: the buffer that it writes to, as a place in the stack, its error state, which is 0
-- where it is good, and the stack.
pub record Ostream : Type 0 where
  pub rdbuf : ℕ
  pub rdstate : ℕ
  pub buffers : List Text

append_at : ℕ → Text → List Text → List Text
append_at i t [] = []
append_at zero t (b ∷ bs) = (b ++ t) ∷ bs
append_at (suc i) t (b ∷ bs) = b ∷ append_at i t bs

-- `os << t`: a stream that is not good writes nothing.
pub insert_text : Text → Ostream → Ostream
unfolding append_at
insert_text t os =
    if os.rdstate == 0 then record os { buffers = append_at os.rdbuf t os.buffers } else os

-- `os.rdbuf(sb)` sets the buffer and clears the error state.
set_rdbuf : ℕ → Effect Ostream (Unit {0})
set_rdbuf sb = modify (λ os. record os { rdbuf = sb; rdstate = 0 })

-- `stringstream redirectStream`, and its destructor.
with_string_stream : {A : Type 0} → (ℕ → Effect Ostream A) → Effect Ostream A
with_string_stream body os =
    let n = length os.buffers in
    let (r, os') = body n (record os { buffers = os.buffers ++ [] ∷ [] }) in
    (r, record os' { buffers = take n os'.buffers })

-- What the buffers hold needs no flush.
pub capture : Effect Ostream (Unit {0}) → Effect Ostream Text
unfolding with_string_stream set_rdbuf
capture fn = with_string_stream λ redirect_stream. do
  oldbuf ← gets (λ os. os.rdbuf)
  set_rdbuf redirect_stream
  fn
  set_rdbuf oldbuf
  gets (λ os. get_or os.buffers redirect_stream [])

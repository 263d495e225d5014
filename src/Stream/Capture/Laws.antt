-- ===== src/Stream/Capture/Laws.antt =====
-- What `capture` returns and leaves.
use kssio.Prelude.{
  length-append, Result, ◌<◌, List, [], ◌∷◌, ◌++◌, Text, length, get_or, take, ◌≡◌, refl, arith, ok,
  thrown,
}
use kssio.Prelude.Effect.{◌>>=◌, ◌>>◌, Effect}
use kssio.Stream.Capture.{Ostream, append_at, insert_text, with_string_stream, capture}

take-length-snoc : (bs : List Text) (b : Text) → take (length bs) (bs ++ b ∷ []) ≡ bs
take-length-snoc [] b = refl
take-length-snoc (c ∷ bs) b = rw (take-length-snoc bs b) refl

get_or-length-snoc : (bs : List Text) (b : Text) → get_or (bs ++ b ∷ []) (length bs) [] ≡ b
get_or-length-snoc [] b = refl
get_or-length-snoc (c ∷ bs) b = get_or-length-snoc bs b

append_at-length :
    (bs : List Text) (t : Text) → append_at (length bs) t (bs ++ [] ∷ []) ≡ bs ++ t ∷ []
unfolding append_at
append_at-length [] t = refl
append_at-length (c ∷ bs) t = rw (append_at-length bs t) refl

-- The function writes a text to a stream whose buffer is alive, and then returns or throws.
abbrev Writes : Effect Ostream (Unit {0}) → Text → Result (Unit {0}) → Type 0
Writes fn t r = (os : Ostream) → os.rdbuf < length os.buffers → fn os ≡ (r, insert_text t os)

-- The stream that the function is called with.
abbrev opened : Ostream → Ostream
opened os = record { rdbuf = length os.buffers; rdstate = 0; buffers = os.buffers ++ [] ∷ [] }

opened-room : (os : Ostream) → (opened os).rdbuf < length (opened os).buffers
opened-room os = ground (arith, length-append os.buffers ([] ∷ []))

-- How a capture ends, by how the function ended.
abbrev Captured : Text → Ostream → Result (Unit {0}) → Result Text × Ostream → Type 0
Captured t os (ok x) out = out ≡ (ok t, record os { rdstate = 0 })
Captured t os (thrown e) out =
    out ≡ (thrown e, record os { rdbuf = length os.buffers; rdstate = 0 })

-- A function that writes a text and returns is captured: the text is returned, and the stream has
-- its buffer and what it holds as before. If the function throws, the exception passes, and the
-- stream is left with the buffer of the capture, which is no longer alive. In both cases the
-- stream's error state has been cleared.
pub capture-Captured :
    (fn : Effect Ostream (Unit {0})) (t : Text) (r : Result (Unit {0})) (os : Ostream)
    → Writes fn t r
    → Captured t os r (capture fn os)
unfolding capture insert_text
capture-Captured fn t (ok x) os writes =
    let call = writes (opened os) (opened-room os) in
    rw (with_string_stream, ◌>>=◌, ◌>>◌, call)
      (rw
        (
          call,
          append_at-length os.buffers t,
          take-length-snoc os.buffers t,
          get_or-length-snoc os.buffers t,
        )
        refl)
capture-Captured fn t (thrown e) os writes =
    let call = writes (opened os) (opened-room os) in
    rw (with_string_stream, ◌>>=◌, ◌>>◌, call)
      (rw (call, append_at-length os.buffers t, take-length-snoc os.buffers t) refl)

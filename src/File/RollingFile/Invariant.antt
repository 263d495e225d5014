-- ===== src/File/RollingFile/Invariant.antt =====
-- Between calls a rolling file holds no deleted stream, and no file that is over its size.
use kssio.Prelude.{inr, inl, Option-cases, refl, arith, ◌≡◌, ◌≤◌, ℕ}
use kssio.Prelude.Effect.{◌>>◌}
use kssio.File.RollingFile.{
  thrown, write_current, close, write, new_stream, next_file_name, Result, ok, false, true, some,
  none, Text, Option, Stream, State, Listener, World, Call, do_close, end_of_write, call_and_end,
  open_next, is_over, is_usable, set_stream,
}

-- The pointer is null or points to a stream that has not been deleted.
abbrev IsAlive : Option Stream → Type 0
IsAlive none = Unit
IsAlive (some strm) = strm.alive ≡ true

-- The pointer is null, or its stream is open, has no bad bit, and writes at a place that is not over
-- the size; but with a fail bit `tellp` does not tell the place.
abbrev IsWithin : ℕ → Option Stream → Type 0
IsWithin maximum none = Unit
IsWithin maximum (some strm) =
    (strm.is_open ≡ true) × (strm.bad ≡ false) × (strm.fail ≡ false → strm.position ≤ maximum)

-- A function on the stream does not delete it.
abbrev KeepsAlive : (Stream → Stream × Call) → Type 0
KeepsAlive f = (strm : Stream) → strm.alive ≡ true → (f strm).0.alive ≡ true

-- What is asked of the listener.
pub record IsMannered (l : Listener) : Type 0 where
  pub opening_keeps : (name : Text) → KeepsAlive (l.did_open name)
  pub closing_keeps : (name : Text) → KeepsAlive (l.will_close name)
  pub close_returns : (name : Text) → l.did_close name ≡ none

-- How a call may end: with no deleted stream, and, if it returns, with none over the size.
abbrev pub IsSound : World → Result (Unit {0}) × State → Type 0
IsSound w (ok x, s) = IsAlive s.current_stream × IsWithin w.maximum_file_size s.current_stream
IsSound w (thrown e, s) = IsAlive s.current_stream

-- How closing may end: with no stream and the object closed for good, or with one that is alive.
abbrev pub IsClosedOrThrew : Result (Unit {0}) × State → Type 0
IsClosedOrThrew (ok x, s) = (s.current_stream ≡ none) × (s.has_permanently_closed ≡ true)
IsClosedOrThrew (thrown e, s) = IsAlive s.current_stream

module _ (w : World) (mannered : IsMannered w.listener) where
  do_close-IsAlive :
      (strm : Stream) (s : State)
      → strm.alive ≡ true
      → s.current_stream ≡ some strm
      → let (r, s') = (do_close w strm >> set_stream none) s in
        IsAlive s'.current_stream × (r ≡ ok tt → s'.current_stream ≡ none)
  unfolding do_close
  do_close-IsAlive strm s a e = ground (
    arith,
    mannered.closing_keeps s.current_file_name strm a,
    mannered.close_returns s.current_file_name,
  )

  end_of_write-IsSound :
      (error : ℕ) (strm : Stream) (s : State)
      → strm.alive ≡ true
      → s.current_stream ≡ some strm
      → IsSound w (end_of_write w error strm s)
  unfolding end_of_write is_over is_usable
  end_of_write-IsSound error strm s a e = ground (arith, do_close-IsAlive strm s a e)

  call_and_end-IsSound :
      (fn : Stream → Stream × Call) (error : ℕ) (current : Option Stream) (s : State)
      → KeepsAlive fn
      → IsAlive current
      → s.current_stream ≡ current
      → IsSound w (call_and_end w fn error current s)
  unfolding call_and_end
  call_and_end-IsSound fn error none s keeps a e = rw e (tt, tt)
  call_and_end-IsSound fn error (some strm) s keeps a e = ground (
    arith,
    keeps strm a,
    end_of_write-IsSound error (fn strm).0 (record s { current_stream = some (fn strm).0 })
        (keeps strm a) refl,
  )

  open_next-IsAlive :
      (s : State) → s.current_stream ≡ none → IsAlive (open_next w s).1.current_stream
  unfolding open_next
  open_next-IsAlive s e =
      let name = next_file_name w.prefix s.next_file_index w.suffix in
      ground (arith, mannered.opening_keeps name (new_stream w name) refl)

  write_current-IsSound :
      (fn : Stream → Stream × Call) (error : ℕ) (s : State)
      → KeepsAlive fn
      → IsAlive s.current_stream
      → IsSound w (write_current w fn error s)
  unfolding write_current
  write_current-IsSound fn error s keeps a =
      ground (arith, call_and_end-IsSound fn error s.current_stream s keeps a refl)

  -- If neither the writing function nor the listener deletes the stream, and didClose does not
  -- throw, then `write` leaves no deleted stream behind, however it ends; and where it returns,
  -- the file that is still current is open, has no bad bit, and is at a place not over the maximum
  -- size, unless it has a fail bit, with which it may be at any place.
  pub write-IsSound :
      (fn : Stream → Stream × Call) (error : ℕ) (s : State)
      → KeepsAlive fn
      → IsAlive s.current_stream
      → IsSound w (write w fn error s)
  unfolding write
  write-IsSound fn error s keeps a = elim (Option-cases s.current_stream) [
    | inl e ↦ ground (
      arith,
      open_next-IsAlive s e,
      write_current-IsSound fn error (open_next w s).1 keeps (open_next-IsAlive s e),
    )
    | inr (strm, e) ↦ ground (arith, write_current-IsSound fn error s keeps a)
  ]

  -- If the listener does not delete the stream and didClose does not throw, then `close` of a file in
  -- use, of an object that is not closed for good, ends with no stream and with the object closed
  -- for good, or throws and leaves a stream that is alive.
  pub close-IsClosedOrThrew :
      (s : State) (strm : Stream)
      → s.has_permanently_closed ≡ false
      → s.current_stream ≡ some strm
      → strm.alive ≡ true
      → IsClosedOrThrew (close w s)
  unfolding close
  close-IsClosedOrThrew s strm open_yet e a = ground (arith, do_close-IsAlive strm s a e)

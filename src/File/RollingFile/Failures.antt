-- ===== src/File/RollingFile/Failures.antt =====
-- What a failure leaves behind in a rolling file.
use kssio.Prelude.{arith, ◌<◌, ◌++◌, ◌≡◌, ℕ}
use kssio.File.RollingFile.{
  conditions, failed, codes, system_error, thrown, ok, true, not, none, Option, some, false,
  Exception, Bool, Stream, State, World, Call, do_close, open_next, close, write, write_current,
  call_and_end, end_of_write, is_over, Result, is_usable, next_file_name,
}

-- If the next file cannot be opened, `write` throws the error of the system, as it should; but the
-- object keeps the stream that is not open, so every later `write` fails its check and none tries
-- to open a file again. The object has no listener, and the look whether the file exists succeeds.
pub write_after_failed_open :
    (w : World) (fn fn' : Stream → Stream × Call) (error error' errno : ℕ) (exists : Bool)
    (s : State)
    → let name = next_file_name w.prefix s.next_file_index w.suffix in
      s.has_permanently_closed ≡ false
      → s.current_stream ≡ none
      → s.has_listener ≡ false
      → w.is_file name ≡ ok exists
      → w.open_file name ≡ some errno
      → let (r, s') = write w fn error s in
        (r ≡ thrown (system_error errno (codes "failed to open " ++ name)))
        × (write w fn' error' s' ≡ (thrown (failed conditions), s'))
unfolding write open_next write_current is_usable
write_after_failed_open w fn fn' error error' errno exists s c n l i o = ground arith

abbrev is_deleted : Option Stream → Bool
is_deleted none = false
is_deleted (some strm) = not strm.alive

-- A call has thrown, and the object, which is not closed for good, points to a deleted stream.
abbrev pub Dangles : Exception → Result (Unit {0}) × State → Type 0
Dangles e (r, s) =
    (r ≡ thrown e) × (s.has_permanently_closed ≡ false) × (is_deleted s.current_stream ≡ true)

-- If didClose throws, both calls that close a file leave the object with a pointer to the stream that
-- they have deleted, and throw the same: `close`, after which the object is not closed for good, and
-- a `write` after which the file is over its size. The file is in use and can be written to, the
-- writing function returns, and so does willClose.
pub close_and_write_dangle :
    (w : World) (fn : Stream → Stream × Call) (error : ℕ) (strm strm' : Stream) (s : State)
    (e : Exception)
    → s.has_permanently_closed ≡ false
    → s.current_stream ≡ some strm
    → s.has_listener ≡ true
    → (strm.is_open ≡ true) × (strm.bad ≡ false)
    → fn strm ≡ (strm', none)
    → (strm'.is_open ≡ true) × (strm'.bad ≡ false) × (strm'.fail ≡ false)
    → w.maximum_file_size < strm'.position
    → ((t : Stream) → (w.listener.will_close s.current_file_name t).1 ≡ none)
    → w.listener.did_close s.current_file_name ≡ some e
    → Dangles e (close w s) × Dangles e (write w fn error s)
unfolding close write write_current call_and_end end_of_write do_close is_usable is_over
close_and_write_dangle w fn error strm strm' s e c p l (o, b) f (o', b', f') over wc d =
    ground (arith, f, wc strm, wc strm', d)

-- ===== src/File/RollingFile.antt =====
-- `RollingFile` of Sources/rolling_file.cpp. A method is a function on the object's state that
-- keeps the state also when it throws. The output streams, the file system and the listener are
-- parameters; a stream that the code has deleted is kept as one that is not alive.
pub mod Names
pub mod Invariant
pub mod Failures
pub mod History
pub mod Refinement
mod Tests
use kssio.Prelude.Effect.{Effect, ◌>>=◌, ◌>>◌, throw, pure, gets, modify, lift, when}
use kssio.Prelude.{
  ℕ, zero, suc, ◌+◌, ◌-◌, ◌%◌, ◌^◌, Bool, true, false, not, ◌&&◌, Option, none, some, List, [], ◌∷◌,
  ◌++◌, ltb, if◌then◌else◌, is_empty, Text, codes, Exception, Result, ok, thrown, system_error,
  failed, Contract, parameters, preconditions, conditions, check, require,
}
use kssio.Prelude.Int.{ℤ, pos, leb_ℤ, pos_part}
use kssio.Net.Text.{print_padded}

-- An `ofstream`: not deleted, opened, its bad and fail bits, and where it writes.
pub record Stream : Type 0 where
  pub alive : Bool
  pub is_open : Bool
  pub bad : Bool
  pub fail : Bool
  pub position : ℕ

-- The members of the class, but for the constant ones.
pub record State : Type 0 where
  pub next_file_index : ℕ
  pub has_permanently_closed : Bool
  pub current_file_name : Text
  pub current_stream : Option Stream
  pub has_listener : Bool

-- A callback that may throw.
abbrev pub Call : Type 0
Call = Option Exception

pub record Listener : Type 0 where
  pub will_open : Text → Call
  pub did_open : Text → Stream → Stream × Call
  pub will_close : Text → Stream → Stream × Call
  pub did_close : Text → Call

-- The constant members, the listener, and the file system: `open_file` gives the `errno` of a
-- file that cannot be opened.
pub record World : Type 0 where
  pub maximum_file_size : ℕ
  pub prefix : Text
  pub suffix : Text
  pub listener : Listener
  pub is_file : Text → Result Bool
  pub open_file : Text → Option ℕ

abbrev pub M : Type 0 → Type 0
M A = Effect State A

abbrev pub set_stream : Option Stream → M (Unit {0})
set_stream p = modify (λ s. record s { current_stream = p })

abbrev raise : Call → M (Unit {0})
raise none = pure tt
raise (some e) = throw e

-- A callback with the current stream.
abbrev with_stream : (Stream → Stream × Call) → Stream → M (Unit {0})
with_stream f strm = let (strm', c) = f strm in set_stream (some strm') >> raise c

-- `nextFileName`: the name, and the next index as an `unsigned`.
pub next_file_name : Text → ℕ → Text → Text
next_file_name prefix next_file_index suffix =
    prefix ++ (print_padded 10 6 next_file_index ++ (if is_empty suffix then [] else b'.' ∷ suffix))

abbrev next_index : ℕ → ℕ
next_index i = (i + 1) % 2 ^ 32

-- The constructor's check, and the members that it starts with.
pub construct : ℤ → Text → Result State
construct file_wrap_size file_name_prefix =
    if not (leb_ℤ file_wrap_size (pos 0)) && not (is_empty file_name_prefix)
    then ok (record {
      next_file_index = 0;
      has_permanently_closed = false;
      current_file_name = [];
      current_stream = none;
      has_listener = false;
    })
    else thrown (failed parameters)

unfoldable set_listener : State → State
set_listener s = record s { has_listener = true }

-- The checks before and after the writing function.
pub is_usable : Option Stream → Bool
is_usable none = false
is_usable (some strm) = strm.is_open && not strm.bad

-- `currentStream->tellp() > maximumFileSize`; a stream with a fail bit answers -1.
pub is_over : ℕ → Stream → Bool
is_over maximum strm = not strm.fail && ltb maximum strm.position

module _ (w : World) where
  -- `doClose`; behind `delete strm` the pointer still stands in `currentStream`.
  pub do_close : Stream → M (Unit {0})
  do_close strm = do
    listening ← gets (λ s. s.has_listener)
    name ← gets (λ s. s.current_file_name)
    when listening (with_stream (w.listener.will_close name) strm)
    now ← gets (λ s. s.current_stream)
    set_stream (elim now [ none ↦ none | some t ↦ some (record t { alive = false }) ])
    when listening (raise (w.listener.did_close name))

  -- The new stream of a file, whether or not it could be opened.
  abbrev pub new_stream : Text → Stream
  new_stream name =
      let o : Bool = elim (w.open_file name) [ none ↦ true | some _ ↦ false ] in
      record { alive = true; is_open = o; bad = false; fail = not o; position = 0 }

  -- The part of `write` that opens the next file.
  pub open_next : M (Unit {0})
  open_next = do
    modify (λ s. record s {
      current_file_name = next_file_name w.prefix s.next_file_index w.suffix;
      next_file_index = next_index s.next_file_index;
    })
    name ← gets (λ s. s.current_file_name)
    lift (w.is_file name)
    listening ← gets (λ s. s.has_listener)
    when listening (raise (w.listener.will_open name))
    set_stream (some (new_stream name))
    raise (elim (w.open_file name) [
      | none ↦ none
      | some errno ↦ some (system_error errno (codes "failed to open " ++ name))
    ])
    when listening (with_stream (w.listener.did_open name) (new_stream name))

  -- `delete currentStream; currentStream = nullptr; throw ...`; `error` is the saved `errno`.
  fail_writing : ℕ → M (Unit {0})
  fail_writing error = do
    set_stream none
    name ← gets (λ s. s.current_file_name)
    throw (system_error error (codes "failed wile writing to " ++ name))

  -- The end of `write`, on the stream that is current after the writing function.
  pub end_of_write : ℕ → Stream → M (Unit {0})
  unfolding fail_writing is_usable is_over do_close
  end_of_write error strm = if strm.bad then fail_writing error else (do
    lift (check conditions (is_usable (some strm)))
    when (is_over w.maximum_file_size strm) (do_close strm >> set_stream none))

  -- The call of the writing function `fn`, which may throw, and what follows.
  pub call_and_end : (Stream → Stream × Call) → ℕ → Option Stream → M (Unit {0})
  unfolding end_of_write
  call_and_end fn error none = pure tt
  call_and_end fn error (some strm) = do
    let out = fn strm
    set_stream (some out.0)
    raise out.1
    end_of_write error out.0

  -- The part of `write` behind the opening of a file.
  pub write_current : (Stream → Stream × Call) → ℕ → M (Unit {0})
  write_current fn error = do
    current ← gets (λ s. s.current_stream)
    lift (check conditions (is_usable current))
    call_and_end fn error current

  is_null : Option Stream → Bool
  is_null none = true
  is_null (some strm) = false

  unfoldable pub write : (Stream → Stream × Call) → ℕ → M (Unit {0})
  unfolding is_null
  write fn error = do
    closed ← gets (λ s. s.has_permanently_closed)
    lift (check preconditions (not closed))
    before ← gets (λ s. s.current_stream)
    when (is_null before) open_next
    write_current fn error

  close_stream : Option Stream → M (Unit {0})
  unfolding do_close
  close_stream none = pure tt
  close_stream (some strm) = do
    do_close strm
    set_stream none
    modify (λ s. record s { has_permanently_closed = true })

  pub close : M (Unit {0})
  unfolding close_stream
  close = do
    closed ← gets (λ s. s.has_permanently_closed)
    lift (check preconditions (not closed))
    current ← gets (λ s. s.current_stream)
    close_stream current

  -- The destructor logs an exception of `doClose`: the state that is left.
  unfoldable destroy : State → State
  unfolding do_close
  destroy s = elim s.current_stream [ none ↦ s | some strm ↦ (do_close strm s).1 ]

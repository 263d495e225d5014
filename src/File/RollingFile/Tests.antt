-- ===== src/File/RollingFile/Tests.antt =====
-- Concrete runs of a rolling file.
use kssio.Prelude.{◌++◌, foreign, ◌∷◌, List, Text, get_or, arith, ◌≡◌, ◌+◌, refl, ℕ}
use kssio.File.RollingFile.{
  conditions, failed, system_error, thrown, ok, [], true, some, pos, none, false, codes, Stream,
  State, Listener, World, Call, construct, write, close, next_file_name, is_usable,
}
use kssio.File.RollingFile.History.{IsCalm, contents, write_all}
use kssio.File.RollingFile.Refinement.{IsCut, write_all-files}
use kssio.File.RollingFile.Invariant.{
  IsClosedOrThrew, IsSound, write-IsSound, close-IsClosedOrThrew,
}
use kssio.File.RollingFile.Failures.{write_after_failed_open, Dangles, close_and_write_dangle}

abbrev quiet : Listener
quiet = record {
  will_open = λ name. none;
  did_open = λ name strm. (strm, none);
  will_close = λ name strm. (strm, none);
  did_close = λ name. none;
}

abbrev world : World
world = record {
  maximum_file_size = 100;
  prefix = codes "log";
  suffix = codes "txt";
  listener = quiet;
  is_file = λ name. ok false;
  open_file = λ name. none;
}

-- A disk on which nothing can be opened, and a listener that throws when a file was closed.
abbrev full_disk : World
full_disk = record world { open_file = λ name. some 28 }

abbrev thrower : World
thrower = record world { listener = record quiet { did_close = λ name. some (foreign 7) } }

abbrev start : State
start = record {
  next_file_index = 0;
  has_permanently_closed = false;
  current_file_name = [];
  current_stream = none;
  has_listener = false;
}

abbrev put : ℕ → Stream → Stream × Call
put n strm = (record strm { position = strm.position + n }, none)

abbrev file_at : ℕ → Stream
file_at n = record { alive = true; is_open = true; bad = false; fail = false; position = n }

constructed : construct (pos 3) (codes "log") ≡ ok start
unfolding construct
constructed = refl

-- The first file is number 0, and it is closed when it grows past the size.
first_name : next_file_name (codes "log") 0 (codes "txt") ≡ codes "log000000.txt"
unfolding next_file_name kssio.Net.Text.print_padded
first_name = refl

written : (write world (put 60) 0 start).1.current_stream ≡ some (file_at 60)
unfolding write kssio.File.RollingFile.open_next kssio.File.RollingFile.write_current is_usable
    kssio.File.RollingFile.call_and_end
written = refl

rolled : (write world (put 60) 0 (write world (put 60) 0 start).1).1.current_stream ≡ none
unfolding write kssio.File.RollingFile.open_next kssio.File.RollingFile.write_current is_usable
    kssio.File.RollingFile.call_and_end
rolled = refl

-- A listener that does nothing, and files of three bytes.
abbrev narrow : World
narrow = record world { maximum_file_size = 3 }

narrow-IsCalm : IsCalm narrow
narrow-IsCalm = record {
  opening = λ name. refl;
  opened = λ name strm. refl;
  closing = λ name strm. refl;
  closed = λ name. refl;
  asked = λ name. (false, refl);
  has_space = λ name. refl;
}

write_all-files_example :
    (trace : List (Text × Text)) × ((write_all narrow
        (codes "ab" ∷ codes "cd" ∷ codes "e" ∷ [])
        (record start { has_listener = true })).0
      ≡ ok trace)
    × ((k : ℕ)
        → contents (next_file_name (codes "log") k (codes "txt")) trace
          ≡ get_or (codes "abcd" ∷ codes "e" ∷ []) k [])
    × (codes "abcde" ≡ codes "abcde")
    × IsCut 3 (codes "abcd" ∷ [], some (codes "e"))
write_all-files_example =
    write_all-files narrow narrow-IsCalm true (codes "ab" ∷ codes "cd" ∷ codes "e" ∷ []) (pos 3)
      start constructed (ground arith)

write-IsSound_example : IsSound world (write world (put 60) 0 start)
write-IsSound_example =
    write-IsSound world
      (record {
        opening_keeps = λ name strm a. a;
        closing_keeps = λ name strm a. a;
        close_returns = λ name. refl;
      })
      (put 60) 0 start (λ strm a. a) tt

abbrev in_use : State
in_use = record start { current_stream = some (file_at 60); has_listener = true }

close-IsClosedOrThrew_example : IsClosedOrThrew (close world in_use)
close-IsClosedOrThrew_example =
    close-IsClosedOrThrew world
      (record {
        opening_keeps = λ name strm a. a;
        closing_keeps = λ name strm a. a;
        close_returns = λ name. refl;
      })
      in_use (file_at 60) refl refl refl

write_after_failed_open_example :
    let (r, s') = write full_disk (put 60) 0 start in
    (r
      ≡ thrown (
          system_error 28
            (codes "failed to open " ++ next_file_name (codes "log") 0 (codes "txt"))))
    × (write full_disk (put 1) 0 s' ≡ (thrown (failed conditions), s'))
write_after_failed_open_example =
    write_after_failed_open full_disk (put 60) (put 1) 0 0 28 false start refl refl refl refl refl

close_and_write_dangle_example :
    Dangles (foreign 7) (close thrower in_use)
    × Dangles (foreign 7) (write thrower (put 60) 0 in_use)
close_and_write_dangle_example =
    close_and_write_dangle thrower (put 60) 0 (file_at 60) (file_at 120) in_use (foreign 7) refl
      refl refl (refl, refl) refl (refl, refl, refl) (omega arith) (λ t. refl) refl

-- ===== src/File/Binary/Handles.antt =====
-- The objects of the class `BinaryFile` and the streams that they hold: the constructors, moving, and
-- the destructor of Sources/binary_file.cpp. A stream is a number, an object's address is its place
-- in the list of objects.
pub mod Balance
mod Tests
use kssio.Prelude.Places.{at, set}
use kssio.Prelude.{
  ℕ, zero, suc, ◌+◌, Bool, true, false, Option, none, some, List, [], ◌∷◌, ◌++◌, ◌==◌,
  if◌then◌else◌, length,
}

-- The two members.
pub record BinaryFile : Type 0 where
  pub fp : Option ℕ
  pub autoclose : Bool

-- The objects, none where one has been destroyed; the next stream that the system opens; and the
-- streams that `fclose` has been called for, the latest first.
pub record World : Type 0 where
  pub objects : List (Option BinaryFile)
  pub next : ℕ
  pub closed : List ℕ

-- `attach` is the constructor from a stream of the caller, `open_descriptor` the one from a file
-- descriptor. The two that throw do so behind `fopen` and `fdopen`, in a seek, a tell or a
-- postcondition; a call that throws before, or one that throws with the caller's stream, changes
-- nothing here.
pub data FileOp : Type 0 where
  default_construct open_name open_name_throws open_descriptor open_descriptor_throws : FileOp
  attach move_construct destroy : ℕ → FileOp
  move_assign : ℕ → ℕ → FileOp

-- `operator=`, with the new list of objects; an address with no object is not used.
move_to :
    ℕ
    → Option BinaryFile
    → Option BinaryFile
    → ℕ
    → List (Option BinaryFile)
    → List (Option BinaryFile)
move_to this none f p objects = objects
move_to this (some old) none p objects = objects
move_to this (some old) (some f) p objects =
    set p (some (record f { fp = none })) (set this (some f) objects)

move_assign_to : ℕ → ℕ → List (Option BinaryFile) → List (Option BinaryFile)
unfolding move_to
move_assign_to this p objects =
    let moved = move_to this (at objects this) (at objects p) p objects in
    if this == p then objects else moved

-- `if (_fp && _autoclose) { fclose(_fp); }`
close_of : Option BinaryFile → List ℕ → List ℕ
close_of none closed = closed
close_of (some f) closed = elim f.fp [
  | none ↦ closed
  | some h ↦ if f.autoclose then h ∷ closed else closed
]

abbrev null_file : BinaryFile
null_file = record { fp = none; autoclose = false }

abbrev with_object : BinaryFile → World → World
with_object f w = record w { objects = w.objects ++ some f ∷ [] }

pub step_op : FileOp → World → World
unfolding move_assign_to close_of
step_op default_construct w = with_object null_file w
step_op open_name w =
    with_object (record { fp = some w.next; autoclose = true }) (record w { next = suc w.next })
step_op open_descriptor w =
    with_object (record { fp = some w.next; autoclose = false }) (record w { next = suc w.next })
step_op open_name_throws w = record w { next = suc w.next }
step_op open_descriptor_throws w = record w { next = suc w.next }
step_op (attach h) w = with_object (record { fp = some h; autoclose = false }) w
step_op (move_construct p) w = record w {
  objects = move_assign_to (length w.objects) p (w.objects ++ some null_file ∷ []);
}
step_op (move_assign this p) w = record w { objects = move_assign_to this p w.objects }
step_op (destroy this) w = record w {
  objects = set this none w.objects;
  closed = close_of (at w.objects this) w.closed;
}

abbrev pub start : World
start = record { objects = []; next = 0; closed = [] }

pub run_ops : List FileOp → World → World
unfolding step_op
run_ops [] w = w
run_ops (op ∷ ops) w = run_ops ops (step_op op w)

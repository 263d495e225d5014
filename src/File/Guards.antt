-- ===== src/File/Guards.antt =====
-- The classes that close what they hold when they are destroyed and that the compiler copies member
-- by member: `FiledesGuard` and `FileGuard` of Sources/fileutil.cpp, and the iterator of
-- Sources/directory.cpp with its `DIR*`. What is held is a number; none is -1 or a null pointer.
pub mod Copies
mod Tests
use kssio.Prelude.Places.{at, set}
use kssio.Prelude.{ℕ, Option, none, some, List, [], ◌∷◌, ◌++◌, length}

-- The objects, none where one has been destroyed; what has been closed, and the directories that have
-- been read from, the latest first.
pub record World : Type 0 where
  pub objects : List (Option (Option ℕ))
  pub closed : List ℕ
  pub reads : List ℕ

-- A constructor, also that of the iterator once it has opened the directory.
pub construct : Option ℕ → World → World
construct held w = record w { objects = w.objects ++ some held ∷ [] }

-- The copy constructor, and the move constructor, which does not clear the other object's pointer.
pub copy : ℕ → World → World
copy i w = record w { objects = w.objects ++ at w.objects i ∷ [] }

-- What is held, in front of some others.
held_by : Option (Option ℕ) → List ℕ → List ℕ
held_by none closed = closed
held_by (some none) closed = closed
held_by (some (some held)) closed = held ∷ closed

pub destroy : ℕ → World → World
unfolding held_by
destroy i w = record w {
  objects = set i none w.objects;
  closed = held_by (at w.objects i) w.closed;
}

-- `++*this`: `readDir` of what the object holds, and it keeps holding it, also if that throws.
increment : ℕ → World → World
unfolding held_by
increment i w = record w { reads = held_by (at w.objects i) w.reads }

-- `it++` as a statement: the object is copied, it is incremented, and the copy that is returned is
-- destroyed at once, as it is if the increment throws. What becomes of the value is the increment of
-- the directory's model.
pub post_increment : ℕ → World → World
unfolding copy destroy increment
post_increment i w = destroy (length w.objects) (increment i (copy i w))

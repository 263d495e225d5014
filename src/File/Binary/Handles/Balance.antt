-- ===== src/File/Binary/Handles/Balance.antt =====
-- What becomes of the streams that are opened.
use kssio.Prelude.Places.{
  at, set, weight, total, one_if, occurrences, at-set, at-length, total-new, total-set, total-clear,
}
use kssio.Prelude.{
  ℕ, ◌+◌, true, false, Option, none, some, List, [], ◌∷◌, ◌++◌, ◌==◌, ltb, if◌then◌else◌, length,
  ◌≡◌, refl, arith, Bool-cases, inl, inr, ◌∙◌,
}
use kssio.File.Binary.Handles.{
  BinaryFile, start, World, FileOp, default_construct, open_name, open_name_throws, open_descriptor,
  open_descriptor_throws, attach, move_construct, move_assign, destroy, move_to, move_assign_to,
  close_of, null_file, step_op, run_ops,
}

-- How often an object will close a stream, how often some objects will, and how often it has been
-- closed.
abbrev owns : ℕ → BinaryFile → ℕ
owns h f = elim f.fp [ none ↦ 0 | some g ↦ if f.autoclose then one_if (g == h) else 0 ]

abbrev pub owners : ℕ → List (Option BinaryFile) → ℕ
owners h = total (owns h)

abbrev pub closes : ℕ → List ℕ → ℕ
closes = occurrences

-- The stream of an object that another is moved to.
abbrev overwritten : ℕ → ℕ → ℕ → List (Option BinaryFile) → ℕ
overwritten h this p objects =
    if this == p
    then 0
    else elim (at objects p) [ none ↦ 0 | some f ↦ weight (owns h) (at objects this) ]

-- The streams that a call makes nobody's: such a stream, the one that is opened for a descriptor, and
-- the one of a constructor that throws when it has opened it.
abbrev loses : ℕ → FileOp → World → ℕ
loses h open_descriptor w = one_if (w.next == h)
loses h open_name_throws w = one_if (w.next == h)
loses h open_descriptor_throws w = one_if (w.next == h)
loses h (move_assign this p) w = overwritten h this p w.objects
loses h default_construct w = 0
loses h open_name w = 0
loses h (attach g) w = 0
loses h (move_construct p) w = 0
loses h (destroy this) w = 0

abbrev pub lost : ℕ → List FileOp → World → ℕ
lost h [] w = 0
lost h (op ∷ ops) w = loses h op w + lost h ops (step_op op w)

module _ (h : ℕ) where
  owners-move :
      (this p : ℕ) (old f : BinaryFile) (xs : List (Option BinaryFile))
      → (this == p) ≡ false
      → at xs this ≡ some old
      → at xs p ≡ some f
      → owners h (set p (some (record f { fp = none })) (set this (some f) xs)) + owns h old
        ≡ owners h xs
  owners-move this p old f xs other e i = omega (
    arith,
    total-set (owns h) this old (some f) xs e,
    total-set (owns h) p f (some (record f { fp = none })) (set this (some f) xs)
        (at-set this p (some f) xs other ∙ i),
  )

  move_to-balance :
      (this p : ℕ) (old f : Option BinaryFile) (xs : List (Option BinaryFile))
      → (this == p) ≡ false
      → at xs this ≡ old
      → at xs p ≡ f
      → owners h (move_to this old f p xs) + elim f [ none ↦ 0 | some f' ↦ weight (owns h) old ]
        ≡ owners h xs
  unfolding move_to
  move_to-balance this p none none xs other e i = omega arith
  move_to-balance this p none (some f) xs other e i = omega arith
  move_to-balance this p (some old) none xs other e i = omega arith
  move_to-balance this p (some old) (some f) xs other e i = owners-move this p old f xs other e i

  move_assign_to-balance :
      (this p : ℕ) (xs : List (Option BinaryFile))
      → owners h (move_assign_to this p xs) + overwritten h this p xs ≡ owners h xs
  unfolding move_assign_to
  move_assign_to-balance this p xs = elim (Bool-cases (this == p)) [
    | inl e ↦ rw e (omega arith)
    | inr e ↦ rw e (move_to-balance this p (at xs this) (at xs p) xs e refl refl)
  ]

  closes-close_of :
      (o : Option BinaryFile) (closed : List ℕ)
      → closes h (close_of o closed) ≡ closes h closed + weight (owns h) o
  unfolding close_of
  closes-close_of none closed = omega arith
  closes-close_of (some f) closed = ground arith

  -- A new object has no stream that could be overwritten.
  overwritten-new :
      (p : ℕ) (xs : List (Option BinaryFile))
      → overwritten h (length xs) p (xs ++ some null_file ∷ []) ≡ 0
  overwritten-new p xs = ground (arith, at-length xs null_file)

  step_op-balance :
      (op : FileOp) (w : World)
      → closes h (step_op op w).closed
          + owners h (step_op op w).objects
          + loses h op w
          + one_if (ltb h w.next)
        ≡ closes h w.closed + owners h w.objects + one_if (ltb h (step_op op w).next)
  unfolding step_op
  step_op-balance default_construct w = omega (arith, total-new (owns h) (some null_file) w.objects)
  step_op-balance open_name w =
      ground
        (arith, total-new (owns h) (some (record { fp = some w.next; autoclose = true })) w.objects)
  step_op-balance open_descriptor w =
      ground (
        arith,
        total-new (owns h) (some (record { fp = some w.next; autoclose = false })) w.objects,
      )
  step_op-balance open_name_throws w = ground arith
  step_op-balance open_descriptor_throws w = ground arith
  step_op-balance (attach g) w =
      omega (arith, total-new (owns h) (some (record { fp = some g; autoclose = false })) w.objects)
  step_op-balance (move_construct p) w = omega (
    arith,
    total-new (owns h) (some null_file) w.objects,
    overwritten-new p w.objects,
    move_assign_to-balance (length w.objects) p (w.objects ++ some null_file ∷ []),
  )
  step_op-balance (move_assign this p) w = omega (arith, move_assign_to-balance this p w.objects)
  step_op-balance (destroy this) w =
      omega
        (arith, closes-close_of (at w.objects this) w.closed, total-clear (owns h) this w.objects)

  run_ops-balance :
      (ops : List FileOp) (w : World)
      → closes h (run_ops ops w).closed
          + owners h (run_ops ops w).objects
          + lost h ops w
          + one_if (ltb h w.next)
        ≡ closes h w.closed + owners h w.objects + one_if (ltb h (run_ops ops w).next)
  unfolding run_ops
  run_ops-balance [] w = omega arith
  run_ops-balance (op ∷ ops) w =
      omega (arith, step_op-balance op w, run_ops-balance ops (step_op op w))

  -- Whatever a program does with its objects, a stream that they have opened is in exactly one of
  -- three states: it has been closed, once; or one object owns it and will close it; or it has been
  -- lost, as the stream of an object that another was moved to, one made for a descriptor, or one of
  -- a constructor that threw when it had opened it.
  pub run_ops-accounts :
      (ops : List FileOp)
      → let w = run_ops ops start in
        closes h w.closed + owners h w.objects + lost h ops start ≡ (if ltb h w.next then 1 else 0)
  run_ops-accounts ops = ground (arith, run_ops-balance ops start)

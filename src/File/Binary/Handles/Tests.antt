-- ===== src/File/Binary/Handles/Tests.antt =====
-- Concrete objects of the class.
use kssio.Prelude.{◌+◌, [], ◌∷◌, ◌≡◌, List, refl}
use kssio.File.Binary.Handles.{
  FileOp, open_name, open_name_throws, open_descriptor, move_construct, move_assign, destroy,
  run_ops, start,
}
use kssio.File.Binary.Handles.Balance.{closes, owners, lost, run_ops-accounts}

-- The second object is moved to the first, whose stream is then nobody's; the stream 1 is closed.
abbrev ops : List FileOp
ops =
    open_name
    ∷ open_name
    ∷ open_name_throws
    ∷ move_assign 0 1
    ∷ move_construct 0
    ∷ destroy 0
    ∷ destroy 1
    ∷ destroy 2
    ∷ []

ends : (run_ops ops start).closed ≡ 1 ∷ []
unfolding run_ops kssio.File.Binary.Handles.step_op
ends = refl

run_ops-accounts_example :
    closes 0 (run_ops ops start).closed + owners 0 (run_ops ops start).objects + lost 0 ops start
    ≡ 1
unfolding run_ops
run_ops-accounts_example = run_ops-accounts 0 ops

-- ===== src/Stream/Capture/Tests.antt =====
-- Concrete captures.
use kssio.Prelude.{Text, foreign, ok, thrown, codes, [], ◌∷◌, ◌≡◌, refl}
use kssio.Prelude.Effect.{Effect, ◌>>=◌, ◌>>◌, modify, throw}
use kssio.Stream.Capture.{Ostream, insert_text, capture}
use kssio.Stream.Capture.Laws.{capture-Captured}

-- A stream with a text in its own buffer.
abbrev cout : Ostream
cout = record { rdbuf = 0; rdstate = 0; buffers = codes "out" ∷ [] }

abbrev say : Text → Effect Ostream (Unit {0})
say t = modify (insert_text t)

-- A capture in a capture.
nested :
    capture (do say (codes "a"); t ← capture (say (codes "b")); say (codes "c")) cout
    ≡ (ok (codes "ac"), cout)
unfolding capture insert_text
nested = refl

thrown_through :
    capture (do say (codes "a"); throw (foreign 7)) cout
    ≡ (thrown (foreign 7), record { rdbuf = 1; rdstate = 0; buffers = codes "out" ∷ [] })
thrown_through =
    capture-Captured (do say (codes "a"); throw (foreign 7)) (codes "a") (thrown (foreign 7)) cout
      (λ os room. refl)

-- A stream that has failed is good again.
abbrev failed : Ostream
failed = record cout { rdstate = 4 }

capture-Captured_example : capture (say (codes "a")) failed ≡ (ok (codes "a"), cout)
capture-Captured_example =
    capture-Captured (say (codes "a")) (codes "a") (ok tt) failed (λ os room. refl)

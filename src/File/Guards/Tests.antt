-- ===== src/File/Guards/Tests.antt =====
-- A concrete iterator of a directory.
use kssio.Prelude.{none, some, [], ◌∷◌, ◌≡◌, refl}
use kssio.Prelude.Places.{at}
use kssio.File.Guards.{World, construct, destroy, post_increment}
use kssio.File.Guards.Copies.{post_increment-closes}

abbrev no_objects : World
no_objects = record { objects = []; closed = []; reads = [] }

-- An object that is not copied closes what it holds once, and a null pointer is not closed.
once : (destroy 1 (destroy 0 (construct none (construct (some 5) no_objects)))).closed ≡ 5 ∷ []
unfolding construct destroy kssio.File.Guards.held_by
once = refl

abbrev one_iterator : World
one_iterator = record { objects = some (some 5) ∷ []; closed = []; reads = [] }

post_increment-closes_example :
    let w' = post_increment 0 one_iterator in
    (at w'.objects 0 ≡ some (some 5))
    × (w'.reads ≡ 5 ∷ [])
    × (w'.closed ≡ 5 ∷ [])
    × ((destroy 0 w').closed ≡ 5 ∷ 5 ∷ [])
post_increment-closes_example = post_increment-closes one_iterator 0 5 refl

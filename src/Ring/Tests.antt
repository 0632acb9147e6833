-- ===== src/Ring/Tests.antt =====
-- A ring of three buckets, and the theorems on it.
use spoki.Prelude.{ℕ, ◌≡◌, refl, some, List, [], ◌∷◌}
use spoki.Prelude.Eq.{nat_has_eq}
use spoki.Ring.{insert, resolve, count, next}
use spoki.Ring.Moves.{resolve-insert}
use spoki.Ring.Walks.{Ends, next-Ends}

abbrev ring : List (ℕ × ℕ)
ring = (10, 1) ∷ (20, 2) ∷ (30, 1) ∷ []

resolved : resolve 15 ring ≡ some 2
unfolding resolve
resolved = refl

-- behind the last bucket the first one follows
wrapped : resolve 31 ring ≡ some 1
unfolding resolve
wrapped = refl

counted : count 1 ring ≡ 2
unfolding count
counted = refl

resolve-insert_example : resolve 15 (insert 17 3 ring) ≡ some 3
resolve-insert_example = resolve-insert 15 17 3 ring (refl, (refl, (refl, tt)))

-- the neighbours of bucket 2, whose hash is 20
neighbours : next 6 ring 20 2 5 ≡ some (1 ∷ [])
unfolding next
neighbours = refl

next-Ends_example : Ends (next 6 ring 20 2 5)
next-Ends_example = next-Ends ring 20 2 5 refl

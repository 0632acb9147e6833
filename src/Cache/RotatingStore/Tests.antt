-- ===== src/Cache/RotatingStore/Tests.antt =====
-- Runs of the rotating store, and its theorems at concrete stores.
use spoki.Prelude.{◌<◌, ◌≤◌, ◌≡◌, refl, true, false, [], ◌∷◌, arith}
use spoki.Prelude.Assoc.{find, has}
use spoki.Cache.{Entry}
use spoki.Cache.RotatingStore.{RotatingStore, new, insert, contains, at, rotate}
use spoki.Cache.RotatingStore.Lookup.{IsValid}
use spoki.Cache.RotatingStore.Rotation.{rotate_times, entry_lifetime}

abbrev seen : Entry
seen = record { ts = 12; consistent = true }

abbrev filled : RotatingStore
filled = [] ∷ ((7, seen) ∷ []) ∷ []

-- rotating_store.cpp of the tests: the entry lives through `max - 1` rotations.
rotations : contains (rotate 2 (rotate 2 (insert 7 seen new))) 7 ≡ false
unfolding contains rotate insert has find
rotations = refl

filled-IsValid : IsValid filled
unfolding find
filled-IsValid = record { front = omega arith; maps = (tt, ((refl, tt), tt)) }

entry_lifetime_example :
    (1 < 2 → at (rotate_times 1 2 (insert 9 seen filled)) 9 ≡ seen)
    × (2 ≤ 1 → contains (rotate_times 1 2 (insert 9 seen filled)) 7 ≡ false)
entry_lifetime_example = entry_lifetime 1 2 9 7 seen filled (omega arith) (omega arith)

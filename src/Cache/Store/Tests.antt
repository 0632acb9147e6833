-- ===== src/Cache/Store/Tests.antt =====
-- Runs of the store, and its theorems at concrete stores.
use spoki.Prelude.{◌≡◌, refl, Bool, true, false, [], ◌∷◌, ltb}
use spoki.Prelude.Eq.{nat_has_eq}
use spoki.Prelude.Assoc.{find, put, IsMap}
use spoki.Net.{Address}
use spoki.Cache.{Entry}
use spoki.Cache.Store.{Store, merge, merge_entry, at}
use spoki.Cache.Store.Merge.{join, find-merge}

abbrev older : Entry
older = record { ts = 10; consistent = true }

abbrev newer : Entry
newer = record { ts = 20; consistent = true }

abbrev clash : Entry
clash = record { ts = 20; consistent = false }

abbrev local : Store
local = (1, older) ∷ (2, newer) ∷ []

abbrev remote : Store
remote = (2, clash) ∷ (1, newer) ∷ (3, older) ∷ []

local-IsMap : IsMap local
unfolding find
local-IsMap = (refl, (refl, tt))

remote-IsMap : IsMap remote
unfolding find
remote-IsMap = (refl, (refl, (refl, tt)))

-- the newer entry wins, and a tie joins the flags
merged : merge local remote ≡ (1, newer) ∷ (2, clash) ∷ (3, older) ∷ []
unfolding merge find merge_entry put at
merged = refl

find-merge_example : find 2 (merge local remote) ≡ join (find 2 local) (find 2 remote)
find-merge_example = find-merge local remote 2 remote-IsMap

abbrev stale : Address → Entry → Bool
stale a e = ltb e.ts 15

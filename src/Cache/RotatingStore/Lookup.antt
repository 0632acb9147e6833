-- ===== src/Cache/RotatingStore/Lookup.antt =====
-- What `insert` and `rotate` do to the entries that are found.
use spoki.Prelude.{◌<◌, ◌≡◌, refl, false, ◌||◌, [], ◌∷◌, arith, ◌==◌, if◌then◌else◌, length, All}
use spoki.Prelude.Eq.{nat_has_eq}
use spoki.Prelude.Assoc.{has, find-put, has-put, IsMap, put-IsMap}
use spoki.Net.{Address}
use spoki.Cache.{Entry, default_entry}
use spoki.Cache.RotatingStore.{RotatingStore, insert, contains, at}

-- There is a subset to insert into, and each subset has one entry for each address.
pub record IsValid (s : RotatingStore) : Type 0 where
  pub front : 0 < length s
  pub maps : All IsMap s

insert-IsValid : (a : Address) (e : Entry) (s : RotatingStore) → IsValid s → IsValid (insert a e s)
unfolding insert
insert-IsValid a e [] v = absurd (omega arith)
insert-IsValid a e (d ∷ ds) v = record {
  front = omega arith;
  maps = (put-IsMap a e d v.maps.0, v.maps.1);
}

-- An inserted entry shadows what older subsets hold of its address, and no other address.
at-insert :
    (a b : Address) (e : Entry) (s : RotatingStore)
    → IsValid s
    → (at (insert a e s) b ≡ (if a == b then e else at s b))
      × (contains (insert a e s) b ≡ (a == b || contains s b))
unfolding insert at contains
at-insert a b e [] v = absurd (omega (arith, v.front))
at-insert a b e (d ∷ ds) v = (ground (arith, find-put a b e d), ground (arith, has-put a b e d))

-- `operator[]` answers with the default exactly where `contains` says no entry is there.
pub at_missing : (s : RotatingStore) (a : Address) → contains s a ≡ false → at s a ≡ default_entry
unfolding contains at has
at_missing [] a h = refl
at_missing (d ∷ ds) a h = ground (arith, at_missing ds a)

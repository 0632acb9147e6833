-- ===== src/Cache/Store.antt =====
-- `cache::store` (spoki/libspoki/src/cache/store.cpp, spoki/libspoki/spoki/cache/store.hpp).
pub mod Merge
mod Tests
use spoki.Prelude.{
  ℕ, Bool, true, false, ◌&&◌, Option, none, some, List, [], ◌∷◌, ltb, ◌==◌, if◌then◌else◌, length,
}
use spoki.Prelude.Eq.{nat_has_eq}
use spoki.Prelude.Assoc.{find, put, has}
use spoki.Net.{Address}
use spoki.Cache.{Entry, default_entry}

abbrev pub Store : Type 0
Store = List (Address × Entry)

-- the conflict in `merge(addr, e)`: the newer entry stays, and equal times join the flags
unfoldable pub resolve : Entry → Entry → Entry
resolve existing e =
    if ltb existing.ts e.ts
    then e
    else if existing.ts == e.ts
    then record existing { consistent = existing.consistent && e.consistent }
    else existing

pub contains : Store → Address → Bool
contains s addr = has addr s

-- `operator[]`
pub at : Store → Address → Entry
at s addr = elim (find addr s) [ none ↦ default_entry | some e ↦ e ]

-- `merge(addr, e)`
unfoldable pub merge_entry : Store → Address → Entry → Store
unfolding resolve contains has
merge_entry s addr e = if contains s addr then put addr (resolve (at s addr) e) s else put addr e s

-- `merge(other)`
unfoldable pub merge : Store → Store → Store
merge s [] = s
merge s ((addr, e) ∷ other) = merge (merge_entry s addr e) other

pub size : Store → ℕ
size s = length s

-- `remove_if(pred)`
unfoldable pub remove_if : (Address → Entry → Bool) → Store → Store
remove_if pred [] = []
remove_if pred ((addr, e) ∷ s) =
    let rest = remove_if pred s in if pred addr e then rest else (addr, e) ∷ rest

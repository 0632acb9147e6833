-- ===== src/Cache/RotatingStore.antt =====
-- `cache::rotating_store` (spoki/libspoki/src/cache/rotating_store.cpp and its header).
pub mod Lookup
pub mod Rotation
mod Tests
use spoki.Prelude.{
  none, some, ℕ, suc, ◌+◌, Bool, true, false, List, [], ◌∷◌, ltb, if◌then◌else◌, length, any_of,
  pop_back,
}
use spoki.Prelude.Eq.{nat_has_eq}
use spoki.Prelude.Assoc.{find, put, has}
use spoki.Net.{Address}
use spoki.Cache.{Entry, default_entry}

-- one subset, an `internal_container_type`
abbrev pub Subset : Type 0
Subset = List (Address × Entry)

-- `data_`, the newest subset first
abbrev pub RotatingStore : Type 0
RotatingStore = List Subset

-- the constructor: one empty subset
abbrev pub new : RotatingStore
new = [] ∷ []

-- `data_.front()[addr] = e`; `front` of an empty vector has no meaning, and is left empty here
unfoldable pub insert : Address → Entry → RotatingStore → RotatingStore
insert addr e [] = []
insert addr e (d ∷ ds) = put addr e d ∷ ds

unfoldable pub contains : RotatingStore → Address → Bool
contains s addr = any_of (has addr) s

-- `operator[]`: the first subset that holds the address
unfoldable pub at : RotatingStore → Address → Entry
at [] addr = default_entry
at (d ∷ ds) addr = elim (find addr d) [ none ↦ at ds addr | some e ↦ e ]

unfoldable pub size : RotatingStore → ℕ
size [] = 0
size (d ∷ ds) = length d + size ds

unfoldable pub rotate : ℕ → RotatingStore → RotatingStore
rotate max s = if ltb max (length ([] ∷ s)) then pop_back ([] ∷ s) else [] ∷ s

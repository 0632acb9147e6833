-- ===== src/Ring.antt =====
-- `consistent_hash_map` (spoki/libspoki/spoki/consistent_hash_map.hpp): buckets on a ring of hash
-- values, in the order of the hash values as in the `std::map` behind it.
pub mod Moves
pub mod Walks
mod Tests
use spoki.Prelude.{
  ℕ, zero, suc, ◌+◌, Bool, true, false, not, ◌||◌, Option, none, some, List, [], ◌∷◌, ltb, leb,
  ◌==◌, if◌then◌else◌, length, is_empty, any_of,
}
use spoki.Prelude.Eq.{HasEq}

module _ {ℓ} {T : Type ℓ} where
  -- `insert`: a hash value that is on the ring keeps its bucket
  unfoldable pub insert : ℕ → T → List (ℕ × T) → List (ℕ × T)
  insert k x [] = (k, x) ∷ []
  insert k x ((j, y) ∷ ring) =
      let rest = insert k x ring in
      if ltb k j then (k, x) ∷ (j, y) ∷ ring else if k == j then (j, y) ∷ ring else (j, y) ∷ rest

  -- `lower_bound`: the ring from the first hash value that is not less on
  unfoldable pub lower_bound : ℕ → List (ℕ × T) → List (ℕ × T)
  lower_bound h [] = []
  lower_bound h ((j, y) ∷ ring) =
      let rest = lower_bound h ring in if leb h j then (j, y) ∷ ring else rest

  -- `upper_bound`: from the first that is greater on
  unfoldable pub upper_bound : ℕ → List (ℕ × T) → List (ℕ × T)
  upper_bound h [] = []
  upper_bound h ((j, y) ∷ ring) =
      let rest = upper_bound h ring in if ltb h j then (j, y) ∷ ring else rest

  abbrev pub front : List (ℕ × T) → Option T
  front [] = none
  front (b ∷ bs) = some b.1

  -- `resolve` at the hash value of a key; behind the last bucket the ring begins again
  unfoldable pub resolve : ℕ → List (ℕ × T) → Option T
  unfolding lower_bound
  resolve h ring = if is_empty (lower_bound h ring) then front ring else front (lower_bound h ring)

module _ {ℓ} {T : Type ℓ} ⦃e : HasEq T⦄ where
  -- `erase_all`
  unfoldable pub erase_all : T → List (ℕ × T) → List (ℕ × T)
  erase_all x [] = []
  erase_all x ((j, y) ∷ ring) =
      let rest = erase_all x ring in if e.eq y x then rest else (j, y) ∷ rest

  -- `count`
  unfoldable pub count : T → List (ℕ × T) → ℕ
  count x [] = 0
  count x ((j, y) ∷ ring) = let rest = count x ring in if e.eq y x then suc rest else rest

  -- `insert` on a `std::set`
  unfoldable pub set_insert : T → List T → List T
  set_insert y ys = if any_of (λ z. e.eq z y) ys then ys else y ∷ ys

  -- The loop of `next`, with `rest` from the iterator to the end of the ring; `none` if it is still
  -- running when the fuel is used up.
  unfoldable pub next_loop : ℕ → List (ℕ × T) → List (ℕ × T) → ℕ → T → ℕ → List T → Option (List T)
  unfolding set_insert
  next_loop zero ring rest origin x n result = none
  next_loop (suc fuel) ring [] origin x n result = none
  next_loop (suc fuel) ring ((j, y) ∷ rest) origin x n result =
      let result' = if e.eq y x then result else set_insert y result in
      let going = next_loop fuel ring (if is_empty rest then ring else rest) origin x n result' in
      if j == origin || leb n (length result) then some result else going

  -- `next`, where `origin` is the hash of `x`
  unfoldable pub next : ℕ → List (ℕ × T) → ℕ → T → ℕ → Option (List T)
  unfolding next_loop upper_bound
  next fuel ring origin x n =
      let from = upper_bound origin ring in
      if is_empty ring
      then some []
      else next_loop fuel ring (if is_empty from then ring else from) origin x n []

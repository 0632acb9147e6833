-- ===== src/Ring/Moves.antt =====
-- Which keys move when a bucket comes or goes (spoki/libspoki/spoki/consistent_hash_map.hpp).
use spoki.Prelude.{
  ℕ, ◌≡◌, refl, Bool, true, false, ◌&&◌, ◌||◌, some, List, [], ◌∷◌, arith, ltb, leb, ◌==◌, Option,
  sym, ap, ◌∙◌, if◌then◌else◌, is_empty, all_of,
}
use spoki.Prelude.Eq.{HasEq}
use spoki.Ring.{insert, lower_bound, front, resolve, erase_all}

-- as a `std::map` is: the hash values grow
abbrev pub IsSorted {ℓ} : {T : Type ℓ} → List (ℕ × T) → Type 0
IsSorted [] = Unit
IsSorted (b ∷ ring) = (all_of (λ c. ltb b.0 c.0) ring ≡ true) × IsSorted ring

-- that on the way up from `h`, around the ring if need be, `k` comes before `j`
abbrev pub nearer : ℕ → ℕ → ℕ → Bool
nearer h k j = if leb h k then ltb j h || ltb k j else ltb j h && ltb k j

-- that it comes before all buckets
abbrev pub first_from {ℓ} : {T : Type ℓ} → ℕ → ℕ → List (ℕ × T) → Bool
first_from h k ring = all_of (λ b. nearer h k b.0) ring

module _ {ℓ} {T : Type ℓ} where
  all_beyond :
      (h k j : ℕ) (ring : List (ℕ × T))
      → leb h k ≡ true
      → ltb k j ≡ true
      → all_of (λ c. ltb j c.0) ring ≡ true
      → first_from h k ring ≡ true
  all_beyond h k j [] l m s = refl
  all_beyond h k j (b ∷ ring) l m s = ground (arith, l, m, s, all_beyond h k j ring l m)

  all_above :
      (k j : ℕ) (ring : List (ℕ × T))
      → ltb k j ≡ true
      → all_of (λ c. ltb j c.0) ring ≡ true
      → all_of (λ c. ltb k c.0) ring ≡ true
  all_above k j [] m s = refl
  all_above k j (b ∷ ring) m s = ground (arith, m, s, all_above k j ring m)

  -- a bucket that is inserted ahead of `h`
  Ahead : ℕ → ℕ → T → List (ℕ × T) → Type ℓ
  Ahead h k x ring =
      (front (lower_bound h (insert k x ring))
        ≡ (if first_from h k ring then some x else front (lower_bound h ring)))
      × (is_empty (lower_bound h (insert k x ring)) ≡ false)
      × (first_from h k ring ≡ false → is_empty (lower_bound h ring) ≡ false)

  insert-front :
      (h k j : ℕ) (x y : T) (ring : List (ℕ × T))
      → leb h k ≡ true
      → (ltb k j ≡ true → first_from h k ring ≡ true)
      → front (lower_bound h (insert k x ring))
        ≡ (if first_from h k ring then some x else front (lower_bound h ring))
      → front (lower_bound h (insert k x ((j, y) ∷ ring)))
        ≡ (if first_from h k ((j, y) ∷ ring) then some x else front (lower_bound h ((j, y) ∷ ring)))
  unfolding lower_bound insert
  insert-front h k j x y ring l beyond f = by_place (ltb k j) refl (k == j) refl
    where
      both : Bool
      both = nearer h k j && first_from h k ring

      old : Option T
      old = front (if leb h j then (j, y) ∷ ring else lower_bound h ring)

      ahead :
          (c : Bool)
          → leb h j ≡ c
          → ltb k j ≡ false
          → (k == j) ≡ false
          → front (if c then (j, y) ∷ insert k x ring else lower_bound h (insert k x ring))
            ≡ (if both then some x else front (if c then (j, y) ∷ ring else lower_bound h ring))
      ahead true q a b =
          let no : both ≡ false = ground (arith, l, q, a, b) in
          ap (λ d. if d then some x else some y) (sym no)
      ahead false q a b =
          let same : both ≡ first_from h k ring = ground (arith, l, q, a, b) in
          f ∙ ap (λ d. if d then some x else front (lower_bound h ring)) (sym same)

      by_place :
          (a : Bool)
          → ltb k j ≡ a
          → (b : Bool) → (k == j) ≡ b
          → front (
              lower_bound h (
                if a
                then (k, x) ∷ (j, y) ∷ ring
                else if b
                then (j, y) ∷ ring
                else (j, y) ∷ insert k x ring))
            ≡ (if both then some x else old)
      by_place true a b q =
          let yes : both ≡ true = ground (arith, l, a, beyond a) in
          ap (λ c. front (if c then (k, x) ∷ (j, y) ∷ ring else lower_bound h ((j, y) ∷ ring))) l
          ∙ ap (λ d. if d then some x else old) (sym yes)
      by_place false a true b =
          let no : both ≡ false = ground (arith, l, a, b) in
          ap (λ d. if d then some x else old) (sym no)
      by_place false a false b = ahead (leb h j) refl a b

  insert-Ahead :
      (h k : ℕ) (x : T) (ring : List (ℕ × T)) → leb h k ≡ true → IsSorted ring → Ahead h k x ring
  unfolding Ahead lower_bound insert
  insert-Ahead h k x [] l s = (ground (arith, l), ground (arith, l), ground arith)
  insert-Ahead h k x ((j, y) ∷ ring) l s =
      let (f, e, n) = insert-Ahead h k x ring l s.1 in
      let beyond : ltb k j ≡ true → first_from h k ring ≡ true =
        λ m. all_beyond h k j ring l m s.0 in
      (insert-front h k j x y ring l beyond f, ground (arith, l, e), ground (arith, l, n, beyond))

  -- and behind it: it is not seen from `h` on, and may be the first of the ring
  lower_bound-behind :
      (h k : ℕ) (x : T) (ring : List (ℕ × T))
      → leb h k ≡ false
      → (front (lower_bound h (insert k x ring)) ≡ front (lower_bound h ring))
        × (is_empty (lower_bound h (insert k x ring)) ≡ is_empty (lower_bound h ring))
  unfolding lower_bound insert
  lower_bound-behind h k x [] l = (ground (arith, l), ground (arith, l))
  lower_bound-behind h k x ((j, y) ∷ ring) l =
      let (f, e) = lower_bound-behind h k x ring l in (ground (arith, l, f), ground (arith, l, e))

  front-insert :
      (k : ℕ) (x : T) (ring : List (ℕ × T))
      → IsSorted ring
      → front (insert k x ring) ≡ (if all_of (λ b. ltb k b.0) ring then some x else front ring)
  unfolding insert
  front-insert k x [] s = refl
  front-insert k x ((j, y) ∷ ring) s =
      let above : ltb k j ≡ true → all_of (λ c. ltb k c.0) ring ≡ true =
        λ m. all_above k j ring m s.0 in
      ground (arith, above)

  lower_bound-empty :
      (h : ℕ) (ring : List (ℕ × T)) → is_empty (lower_bound h ring) ≡ all_of (λ b. ltb b.0 h) ring
  unfolding lower_bound
  lower_bound-empty h [] = refl
  lower_bound-empty h ((j, y) ∷ ring) = ground (arith, lower_bound-empty h ring)

  first_from-behind :
      (h k : ℕ) (ring : List (ℕ × T))
      → leb h k ≡ false
      → first_from h k ring ≡ (all_of (λ b. ltb b.0 h) ring && all_of (λ b. ltb k b.0) ring)
  first_from-behind h k [] l = refl
  first_from-behind h k (b ∷ ring) l = ground (arith, l, first_from-behind h k ring l)

  -- A new bucket takes over exactly the keys from which its hash value is the first on the way up,
  -- around the ring if need be; all other keys resolve as before. A hash value that is on the ring
  -- already takes over none.
  pub resolve-insert :
      (h k : ℕ) (x : T) (ring : List (ℕ × T))
      → IsSorted ring
      → resolve h (insert k x ring) ≡ (if first_from h k ring then some x else resolve h ring)
  unfolding resolve
  resolve-insert h k x ring s = by_side (leb h k) refl
    where
      by_side :
          (c : Bool)
          → leb h k ≡ c
          → resolve h (insert k x ring) ≡ (if first_from h k ring then some x else resolve h ring)
      by_side true l =
          unfold Ahead in let (f, e, n) = insert-Ahead h k x ring l s in ground (arith, f, e, n)
      by_side false l =
          let (f, e) = lower_bound-behind h k x ring l in
          ground (
            arith,
            f,
            e,
            front-insert k x ring s,
            lower_bound-empty h ring,
            first_from-behind h k ring l,
          )

module _ {ℓ} {T : Type ℓ} ⦃e : HasEq T⦄ where
  lower_bound-erase_all :
      (h : ℕ) (x y : T) (ring : List (ℕ × T))
      → e.eq y x ≡ false
      → front (lower_bound h ring) ≡ some y
      → (front (lower_bound h (erase_all x ring)) ≡ some y)
        × (is_empty (lower_bound h (erase_all x ring)) ≡ false)
  unfolding lower_bound erase_all
  lower_bound-erase_all h x y [] n q = ground arith
  lower_bound-erase_all h x y ((j, z) ∷ ring) n q = ground (arith, lower_bound-erase_all h x y ring)

  erased-empty :
      (h : ℕ) (x : T) (ring : List (ℕ × T))
      → is_empty (lower_bound h ring) ≡ true
      → is_empty (lower_bound h (erase_all x ring)) ≡ true
  unfolding lower_bound erase_all
  erased-empty h x [] q = refl
  erased-empty h x ((j, z) ∷ ring) q = ground (arith, erased-empty h x ring)

  front-erase_all :
      (x y : T) (ring : List (ℕ × T))
      → e.eq y x ≡ false
      → front ring ≡ some y
      → front (erase_all x ring) ≡ some y
  unfolding erase_all
  front-erase_all x y [] n q = q
  front-erase_all x y ((j, z) ∷ ring) n q = ground arith

  -- When all entries of a bucket are erased, the keys of the other buckets stay where they are.
  resolve-erase_all :
      (h : ℕ) (x y : T) (ring : List (ℕ × T))
      → e.eq y x ≡ false
      → resolve h ring ≡ some y
      → resolve h (erase_all x ring) ≡ some y
  unfolding resolve
  resolve-erase_all h x y ring n q =
      ground (
        arith,
        lower_bound-erase_all h x y ring n,
        erased-empty h x ring,
        front-erase_all x y ring n,
      )

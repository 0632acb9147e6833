-- ===== src/Ring/Walks.antt =====
-- When the walk of `next` ends (spoki/libspoki/spoki/consistent_hash_map.hpp).
use spoki.Prelude.{
  ℕ, zero, suc, ◌+◌, ◌≤◌, ◌≡◌, refl, Bool, true, false, ◌||◌, Option, none, some, List, [], ◌∷◌,
  arith, leb, ◌==◌, if-cases, is_empty, length, any_of, all_of,
}
use spoki.Prelude.Eq.{HasEq}
use spoki.Ring.{upper_bound, next_loop, next}

abbrev pub on_ring {ℓ} : {T : Type ℓ} → ℕ → List (ℕ × T) → Bool
on_ring h ring = any_of (λ b. b.0 == h) ring

abbrev pub Ends {ℓ} : {T : Type ℓ} → Option (List T) → Type ℓ
Ends {T = T} o = (result : List T) × (o ≡ some result)

module _ {ℓ} {T : Type ℓ} ⦃e : HasEq T⦄ where
  -- towards a hash value ahead
  next_loop-ahead :
      (fuel : ℕ) (ring rest : List (ℕ × T)) (origin : ℕ) (x : T) (n : ℕ) (result : List T)
      → on_ring origin rest ≡ true
      → length rest ≤ fuel
      → Ends (next_loop fuel ring rest origin x n result)
  unfolding next_loop
  next_loop-ahead zero ring [] origin x n result h l = ground arith
  next_loop-ahead zero ring (b ∷ rest) origin x n result h l = ground arith
  next_loop-ahead (suc fuel) ring [] origin x n result h l = ground arith
  next_loop-ahead (suc fuel) ring ((j, y) ∷ []) origin x n result h l =
      if-cases Ends (j == origin || leb n (length result)) (λ t. (result, refl)) (λ t. ground arith)
  next_loop-ahead (suc fuel) ring ((j, y) ∷ b ∷ rest) origin x n result h l =
      if-cases Ends (j == origin || leb n (length result)) (λ t. (result, refl))
        (λ t. next_loop-ahead fuel ring (b ∷ rest) origin x n _ (ground arith) (omega (arith, l)))

  next_loop-Ends :
      (fuel : ℕ) (ring rest : List (ℕ × T)) (origin : ℕ) (x : T) (n : ℕ) (result : List T)
      → on_ring origin ring ≡ true
      → is_empty rest ≡ false
      → length rest + length ring ≤ fuel
      → Ends (next_loop fuel ring rest origin x n result)
  unfolding next_loop
  next_loop-Ends fuel ring [] origin x n result h r l = ground arith
  next_loop-Ends zero ring (b ∷ rest) origin x n result h r l = ground arith
  next_loop-Ends (suc fuel) ring ((j, y) ∷ []) origin x n result h r l =
      if-cases Ends (j == origin || leb n (length result)) (λ t. (result, refl))
        (λ t. next_loop-ahead fuel ring ring origin x n _ h (omega (arith, l)))
  next_loop-Ends (suc fuel) ring ((j, y) ∷ b ∷ rest) origin x n result h r l =
      if-cases Ends (j == origin || leb n (length result)) (λ t. (result, refl))
        (λ t. next_loop-Ends fuel ring (b ∷ rest) origin x n _ h refl (omega (arith, l)))

  length-upper_bound : (h : ℕ) (ring : List (ℕ × T)) → length (upper_bound h ring) ≤ length ring
  unfolding upper_bound
  length-upper_bound h [] = omega arith
  length-upper_bound h ((j, y) ∷ ring) = ground (arith, length-upper_bound h ring)

  -- The walk ends within two rounds when the hash of `x` is on the ring.
  pub next-Ends :
      (ring : List (ℕ × T)) (origin : ℕ) (x : T) (n : ℕ)
      → on_ring origin ring ≡ true
      → Ends (next (length ring + length ring) ring origin x n)
  unfolding next
  next-Ends [] origin x n h = ground arith
  next-Ends (b ∷ bs) origin x n h =
      let ring = b ∷ bs in
      let from = upper_bound origin ring in
      if-cases
        (λ (r : List (ℕ × T)). Ends (next_loop (length ring + length ring) ring r origin x n []))
        (is_empty from) (λ t. next_loop-Ends _ ring ring origin x n [] h refl (omega arith))
        (λ t.
          next_loop-Ends _ ring from origin x n [] h t
            (omega (arith, length-upper_bound origin ring)))

  next_loop-stuck :
      (fuel : ℕ) (ring rest : List (ℕ × T)) (origin : ℕ) (x : T) (n : ℕ)
      → on_ring origin ring ≡ false
      → all_of (λ b. e.eq b.1 x) ring ≡ true
      → on_ring origin rest ≡ false
      → all_of (λ b. e.eq b.1 x) rest ≡ true
      → next_loop fuel ring rest origin x (suc n) [] ≡ none
  unfolding next_loop
  next_loop-stuck zero ring rest origin x n h a g b = refl
  next_loop-stuck (suc fuel) ring [] origin x n h a g b = refl
  next_loop-stuck (suc fuel) ring ((j, y) ∷ []) origin x n h a g b =
      ground (arith, next_loop-stuck fuel ring ring origin x n h a h a)
  next_loop-stuck (suc fuel) ring ((j, y) ∷ c ∷ rest) origin x n h a g b =
      ground (arith, next_loop-stuck fuel ring (c ∷ rest) origin x n h a)

  upper_bound-all :
      (h : ℕ) (ring : List (ℕ × T)) (p : ℕ × T → Bool)
      → all_of p ring ≡ true
      → all_of p (upper_bound h ring) ≡ true
  unfolding upper_bound
  upper_bound-all h [] p a = refl
  upper_bound-all h ((j, y) ∷ ring) p a = ground (arith, upper_bound-all h ring p)

  upper_bound-off :
      (h o : ℕ) (ring : List (ℕ × T))
      → on_ring o ring ≡ false
      → on_ring o (upper_bound h ring) ≡ false
  unfolding upper_bound
  upper_bound-off h o [] a = refl
  upper_bound-off h o ((j, y) ∷ ring) a = ground (arith, upper_bound-off h o ring)

  -- The walk never ends when the hash of `x` is not on the ring, all its buckets are of `x`, and at
  -- least one other bucket is asked for: no fuel is enough.
  next-stuck :
      (fuel : ℕ) (b : ℕ × T) (bs : List (ℕ × T)) (origin : ℕ) (x : T) (n : ℕ)
      → on_ring origin (b ∷ bs) ≡ false
      → all_of (λ b. e.eq b.1 x) (b ∷ bs) ≡ true
      → next fuel (b ∷ bs) origin x (suc n) ≡ none
  unfolding next
  next-stuck fuel b bs origin x n h a =
      let ring = b ∷ bs in
      if-cases (λ (r : List (ℕ × T)). next_loop fuel ring r origin x (suc n) [] ≡ none)
        (is_empty (upper_bound origin ring))
        (λ t. next_loop-stuck fuel ring ring origin x n h a h a)
        (λ t.
          next_loop-stuck fuel ring (upper_bound origin ring) origin x n h a
            (upper_bound-off origin origin ring h) (upper_bound-all origin ring _ a))

-- ===== src/Cache/RotatingStore/Rotation.antt =====
-- How long entries live: rotations as a window over the history of subsets.
use spoki.Prelude.{
  ℕ, zero, suc, ◌+◌, ◌≤◌, ◌<◌, ◌≡◌, refl, sym, ap, ◌∙◌, false, some, List, [], ◌∷◌, arith, ltb,
  if◌then◌else◌, length, take, pop_back, length-pop_back,
}
use spoki.Prelude.Eq.{nat_has_eq}
use spoki.Prelude.Assoc.{find, put, has, find-put}
use spoki.Net.{Address}
use spoki.Cache.{Entry}
use spoki.Cache.RotatingStore.{Subset, RotatingStore, insert, contains, at, rotate}

-- `n` calls of `rotate(max)`
pub rotate_times : ℕ → ℕ → RotatingStore → RotatingStore
rotate_times zero max s = s
rotate_times (suc n) max s = rotate_times n max (rotate max s)

-- `n` empty subsets in front
abbrev pub pad : ℕ → RotatingStore → RotatingStore
pad zero s = s
pad (suc n) s = [] ∷ pad n s

take_all {ℓ} : {A : Type ℓ} (n : ℕ) (xs : List A) → length xs ≤ n → take n xs ≡ xs
take_all zero [] h = refl
take_all zero (x ∷ xs) h = absurd (omega arith)
take_all (suc n) [] h = refl
take_all (suc n) (x ∷ xs) h = ap (◌∷◌ x) (take_all n xs (omega arith))

pop_back-take {ℓ} : {A : Type ℓ} (n : ℕ) (xs : List A) → length xs ≡ suc n → pop_back xs ≡ take n xs
pop_back-take n [] h = absurd (omega arith)
pop_back-take zero (x ∷ []) h = refl
pop_back-take (suc n) (x ∷ []) h = absurd (omega arith)
pop_back-take zero (x ∷ y ∷ ys) h = absurd (omega arith)
pop_back-take (suc n) (x ∷ y ∷ ys) h = ap (◌∷◌ x) (pop_back-take n (y ∷ ys) (omega arith))

rotate-take : (max : ℕ) (s : RotatingStore) → length s ≤ max → rotate max s ≡ take max ([] ∷ s)
unfolding rotate
rotate-take max s h = ground (arith, take_all max ([] ∷ s), pop_back-take max ([] ∷ s))

take-take_le {ℓ} : {A : Type ℓ} (m n : ℕ) (xs : List A) → m ≤ n → take m (take n xs) ≡ take m xs
take-take_le zero n xs h = refl
take-take_le (suc m) zero xs h = absurd (omega arith)
take-take_le (suc m) (suc n) [] h = refl
take-take_le (suc m) (suc n) (x ∷ xs) h = ap (◌∷◌ x) (take-take_le m n xs (omega arith))

take-pad-take :
    (m n max : ℕ) (s : RotatingStore) → m ≤ max → take m (pad n (take max s)) ≡ take m (pad n s)
take-pad-take m zero max s h = take-take_le m max s h
take-pad-take zero (suc n) max s h = refl
take-pad-take (suc m) (suc n) max s h = ap (◌∷◌ []) (take-pad-take m n max s (omega arith))

pad-cons : (n : ℕ) (s : RotatingStore) → pad n ([] ∷ s) ≡ [] ∷ pad n s
pad-cons zero s = refl
pad-cons (suc n) s = ap (◌∷◌ []) (pad-cons n s)

length-take_le {ℓ} : {A : Type ℓ} (n : ℕ) (xs : List A) → length (take n xs) ≤ n
length-take_le zero xs = omega arith
length-take_le (suc n) [] = omega arith
length-take_le (suc n) (x ∷ xs) = omega (arith, length-take_le n xs)

-- Rotations are a window: `n` rotations put `n` empty subsets in front and keep the `max` newest.
rotate_times-take :
    (n max : ℕ) (s : RotatingStore) → length s ≤ max → rotate_times n max s ≡ take max (pad n s)
unfolding rotate_times
rotate_times-take zero max s h = sym (take_all max s h)
rotate_times-take (suc n) max s h = rw (rotate-take max s h) (
    rotate_times-take n max (take max ([] ∷ s)) (length-take_le max ([] ∷ s))
    ∙ take-pad-take max n max ([] ∷ s) (omega arith)
    ∙ ap (take max) (pad-cons n s))

at_window :
    (n m : ℕ) (a : Address) (e : Entry) (d : Subset) (ds : RotatingStore)
    → n < m
    → find a d ≡ some e
    → at (take m (pad n (d ∷ ds))) a ≡ e
unfolding at find
at_window n zero a e d ds h f = absurd (omega arith)
at_window zero (suc m) a e d ds h f = ground arith
at_window (suc n) (suc m) a e d ds h f = at_window n m a e d ds (omega arith) f

contains_window :
    (n m : ℕ) (a : Address) (s : RotatingStore) → m ≤ n → contains (take m (pad n s)) a ≡ false
unfolding contains has find
contains_window n zero a s h = refl
contains_window zero (suc m) a s h = absurd (omega arith)
contains_window (suc n) (suc m) a s h = contains_window n m a s (omega arith)

-- In a store of at least one subset and at most `max`, an entry that is inserted is found until the
-- store has been rotated `max` times, and then nothing of that time is left.
pub entry_lifetime :
    (n max : ℕ) (a b : Address) (e : Entry) (s : RotatingStore)
    → 0 < length s
    → length s ≤ max
    → (n < max → at (rotate_times n max (insert a e s)) a ≡ e)
      × (max ≤ n → contains (rotate_times n max (insert a e s)) b ≡ false)
unfolding insert
entry_lifetime n max a b e [] h k = absurd (omega arith)
entry_lifetime n max a b e (d ∷ ds) h k = (
  λ early.
      rw (rotate_times-take n max (put a e d ∷ ds) k)
        (at_window n max a e (put a e d) ds early (found a e d)),
  λ late.
      rw (rotate_times-take n max (put a e d ∷ ds) k)
        (contains_window n max b (put a e d ∷ ds) late),
)
  where
    found : (a : Address) (e : Entry) (d : Subset) → find a (put a e d) ≡ some e
    found a e d = ground (arith, find-put a a e d)

-- A rotation grows the store below `max` subsets and keeps its size otherwise, so a store that
-- was filled under a larger `max` never shrinks.
length-rotate :
    (max : ℕ) (s : RotatingStore)
    → 0 < length s
    → length (rotate max s) ≡ (if ltb (length s) max then length s + 1 else length s)
unfolding rotate
length-rotate max s h = ground (arith, length-pop_back ([] ∷ s))

-- ===== src/Prelude/Assoc.antt =====
-- `std::unordered_map` and `std::unordered_set` as association lists with one entry for each key.
-- The programs never depend on the order of iteration, except in the text that they print.
use Prim.Native.Nat.{suc}
use mathlib.Core.Path.{◌≡◌, refl}
use mathlib.Core.Bool.{Bool, true, false, ◌||◌}
use mathlib.Core.Option.{Option, none, some}
use mathlib.Core.List.{List, [], ◌∷◌}
use native.Mathlib.Omega.{arith}
use spoki.Prelude.Tests.{if◌then◌else◌}
use spoki.Prelude.Lists.{length}
use spoki.Prelude.Eq.{HasEq}

module _ {ℓ κ} {K : Type ℓ} {V : Type κ} ⦃e : HasEq K⦄ where
  -- `find`, `at`
  unfoldable pub find : K → List (K × V) → Option V
  find k [] = none
  find k ((j, v) ∷ m) = if e.eq j k then some v else find k m

  -- `m[k] = v`: an entry that is there is overwritten in place
  unfoldable pub put : K → V → List (K × V) → List (K × V)
  put k v [] = (k, v) ∷ []
  put k v ((j, w) ∷ m) = if e.eq j k then (j, v) ∷ m else (j, w) ∷ put k v m

  -- `m.erase(k)`
  unfoldable pub erase : K → List (K × V) → List (K × V)
  erase k [] = []
  erase k ((j, v) ∷ m) = let rest = erase k m in if e.eq j k then rest else (j, v) ∷ rest

  -- `m.count(k) > 0`
  unfoldable pub has : K → List (K × V) → Bool
  has k m = elim (find k m) [ none ↦ false | some v ↦ true ]

  pub find-put :
      (k j : K) (v : V) (m : List (K × V))
      → find j (put k v m) ≡ (if e.eq k j then some v else find j m)
  unfolding find put
  find-put k j v [] = refl
  find-put k j v ((i, w) ∷ m) =
      ground (arith, e.eq_iff k j, e.eq_iff i k, e.eq_iff i j, find-put k j v m)

  pub find-erase :
      (k j : K) (m : List (K × V)) → find j (erase k m) ≡ (if e.eq k j then none else find j m)
  unfolding find erase
  find-erase k j [] = ground arith
  find-erase k j ((i, w) ∷ m) =
      ground (arith, e.eq_iff k j, e.eq_iff i k, e.eq_iff i j, find-erase k j m)

  pub has-put : (k j : K) (v : V) (m : List (K × V)) → has j (put k v m) ≡ (e.eq k j || has j m)
  unfolding has
  has-put k j v m = ground (arith, find-put k j v m)

  pub length-put :
      (k : K) (v : V) (m : List (K × V))
      → length (put k v m) ≡ (if has k m then length m else suc (length m))
  unfolding put has find
  length-put k v [] = refl
  length-put k v ((j, w) ∷ m) = ground (arith, length-put k v m)

  -- Every key has one entry.
  abbrev pub IsMap : List (K × V) → Type (ℓ ⊔ κ)
  IsMap [] = Unit
  IsMap ((k, v) ∷ m) = (find k m ≡ none) × IsMap m

  pub put-IsMap : (k : K) (v : V) (m : List (K × V)) → IsMap m → IsMap (put k v m)
  unfolding put find
  put-IsMap k v [] h = (refl, tt)
  put-IsMap k v ((j, w) ∷ m) h =
      ground (arith, put-IsMap k v m h.1, find-put k j v m, e.eq_iff j k, e.eq_iff k j)

  pub erase-IsMap : (k : K) (m : List (K × V)) → IsMap m → IsMap (erase k m)
  unfolding erase find
  erase-IsMap k [] h = tt
  erase-IsMap k ((j, w) ∷ m) h = ground (arith, erase-IsMap k m h.1, find-erase k j m, e.eq_iff j k)

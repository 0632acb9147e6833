-- ===== src/Analysis/Classify/Counters.antt =====
-- How `trivial` classifies hosts that draw their identifiers from one counter.
use spoki.Prelude.{
  ℕ, ◌+◌, ◌%◌, ◌≤◌, ◌<◌, ◌≡◌, refl, false, List, [], ◌∷◌, ◌⊎◌, ◌↔◌, arith, ltb, length, All, any_of,
}
use spoki.Net.{Packet}
use spoki.Analysis.{Task, task, constant, monotonic}
use spoki.Analysis.Ipid.{distances_from, ipid_distances, diff-eq-dist, dist-counter, dist-eq-zero}
use spoki.Analysis.Classify.{by_distances, trivial, tolerance_value, random_threshold}

-- The packets carry the values of one counter, which moves on by the given steps.
abbrev pub Counts : ℕ → List ℕ → List Packet → Type 0
Counts id [] [] = Unit
Counts id [] (p ∷ ps) = ⊥
Counts id (k ∷ ks) [] = ⊥
Counts id (k ∷ ks) (p ∷ ps) = (p.ipid ≡ (id + k) % 65536) × Counts p.ipid ks ps

distances_from-le :
    (id : ℕ) (ks : List ℕ) (ps : List Packet)
    → id < 65536
    → Counts id ks ps
    → All (λ k. k ≤ tolerance_value) ks
    → All (λ d. d ≤ tolerance_value) (distances_from id ps)
unfolding distances_from
distances_from-le id [] [] h c a = tt
distances_from-le id [] (p ∷ ps) h c a = absurd c
distances_from-le id (k ∷ ks) [] h c a = absurd c
distances_from-le id (k ∷ ks) (p ∷ ps) h c a = (
  ground (arith, diff-eq-dist id p.ipid, dist-counter id k, a.0),
  distances_from-le p.ipid ks ps (omega arith) c.1 a.1,
)

any_of_le :
    (t m : ℕ) (ds : List ℕ) → t ≤ m → All (λ d. d ≤ t) ds → any_of (λ val. ltb m val) ds ≡ false
any_of_le t m [] h a = refl
any_of_le t m (d ∷ ds) h a = ground (arith, any_of_le t m ds h a.1)

by_distances_le :
    (ds : List ℕ)
    → All (λ d. d ≤ tolerance_value) ds
    → (by_distances ds ≡ constant) ⊎ (by_distances ds ≡ monotonic)
unfolding by_distances
by_distances_le ds a = ground (
  arith,
  any_of_le tolerance_value random_threshold ds (omega arith) a,
  any_of_le tolerance_value tolerance_value ds (omega arith) a,
)

-- A host whose counter moves on by at most the tolerance between two packets, wrapped around or
-- not, is classified as constant or monotonic.
trivial-counter :
    (ev : Task) (p : Packet) (ks : List ℕ) (ps : List Packet)
    → ev.packets ≡ p ∷ ps
    → 0 < length ps
    → p.ipid < 65536
    → Counts p.ipid ks ps
    → All (λ k. k ≤ tolerance_value) ks
    → (trivial ev ≡ constant) ⊎ (trivial ev ≡ monotonic)
unfolding trivial ipid_distances
trivial-counter ev p ks ps e n h c a =
    ground (arith, by_distances_le (distances_from p.ipid ps), distances_from-le p.ipid ks ps h c a)

-- Two packets count as constant for one more pair than the equal ones: a counter that steps from
-- its largest value to 0.
trivial-constant_pair :
    (initial p q : Packet)
    → p.ipid < 65536
    → q.ipid < 65536
    → (trivial (task initial (p ∷ q ∷ [])) ≡ constant)
      ↔ ((p.ipid ≡ q.ipid) ⊎ ((p.ipid ≡ 65535) × (q.ipid ≡ 0)))
unfolding trivial ipid_distances
trivial-constant_pair initial p q hp hq = (
  λ h. ground (arith, diff-eq-dist p.ipid q.ipid, dist-eq-zero p.ipid q.ipid),
  λ h. ground (arith, diff-eq-dist p.ipid q.ipid, dist-eq-zero p.ipid q.ipid),
)

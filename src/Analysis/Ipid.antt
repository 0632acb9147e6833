-- ===== src/Analysis/Ipid.antt =====
-- Distances between IP identifiers: `dist` of spoki/libspoki/spoki/analysis/consistency.hpp and
-- `ipid_distances` of spoki/libspoki/src/analysis/classify.cpp.
use spoki.Prelude.{ℕ, ◌+◌, ◌-◌, ◌%◌, ◌<◌, ◌≡◌, ◌⊎◌, ◌↔◌, List, [], ◌∷◌, arith, ltb, if◌then◌else◌}
use spoki.Prelude.Words.{u16, sub16}
use spoki.Prelude.Int.{ℤ, pos, negsuc, sub_ℕ}
use spoki.Net.{Packet}

-- `numeric_limits<uint16_t>::max()`
abbrev pub u16_max : ℕ
u16_max = 65535

unfoldable pub dist : ℕ → ℕ → ℕ
dist lhs rhs = let res = sub16 rhs lhs in if ltb rhs lhs then u16 (res + u16_max) else res

-- an `int` that is stored as a `uint16_t`
abbrev narrow : ℤ → ℕ
narrow (pos n) = u16 n
narrow (negsuc n) = 65535 - u16 n

-- `diff` of `ipid_distances`; `distance` is an `int`
unfoldable pub diff : ℕ → ℕ → ℕ
diff lhs rhs = if ltb rhs lhs then narrow (sub_ℕ (rhs + u16_max) lhs) else narrow (sub_ℕ rhs lhs)

unfoldable pub distances_from : ℕ → List Packet → List ℕ
distances_from prev [] = []
distances_from prev (p ∷ ps) = diff prev p.ipid ∷ distances_from p.ipid ps

-- `transform` over the neighbours
unfoldable pub ipid_distances : List Packet → List ℕ
unfolding distances_from diff
ipid_distances [] = []
ipid_distances (p ∷ ps) = distances_from p.ipid ps

-- The two distances agree.
pub diff-eq-dist : (l r : ℕ) → l < 65536 → r < 65536 → diff l r ≡ dist l r
unfolding diff dist
diff-eq-dist l r hl hr = ground arith

-- A counter that moves on by `k` has that distance, but one less once it wraps around.
pub dist-counter :
    (l k : ℕ)
    → l < 65536
    → k < 65536
    → dist l ((l + k) % 65536) ≡ (if ltb (l + k) 65536 then k else k - 1)
unfolding dist
dist-counter l k hl hk = ground arith

-- So the distance is 0 for equal identifiers, and for the step from the largest to 0.
pub dist-eq-zero :
    (l r : ℕ) → l < 65536 → r < 65536 → (dist l r ≡ 0) ↔ ((l ≡ r) ⊎ ((l ≡ 65535) × (r ≡ 0)))
unfolding dist
dist-eq-zero l r hl hr = (ground arith, ground arith)

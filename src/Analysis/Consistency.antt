-- ===== src/Analysis/Consistency.antt =====
-- `threshold_test`, `monotonicity_test`, `delta_A` and `check_interval` of
-- spoki/libspoki/src/analysis/consistency.cpp.
use spoki.Prelude.{
  ℕ, ◌+◌, ◌-◌, ◌%◌, ◌≤◌, ◌<◌, ◌≡◌, Bool, true, false, not, ◌&&◌, [], ◌∷◌, arith, Option, none, some,
  ltb, leb, is_empty, if◌then◌else◌,
}
use spoki.Prelude.Words.{u16, sub16}
use spoki.Prelude.Int.{sub_ℕ, leb_ℤ}
use spoki.Analysis.{Classification, Task}
use spoki.Analysis.Ipid.{dist, u16_max}

abbrev pub ipid_threshold : ℕ
ipid_threshold = 8000

abbrev pub is_monotonic : Classification → Bool
is_monotonic Classification.monotonic = true
is_monotonic _ = false

unfoldable pub monotonicity_test : Task → Bool
monotonicity_test ev = not (is_empty ev.packets) && is_monotonic ev.type

-- the test on the trigger's identifier and the first probe's
unfoldable pub within_threshold : ℕ → ℕ → Bool
within_threshold tr pr =
    if leb tr pr
    then ltb (dist tr pr) ipid_threshold
    else ltb (u16_max - ipid_threshold) (dist pr tr)

-- `none` where `front` is called on no packets
unfoldable pub threshold_test : Task → Option Bool
unfolding within_threshold
threshold_test ev = elim ev.packets [
  | [] ↦ none
  | p ∷ ps ↦ some (within_threshold ev.initial.ipid p.ipid)
]

-- `actual`, and the prediction and the interval as the `uint16_t` that they become; the last line
-- subtracts in `int`
unfoldable pub check_interval : ℕ → ℕ → ℕ → Bool
check_interval actual upred uival =
    let upper = u16 (upred + uival) in
    let lower = sub16 upred uival in leb_ℤ (sub_ℕ actual lower) (sub_ℕ upper lower)

-- The test as the comment on it means it: the subtractions wrap.
pub in_interval : ℕ → ℕ → ℕ → Bool
in_interval actual upred uival =
    let upper = u16 (upred + uival) in
    let lower = sub16 upred uival in leb (sub16 actual lower) (sub16 upper lower)

-- The lower end plays no part: the check is a comparison with the upper end. It differs from the
-- interval for every value below an interval that does not wrap.
check_interval-upper :
    (actual p i : ℕ)
    → actual < 65536
    → p < 65536
    → i < 65536
    → (check_interval actual p i ≡ leb actual (u16 (p + i)))
      × (i ≤ p
          → p + i < 65536
          → actual < p - i
          → (check_interval actual p i ≡ true) × (in_interval actual p i ≡ false))
unfolding check_interval in_interval
check_interval-upper actual p i ha hp hi = (ground arith, λ a b c. (ground arith, ground arith))

-- For a counter that moves on by `k` from the trigger to the probe the test allows `k` below the
-- threshold, and the threshold itself if the counter wrapped around.
within_threshold-counter :
    (tr k : ℕ)
    → tr < 65536
    → 0 < k
    → k < 65536
    → within_threshold tr ((tr + k) % 65536)
      ≡ (if ltb (tr + k) 65536 then ltb k ipid_threshold else leb k ipid_threshold)
unfolding within_threshold dist
within_threshold-counter tr k ht h0 hk = ground arith

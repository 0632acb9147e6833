-- ===== src/Analysis/Classify.antt =====
-- The classifiers of spoki/libspoki/src/analysis/classify.cpp.
pub mod Counters
pub mod Histogram
use spoki.Prelude.{
  ℕ, suc, ◌+◌, ◌*◌, ◌/◌, Bool, true, false, not, List, [], ◌∷◌, Option, none, some, ltb, ◌==◌,
  length, all_of, any_of, if◌then◌else◌,
}
use spoki.Prelude.Eq.{nat_has_eq}
use spoki.Prelude.Assoc.{find, put}
use spoki.Net.{Packet}
use spoki.Analysis.{Classification, Task, unchecked, constant, random, monotonic, other}
use spoki.Analysis.Ipid.{ipid_distances}

abbrev pub random_threshold : ℕ
random_threshold = 20000

-- `static_cast<uint16_t>(65535 * 0.3)`
abbrev pub tolerance_value : ℕ
tolerance_value = 19660

abbrev pub min_events : ℕ
min_events = 2

abbrev pub none_of : (ℕ → Bool) → List ℕ → Bool
none_of p xs = not (any_of p xs)

-- `classifier::trivial`, from the distances on
unfoldable pub by_distances : List ℕ → Classification
by_distances id_diffs =
    if all_of (λ val. val == 0) id_diffs
    then constant
    else if any_of (λ val. ltb random_threshold val) id_diffs
    then random
    else if none_of (λ val. ltb tolerance_value val) id_diffs
    then monotonic
    else other

-- `classifier::trivial`
unfoldable pub trivial : Task → Classification
unfolding by_distances
trivial ev =
    if ltb (length ev.packets) min_events
    then unchecked
    else by_distances (ipid_distances ev.packets)

-- `hist[ipid] += 1`
unfoldable pub count_id : ℕ → List (ℕ × ℕ) → List (ℕ × ℕ)
count_id id hist = elim (find id hist) [ none ↦ put id 1 hist | some n ↦ put id (n + 1) hist ]

unfoldable pub histogram : List (ℕ × ℕ) → List Packet → List (ℕ × ℕ)
histogram hist [] = hist
histogram hist (p ∷ ps) = histogram (count_id p.ipid hist) ps

-- whether some identifier was counted more often than `threshold`
unfoldable pub exceeds : ℕ → List (ℕ × ℕ) → Bool
exceeds threshold [] = false
exceeds threshold ((id, n) ∷ hist) = if ltb threshold n then true else exceeds threshold hist

-- `classifier::midarmm`; the thresholds are `num_probes * 3.0 / 4.0 + 0.5` and
-- `size * 1.0 / 4.0 + 0.5`, cut off, which `double` computes exactly at these sizes
unfoldable pub midarmm : Task → Classification
midarmm ev =
    if ltb (length ev.packets) min_events
    then unchecked
    else if ltb (length ev.packets) ((ev.num_probes * 3 + 2) / 4)
    then unchecked
    else if exceeds ((length ev.packets + 2) / 4) (histogram [] ev.packets)
    then constant
    else if none_of (λ val. ltb tolerance_value val) (ipid_distances ev.packets)
    then monotonic
    else other

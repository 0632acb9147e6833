-- ===== src/Analysis/Classify/Histogram.antt =====
-- The histogram of `midarmm` against a plain count.
use spoki.Prelude.{
  ℕ, ◌+◌, ◌*◌, ◌/◌, ◌≤◌, ◌<◌, ◌≡◌, true, List, [], ◌∷◌, ◌↔◌, inl, inr, none, some, arith, ltb, ◌==◌,
  ==_iff, length, if◌then◌else◌, Bool-cases,
}
use spoki.Prelude.Eq.{nat_has_eq}
use spoki.Prelude.Assoc.{find, find-put, IsMap, put-IsMap}
use spoki.Net.{Packet}
use spoki.Analysis.{Task, constant}
use spoki.Analysis.Classify.{count_id, histogram, exceeds, midarmm}

-- how many packets carry an identifier
abbrev pub occurrences : ℕ → List Packet → ℕ
occurrences id [] = 0
occurrences id (p ∷ ps) = (if p.ipid == id then 1 else 0) + occurrences id ps

abbrev counted : ℕ → List (ℕ × ℕ) → ℕ
counted id hist = elim (find id hist) [ none ↦ 0 | some n ↦ n ]

counted-count_id :
    (id i : ℕ) (hist : List (ℕ × ℕ))
    → counted i (count_id id hist) ≡ (if id == i then 1 else 0) + counted i hist
unfolding count_id
counted-count_id id i hist =
    ground (arith, find-put id i 1 hist, find-put id i (counted id hist + 1) hist, ==_iff id i)

count_id-IsMap : (id : ℕ) (hist : List (ℕ × ℕ)) → IsMap hist → IsMap (count_id id hist)
unfolding count_id
count_id-IsMap id hist h =
    ground (arith, put-IsMap id 1 hist h, put-IsMap id (counted id hist + 1) hist h)

histogram-counted :
    (i : ℕ) (hist : List (ℕ × ℕ)) (ps : List Packet)
    → counted i (histogram hist ps) ≡ occurrences i ps + counted i hist
unfolding histogram
histogram-counted i hist [] = omega arith
histogram-counted i hist (p ∷ ps) =
    ground (arith, histogram-counted i (count_id p.ipid hist) ps, counted-count_id p.ipid i hist)

histogram-IsMap : (hist : List (ℕ × ℕ)) (ps : List Packet) → IsMap hist → IsMap (histogram hist ps)
unfolding histogram
histogram-IsMap hist [] h = h
histogram-IsMap hist (p ∷ ps) h =
    histogram-IsMap (count_id p.ipid hist) ps (count_id-IsMap p.ipid hist h)

exceeds_of_counted : (t i : ℕ) (hist : List (ℕ × ℕ)) → t < counted i hist → exceeds t hist ≡ true
unfolding exceeds find
exceeds_of_counted t i [] h = absurd (omega arith)
exceeds_of_counted t i ((j, n) ∷ hist) h = ground (arith, exceeds_of_counted t i hist)

counted_of_exceeds :
    (t : ℕ) (hist : List (ℕ × ℕ))
    → IsMap hist
    → exceeds t hist ≡ true
    → (i : ℕ) × (t < counted i hist)
unfolding exceeds find
counted_of_exceeds t [] m h = cc
counted_of_exceeds t ((j, n) ∷ hist) m h = elim (Bool-cases (ltb t n)) [
  | inl here ↦ (j, ground arith)
  | inr there ↦
      let (i, more) = counted_of_exceeds t hist m.1 (ground arith) in
      (i, ground (arith, ==_iff j i))
]

histogram-occurrences :
    (id : ℕ) (ps : List Packet) → counted id (histogram [] ps) ≡ occurrences id ps
unfolding find
histogram-occurrences id ps = omega (arith, histogram-counted id [] ps)

exceeded :
    (t : ℕ) (ps : List Packet)
    → exceeds t (histogram [] ps) ≡ true
    → (id : ℕ) × (t < occurrences id ps)
exceeded t ps h =
    let (id, more) = counted_of_exceeds t (histogram [] ps) (histogram-IsMap [] ps tt) h in
    (id, rw (histogram-occurrences id ps) at more)

exceeds_of_constant :
    (ev : Task)
    → midarmm ev ≡ constant
    → exceeds ((length ev.packets + 2) / 4) (histogram [] ev.packets) ≡ true
unfolding midarmm
exceeds_of_constant ev h = ground arith

-- `midarmm` calls a task constant exactly if it has enough packets, and some identifier is on more
-- than a quarter of them, rounded.
midarmm-constant :
    (ev : Task)
    → (midarmm ev ≡ constant)
      ↔ (2 ≤ length ev.packets)
        × ((ev.num_probes * 3 + 2) / 4 ≤ length ev.packets)
        × ((id : ℕ) × ((length ev.packets + 2) / 4 < occurrences id ev.packets))
unfolding midarmm
midarmm-constant ev = (
  λ h. (
    ground arith,
    ground arith,
    exceeded ((length ev.packets + 2) / 4) ev.packets (exceeds_of_constant ev h),
  ),
  λ h. ground (
    arith,
    exceeds_of_counted ((length ev.packets + 2) / 4) h.2.0 (histogram [] ev.packets),
    histogram-occurrences h.2.0 ev.packets,
  ),
)

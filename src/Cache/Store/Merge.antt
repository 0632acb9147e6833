-- ===== src/Cache/Store/Merge.antt =====
-- Merging stores is a semilattice on what a store holds for each address.
use spoki.Prelude.{
  sym, ap, ◌∙◌, ◌≡◌, refl, ℕ, ltb, ◌||◌, ◌&&◌, Bool, Option, none, some, [], ◌∷◌, arith, ◌==◌,
  ==_iff, if◌then◌else◌,
}
use spoki.Prelude.Eq.{nat_has_eq}
use spoki.Prelude.Assoc.{find, has, find-put, IsMap, put-IsMap}
use spoki.Net.{Address}
use spoki.Cache.{Entry}
use spoki.Cache.Store.{Store, resolve, contains, at, merge_entry, merge, remove_if}

abbrev max : ℕ → ℕ → ℕ
max m n = if ltb m n then n else m

-- Of two entries the time of the newer one, and the flags of all those that are as new, joined.
abbrev pub newest : Entry → Entry → Entry
newest a b =
    let now = max a.ts b.ts in
    record {
      ts = now;
      consistent = (ltb a.ts now || a.consistent) && (ltb b.ts now || b.consistent);
    }

-- What two stores together know of an address.
abbrev pub join : Option Entry → Option Entry → Option Entry
join none b = b
join (some a) none = some a
join (some a) (some b) = some (newest a b)

resolve_comm : (a b : Entry) → resolve a b ≡ resolve b a
unfolding resolve
resolve_comm a b = ground arith

resolve_assoc : (a b c : Entry) → resolve (resolve a b) c ≡ resolve a (resolve b c)
unfolding resolve
resolve_assoc a b c = ground arith

resolve_self : (a : Entry) → resolve a a ≡ a
unfolding resolve
resolve_self a = ground arith

resolve-newest : (a b : Entry) → resolve a b ≡ newest a b
unfolding resolve
resolve-newest a b = ground arith

newest_comm : (a b : Entry) → newest a b ≡ newest b a
newest_comm a b = sym (resolve-newest a b) ∙ resolve_comm a b ∙ resolve-newest b a

newest_assoc : (a b c : Entry) → newest (newest a b) c ≡ newest a (newest b c)
newest_assoc a b c =
    ap (λ x. newest x c) (sym (resolve-newest a b))
    ∙ sym (resolve-newest (resolve a b) c)
    ∙ resolve_assoc a b c
    ∙ resolve-newest a (resolve b c)
    ∙ ap (newest a) (resolve-newest b c)

newest_self : (a : Entry) → newest a a ≡ a
newest_self a = sym (resolve-newest a a) ∙ resolve_self a

join_comm : (a b : Option Entry) → join a b ≡ join b a
join_comm none none = refl
join_comm none (some b) = refl
join_comm (some a) none = refl
join_comm (some a) (some b) = ap some (newest_comm a b)

join_assoc : (a b c : Option Entry) → join (join a b) c ≡ join a (join b c)
join_assoc none b c = refl
join_assoc (some a) none c = refl
join_assoc (some a) (some b) none = refl
join_assoc (some a) (some b) (some c) = ap some (newest_assoc a b c)

join_self : (a : Option Entry) → join a a ≡ a
join_self none = refl
join_self (some a) = ap some (newest_self a)

join_swap : (s a b : Option Entry) → join (join s a) b ≡ join (join s b) a
join_swap s a b = join_assoc s a b ∙ ap (join s) (join_comm a b) ∙ sym (join_assoc s b a)

join_twice : (s a : Option Entry) → join (join s a) a ≡ join s a
join_twice s a = join_assoc s a a ∙ ap (join s) (join_self a)

find-merge_entry :
    (s : Store) (addr k : Address) (e : Entry)
    → find k (merge_entry s addr e) ≡ (if addr == k then join (find addr s) (some e) else find k s)
unfolding merge_entry contains has at
find-merge_entry s addr k e = ground (
  arith,
  find-put addr k e s,
  find-put addr k (resolve (at s addr) e) s,
  resolve-newest (at s addr) e,
)

-- Merging a store leaves, for every address, the newer of the entries that the two stores hold of it,
-- with the flags joined by a logical and where both are as new, and the only entry where one has none,
-- if the store that is merged has one entry for each address.
pub find-merge :
    (s other : Store) (k : Address)
    → IsMap other
    → find k (merge s other) ≡ join (find k s) (find k other)
unfolding merge find
find-merge s [] k h = join_comm none (find k s)
find-merge s ((addr, e) ∷ other) k h = ground (
  arith,
  find-merge (merge_entry s addr e) other k h.1,
  find-merge_entry s addr k e,
  join_assoc (find k s) (some e) (find k other),
  ==_iff addr k,
)

merge_entry-IsMap :
    (s : Store) (addr : Address) (e : Entry) → IsMap s → IsMap (merge_entry s addr e)
unfolding merge_entry
merge_entry-IsMap s addr e h =
    ground (arith, put-IsMap addr e s h, put-IsMap addr (resolve (at s addr) e) s h)

-- A merged store keeps one entry for each address.
merge-IsMap : (s other : Store) → IsMap s → IsMap (merge s other)
unfolding merge
merge-IsMap s [] h = h
merge-IsMap s ((addr, e) ∷ other) h =
    merge-IsMap (merge_entry s addr e) other (merge_entry-IsMap s addr e h)

-- Updates from two other stores may arrive in either order, once or more often: what the store
-- then holds for each address is the same.
merge_order :
    (s a b : Store) (k : Address)
    → IsMap a
    → IsMap b
    → (find k (merge (merge s a) b) ≡ find k (merge (merge s b) a))
      × (find k (merge (merge s a) a) ≡ find k (merge s a))
merge_order s a b k ha hb = (
  simp (find-merge _ b k hb, find-merge s a k ha, find-merge _ a k ha)
      (join_swap (find k s) (find k a) (find k b)),
  simp (find-merge (merge s a) a k ha, find-merge s a k ha) (join_twice (find k s) (find k a)),
)

-- After `remove_if` an address is gone exactly if the predicate held of its entry.
find-remove_if :
    (pred : Address → Entry → Bool) (s : Store) (k : Address)
    → IsMap s
    → find k (remove_if pred s)
      ≡ elim (find k s) [ none ↦ none | some e ↦ if pred k e then none else some e ]
unfolding remove_if find
find-remove_if pred [] k h = refl
find-remove_if pred ((addr, e) ∷ s) k h = ground (arith, find-remove_if pred s k h.1, ==_iff addr k)

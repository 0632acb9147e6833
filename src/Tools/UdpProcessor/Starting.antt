-- ===== src/Tools/UdpProcessor/Starting.antt =====
-- Which addresses are probed after the starts of udp_processor (spoki/tools/src/udp_processor.cpp).
use mathlib.Core.Path.{subst}
use spoki.Prelude.{
  ℕ, ◌≡◌, refl, sym, ap, ◌∙◌, Bool, true, false, ◌||◌, none, List, [], ◌∷◌, arith, if-both, ==_iff,
  ◌==◌, if◌then◌else◌, is_empty,
}
use spoki.Prelude.Eq.{nat_has_eq}
use spoki.Prelude.Assoc.{find, has, put, has-put}
use spoki.Net.{Address}
use spoki.Tools.UdpProcessor.{
  Target, Probe, Ups, Effect, queue_of, start_probe, start_each, start_probes, keys,
}
use spoki.Tools.UdpProcessor.Requests.{
  AllTo, Keyed, OrderedTo, queue_of-put, start_probe-empty, start_probe-front, start_probe-Ordered,
}
use spoki.Tools.UdpProcessor.Steps.{stays}

unfoldable pub BusyAt : Address → Ups → Type 0
BusyAt a s = is_empty (queue_of a s) ≡ false → has a s.in_progress ≡ true

-- An address with a queue is being probed.
unfoldable pub IsBusy : Ups → Type 0
unfolding BusyAt
IsBusy s = (a : Address) → BusyAt a s

pub start_probe-busy :
    (now : ℕ) (a : Address) (s : Ups) → Keyed s → BusyAt a (start_probe now a s).0
unfolding BusyAt Keyed
start_probe-busy now a s k = by_queue (queue_of a s) refl
  where
    by_queue : (q : List Target) → queue_of a s ≡ q → BusyAt a (start_probe now a s).0
    by_queue [] e =
        subst (λ r. BusyAt a r.0) (sym (start_probe-empty now a s e))
          (λ h. ground (arith, h, ==_iff a a, queue_of-put a a [] s s.in_progress))
    by_queue (next ∷ rest) e =
        subst (λ r. BusyAt a r.0) (sym (start_probe-front now a s next rest e))
          (λ h.
            has-put next.daddr a (record { target = next; since = now }) s.in_progress
            ∙ ground (arith, ==_iff next.daddr a, (subst (AllTo a) e (k a)).0))

other_queue :
    (a b : Address) (q : List Target) (s : Ups) (p : List (Address × Probe))
    → (a == b) ≡ false
    → queue_of b (record s { pending = put a q s.pending; in_progress = p }) ≡ queue_of b s
other_queue a b q s p n = queue_of-put a b q s p ∙ ap (λ c. if c then q else queue_of b s) n

-- The probe of an address leaves all other addresses busy that were.
pub start_probe-others :
    (now : ℕ) (a b : Address) (s : Ups)
    → (a == b) ≡ false
    → BusyAt b s
    → BusyAt b (start_probe now a s).0
unfolding BusyAt
start_probe-others now a b s n v = by_queue (queue_of a s) refl
  where
    by_queue : (q : List Target) → queue_of a s ≡ q → BusyAt b (start_probe now a s).0
    by_queue [] e =
        subst (λ r. BusyAt b r.0) (sym (start_probe-empty now a s e))
          (λ h. v (ap is_empty (sym (other_queue a b [] s s.in_progress n)) ∙ h))
    by_queue (next ∷ rest) e =
        let p : Probe = record { target = next; since = now } in
        subst (λ r. BusyAt b r.0) (sym (start_probe-front now a s next rest e))
          (λ h.
            let before : has b s.in_progress ≡ true =
              v (
                ap is_empty (sym (other_queue a b rest s (put next.daddr p s.in_progress) n))
                ∙ h) in
            has-put next.daddr b p s.in_progress ∙ ground (arith, before))

start_probe-keeps :
    (now : ℕ) (a b : Address) (s : Ups) → Keyed s → BusyAt b s → BusyAt b (start_probe now a s).0
start_probe-keeps now a b s k v = by_key (a == b) refl
  where
    by_key : (c : Bool) → (a == b) ≡ c → BusyAt b (start_probe now a s).0
    by_key true e =
        subst (λ x. BusyAt x (start_probe now a s).0) ((==_iff a b).0 e)
          (start_probe-busy now a s k)
    by_key false e = start_probe-others now a b s e v

listed : Address → List Address → Bool
listed b [] = false
listed b (a ∷ addrs) = a == b || listed b addrs

module _ (now : ℕ) where
  start_one : Address → Ups → Ups × List Effect
  start_one a s = if has a s.in_progress then (s, []) else start_probe now a s

  start_one-Ordered : (a : Address) (s : Ups) → Keyed s → OrderedTo s (start_one a s)
  unfolding start_one
  start_one-Ordered a s k =
      if-both (OrderedTo s) (has a s.in_progress) (stays s k) (start_probe-Ordered now a s k)

  start_one-keeps : (a b : Address) (s : Ups) → Keyed s → BusyAt b s → BusyAt b (start_one a s).0
  unfolding start_one
  start_one-keeps a b s k v =
      if-both (λ (r : Ups × List Effect). BusyAt b r.0) (has a s.in_progress) v
        (start_probe-keeps now a b s k v)

  start_one-busy : (a : Address) (s : Ups) → Keyed s → BusyAt a (start_one a s).0
  unfolding start_one BusyAt
  start_one-busy a s k = by_key (has a s.in_progress) refl
    where
      by_key :
          (c : Bool)
          → has a s.in_progress ≡ c
          → BusyAt a (if c then (s, []) else start_probe now a s).0
      by_key true e = λ h. e
      by_key false e = start_probe-busy now a s k

  start_each-keeps :
      (addrs : List Address) (b : Address) (s : Ups)
      → Keyed s
      → BusyAt b s
      → BusyAt b (start_each now addrs s).0
  unfolding start_each OrderedTo start_one
  start_each-keeps [] b s k v = v
  start_each-keeps (a ∷ addrs) b s k v =
      start_each-keeps addrs b (start_one a s).0 (start_one-Ordered a s k).keyed
        (start_one-keeps a b s k v)

  start_each-busy :
      (addrs : List Address) (b : Address) (s : Ups)
      → Keyed s
      → listed b addrs ≡ true
      → BusyAt b (start_each now addrs s).0
  unfolding start_each OrderedTo start_one listed
  start_each-busy [] b s k h = ground (arith, h)
  start_each-busy (a ∷ addrs) b s k h =
      let kt = (start_one-Ordered a s k).keyed in
      by_key (a == b) refl kt
        (λ e. start_each-busy addrs b (start_one a s).0 kt (ground (arith, h, e)))
    where
      by_key :
          (c : Bool)
          → (a == b) ≡ c
          → Keyed (start_one a s).0
          → ((a == b) ≡ false → BusyAt b (start_each now addrs (start_one a s).0).0)
          → BusyAt b (start_each now (a ∷ addrs) s).0
      by_key true e kt later =
          start_each-keeps addrs b (start_one a s).0 kt
            (subst (λ x. BusyAt x (start_one a s).0) ((==_iff a b).0 e) (start_one-busy a s k))
      by_key false e kt later = later e

listed→queue :
    (b : Address) (m : List (Address × List Target)) → listed b (keys m) ≡ false → find b m ≡ none
unfolding listed find
listed→queue b [] h = refl
listed→queue b ((a, q) ∷ m) h = ground (arith, listed→queue b m)

queue_of-missing : (b : Address) (s : Ups) → find b s.pending ≡ none → queue_of b s ≡ []
unfolding queue_of
queue_of-missing b s e = rw (e, queue_of) refl

unlisted-busy : (b : Address) (s : Ups) → listed b (keys s.pending) ≡ false → BusyAt b s
unfolding BusyAt
unlisted-busy b s e h = ground (arith, h, queue_of-missing b s (listed→queue b s.pending e))

pub start_probes-IsBusy : (now : ℕ) (s : Ups) → Keyed s → IsBusy (start_probes now s).0
unfolding start_probes IsBusy
start_probes-IsBusy now s k b = by_listed (listed b (keys s.pending)) refl
  where
    by_listed :
        (c : Bool) → listed b (keys s.pending) ≡ c → BusyAt b (start_each now (keys s.pending) s).0
    by_listed true e = start_each-busy now (keys s.pending) b s k e
    by_listed false e = start_each-keeps now (keys s.pending) b s k (unlisted-busy b s e)

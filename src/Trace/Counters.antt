-- ===== src/Trace/Counters.antt =====
-- Each frame is counted once (spoki/libspoki/src/trace/state.cpp).
use spoki.Prelude.{ℕ, ◌+◌, ◌≡◌, refl, Bool, List, [], ◌∷◌, arith}
use spoki.Prelude.Words.{u64}
use spoki.Prelude.Eq.{nat_has_eq}
use spoki.Trace.{
  Checks, Local, Frame, no_layer3, ipv4, ipv6, other_type, dispatch, add_ipv4, add_packet, local,
  add_packets,
}

-- every frame is counted once
abbrev pub Counted : Local → Type 0
Counted s = s.total_packets ≡ u64 (s.ipv4_packets + s.ipv6_packets + s.others)

add_packet-Counted : (c : Checks) (f : Frame) (s : Local) → Counted s → Counted (add_packet c f s).0
unfolding add_packet add_ipv4 dispatch
add_packet-Counted c no_layer3 s h = ground arith
add_packet-Counted c (ipv4 x) s h = ground arith
add_packet-Counted c ipv6 s h = ground arith
add_packet-Counted c other_type s h = ground arith

add_packets-from :
    (c : Checks) (fs : List Frame) (s : Local) → Counted s → Counted (add_packets c fs s).0
unfolding add_packets
add_packets-from c [] s h = h
add_packets-from c (f ∷ fs) s h =
    add_packets-from c fs (add_packet c f s).0 (add_packet-Counted c f s h)

-- Whatever frames come, the total is the sum of the three counters, as 64-bit words.
add_packets-Counted :
    (c : Checks) (fs : List Frame) (filter : List ℕ) (batch_size : ℕ) (router : List ℕ)
    (enable_filters : Bool)
    → Counted (add_packets c fs (local filter batch_size router enable_filters)).0
unfolding local
add_packets-Counted c fs filter batch_size router enable_filters =
    add_packets-from c fs (local filter batch_size router enable_filters) refl

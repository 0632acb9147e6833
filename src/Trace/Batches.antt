-- ===== src/Trace/Batches.antt =====
-- Each accepted packet reaches the shard of its source once and in order
-- (spoki/libspoki/src/trace/state.cpp).
use spoki.Prelude.{
  ℕ, ◌+◌, ◌≡◌, refl, sym, ap, ◌∙◌, Bool, true, false, Option, none, some, List, [], ◌∷◌, ◌++◌,
  arith, leb, ◌==◌, if◌then◌else◌, length, append_assoc, append-nil, if-both, if-cases, ==_iff,
}
use spoki.Prelude.Words.{u64}
use spoki.Prelude.Eq.{nat_has_eq}
use spoki.Prelude.Assoc.{put, find-put}
use spoki.Net.{Packet}
use spoki.Trace.{
  Checks, Local, Frame, no_layer3, ipv4, ipv6, other_type, Ipv4, Message, single, batch, event,
  bucket, dispatch, passes, route, accepted, add_ipv4, add_packet, local, add_packets,
}

-- the packets that messages carry to a shard
abbrev pub sent_to : ℕ → List Message → List Packet
sent_to w [] = []
sent_to w (single v p ∷ ms) = (if v == w then p ∷ [] else []) ++ sent_to w ms
sent_to w (batch v ps ∷ ms) = (if v == w then ps else []) ++ sent_to w ms
sent_to w (event v ps ∷ ms) = (if v == w then ps else []) ++ sent_to w ms

-- the packet of a frame, if it is for the shard
abbrev pub meant_for : Checks → Local → ℕ → Frame → List Packet
meant_for c s w (ipv4 h) = elim (accepted c s h) [
  | none ↦ []
  | some p ↦ if p.0 == w then p.1 ∷ [] else []
]
meant_for c s w _ = []

abbrev pub all_meant_for : Checks → Local → ℕ → List Frame → List Packet
all_meant_for c s w [] = []
all_meant_for c s w (f ∷ fs) = meant_for c s w f ++ all_meant_for c s w fs

sent_to-append :
    (w : ℕ) (ms ns : List Message) → sent_to w (ms ++ ns) ≡ sent_to w ms ++ sent_to w ns
sent_to-append w [] ns = refl
sent_to-append w (single v p ∷ ms) ns =
    ap (λ x. (if v == w then p ∷ [] else []) ++ x) (sent_to-append w ms ns)
    ∙ sym (append_assoc _ (sent_to w ms) (sent_to w ns))
sent_to-append w (batch v ps ∷ ms) ns =
    ap (λ x. (if v == w then ps else []) ++ x) (sent_to-append w ms ns)
    ∙ sym (append_assoc _ (sent_to w ms) (sent_to w ns))
sent_to-append w (event v ps ∷ ms) ns =
    ap (λ x. (if v == w then ps else []) ++ x) (sent_to-append w ms ns)
    ∙ sym (append_assoc _ (sent_to w ms) (sent_to w ns))

-- a state that sends single packets holds none back
Direct : ℕ → Local → Type 0
Direct w s = (s.batch_size == 1) ≡ true → bucket w s ≡ []

bucket-put :
    (v w : ℕ) (ps : List Packet) (s : Local)
    → bucket w (record s { packets = put v ps s.packets }) ≡ (if v == w then ps else bucket w s)
unfolding bucket
bucket-put v w ps s = ground (arith, find-put v w ps s.packets)

dispatch-sent :
    (v w : ℕ) (pkt : Packet) (s : Local)
    → Direct w s
    → sent_to w (dispatch v pkt s).1 ++ bucket w (dispatch v pkt s).0
      ≡ bucket w s ++ (if v == w then pkt ∷ [] else [])
unfolding dispatch Direct
dispatch-sent v w pkt s h =
    let full = bucket v s ++ pkt ∷ [] in
    let P = λ (x : Local × List Message).
      sent_to w x.1 ++ bucket w x.0 ≡ bucket w s ++ (if v == w then pkt ∷ [] else []) in
    if-cases P (s.batch_size == 1) (λ one. rw (h one) (ground (arith, append-nil (pkt ∷ []))))
      (λ many.
        if-both P (leb s.batch_size (length full))
          (rw (bucket-put v w [] s) (spread (v == w) (==_iff v w).0))
          (bucket-put v w full s ∙ kept (v == w) (==_iff v w).0))
  where
    full : List Packet
    full = bucket v s ++ pkt ∷ []

    spread :
        (b : Bool)
        → (b ≡ true → v ≡ w)
        → ((if b then full else []) ++ []) ++ (if b then [] else bucket w s)
          ≡ bucket w s ++ (if b then pkt ∷ [] else [])
    spread true e = rw (e refl) (
        ground
          (arith, append-nil (bucket w s ++ pkt ∷ []), append-nil (bucket w s ++ pkt ∷ [] ++ [])))
    spread false e = sym (append-nil (bucket w s))

    kept :
        (b : Bool)
        → (b ≡ true → v ≡ w)
        → (if b then full else bucket w s) ≡ bucket w s ++ (if b then pkt ∷ [] else [])
    kept true e = rw (e refl) refl
    kept false e = sym (append-nil (bucket w s))

dispatch-Direct : (v w : ℕ) (pkt : Packet) (s : Local) → Direct w s → Direct w (dispatch v pkt s).0
unfolding dispatch Direct
dispatch-Direct v w pkt s h =
    if-cases (λ (x : Local × List Message). (x.0.batch_size == 1) ≡ true → bucket w x.0 ≡ [])
      (s.batch_size == 1) (λ one. h)
      (λ many.
        if-both (λ (x : Local × List Message). (x.0.batch_size == 1) ≡ true → bucket w x.0 ≡ [])
          (leb s.batch_size (length (bucket v s ++ pkt ∷ []))) (λ one. ground arith)
          (λ one. ground arith))

add_packet-Direct :
    (c : Checks) (f : Frame) (w : ℕ) (s : Local) → Direct w s → Direct w (add_packet c f s).0
unfolding add_packet add_ipv4 bucket Direct
add_packet-Direct c no_layer3 w s h = h
add_packet-Direct c (ipv4 x) w s h = by_packet (accepted c s x)
  where
    counted : Local
    counted = record s {
      total_packets = u64 (s.total_packets + 1);
      ipv4_packets = u64 (s.ipv4_packets + 1);
    }

    by_packet :
        (o : Option (ℕ × Packet))
        → Direct w
            (elim o as (λ _. Local × List Message) [
              | none ↦ (counted, [])
              | some p ↦ dispatch p.0 p.1 counted
            ]).0
    by_packet none = h
    by_packet (some p) = dispatch-Direct p.0 w p.1 counted h
add_packet-Direct c ipv6 w s h = h
add_packet-Direct c other_type w s h = h

add_packet-sent :
    (c : Checks) (f : Frame) (w : ℕ) (s : Local)
    → Direct w s
    → sent_to w (add_packet c f s).1 ++ bucket w (add_packet c f s).0
      ≡ bucket w s ++ meant_for c s w f
unfolding add_packet add_ipv4 bucket Direct
add_packet-sent c no_layer3 w s h = sym (append-nil (bucket w s))
add_packet-sent c (ipv4 x) w s h = by_packet (accepted c s x)
  where
    counted : Local
    counted = record s {
      total_packets = u64 (s.total_packets + 1);
      ipv4_packets = u64 (s.ipv4_packets + 1);
    }

    by_packet :
        (o : Option (ℕ × Packet))
        → (let r = elim o as (λ _. Local × List Message) [
          | none ↦ (counted, [])
          | some p ↦ dispatch p.0 p.1 counted
        ] in
            sent_to w r.1 ++ bucket w r.0)
          ≡ bucket w s ++ (elim o as (λ _. List Packet) [
            | none ↦ []
            | some p ↦ if p.0 == w then p.1 ∷ [] else []
          ])
    by_packet none = sym (append-nil (bucket w s))
    by_packet (some p) = dispatch-sent p.0 w p.1 counted h
add_packet-sent c ipv6 w s h = sym (append-nil (bucket w s))
add_packet-sent c other_type w s h = sym (append-nil (bucket w s))

-- the checks and routes never change
dispatch-accepted :
    (c : Checks) (v : ℕ) (pkt : Packet) (s : Local) (x : Ipv4)
    → accepted c (dispatch v pkt s).0 x ≡ accepted c s x
unfolding dispatch accepted passes route
dispatch-accepted c v pkt s x =
    let P = λ (r : Local × List Message). accepted c r.0 x ≡ accepted c s x in
    if-both P (s.batch_size == 1) refl
      (if-both P (leb s.batch_size (length (bucket v s ++ pkt ∷ []))) refl refl)

add_packet-accepted :
    (c : Checks) (f : Frame) (s : Local) (x : Ipv4)
    → accepted c (add_packet c f s).0 x ≡ accepted c s x
unfolding add_packet add_ipv4 accepted passes route
add_packet-accepted c no_layer3 s x = refl
add_packet-accepted c (ipv4 y) s x = by_packet (accepted c s y)
  where
    counted : Local
    counted = record s {
      total_packets = u64 (s.total_packets + 1);
      ipv4_packets = u64 (s.ipv4_packets + 1);
    }

    by_packet :
        (o : Option (ℕ × Packet))
        → accepted c
            (elim o as (λ _. Local × List Message) [
              | none ↦ (counted, [])
              | some p ↦ dispatch p.0 p.1 counted
            ]).0
            x
          ≡ accepted c s x
    by_packet none = refl
    by_packet (some p) = dispatch-accepted c p.0 p.1 counted x
add_packet-accepted c ipv6 s x = refl
add_packet-accepted c other_type s x = refl

all_meant_for-add_packet :
    (c : Checks) (f : Frame) (w : ℕ) (fs : List Frame) (s : Local)
    → all_meant_for c (add_packet c f s).0 w fs ≡ all_meant_for c s w fs
all_meant_for-add_packet c f w [] s = refl
all_meant_for-add_packet c f w (g ∷ gs) s =
    ap (λ x. x ++ all_meant_for c (add_packet c f s).0 w gs) (by_frame g)
    ∙ ap (λ x. meant_for c s w g ++ x) (all_meant_for-add_packet c f w gs s)
  where
    by_frame : (g : Frame) → meant_for c (add_packet c f s).0 w g ≡ meant_for c s w g
    by_frame no_layer3 = refl
    by_frame (ipv4 x) =
        ap
          (λ o. elim o as (λ _. List Packet) [
            | none ↦ []
            | some p ↦ if p.0 == w then p.1 ∷ [] else []
          ])
          (add_packet-accepted c f s x)
    by_frame ipv6 = refl
    by_frame other_type = refl

add_packets-sent :
    (c : Checks) (fs : List Frame) (w : ℕ) (s : Local)
    → Direct w s
    → sent_to w (add_packets c fs s).1 ++ bucket w (add_packets c fs s).0
      ≡ bucket w s ++ all_meant_for c s w fs
unfolding add_packets
add_packets-sent c [] w s h = sym (append-nil (bucket w s))
add_packets-sent c (f ∷ fs) w s h =
    let s1 = (add_packet c f s).0 in
    let first = (add_packet c f s).1 in
    let left = bucket w (add_packets c fs s1).0 in
    ap (λ x. x ++ left) (sent_to-append w first (add_packets c fs s1).1)
    ∙ append_assoc (sent_to w first) (sent_to w (add_packets c fs s1).1) left
    ∙ ap (λ x. sent_to w first ++ x) (add_packets-sent c fs w s1 (add_packet-Direct c f w s h))
    ∙ sym (append_assoc (sent_to w first) (bucket w s1) (all_meant_for c s1 w fs))
    ∙ ap (λ x. x ++ all_meant_for c s1 w fs) (add_packet-sent c f w s h)
    ∙ append_assoc (bucket w s) (meant_for c s w f) (all_meant_for c s1 w fs)
    ∙ ap (λ x. bucket w s ++ (meant_for c s w f ++ x)) (all_meant_for-add_packet c f w fs s)

-- What a shard was sent, followed by what is still in its bucket, is the packets that pass the
-- checks and are routed to it, in the order of the trace: none is lost, doubled or sent elsewhere.
pub add_packets-in_order :
    (c : Checks) (fs : List Frame) (w : ℕ) (filter : List ℕ) (batch_size : ℕ) (router : List ℕ)
    (enable_filters : Bool)
    → (let s = local filter batch_size router enable_filters in
        sent_to w (add_packets c fs s).1 ++ bucket w (add_packets c fs s).0
        ≡ all_meant_for c s w fs)
unfolding local bucket Direct
add_packets-in_order c fs w filter batch_size router enable_filters =
    add_packets-sent c fs w (local filter batch_size router enable_filters) (λ e. refl)

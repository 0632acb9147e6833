-- ===== src/Tools/UdpProcessor/Steps.antt =====
-- What the loops of udp_processor (spoki/tools/src/udp_processor.cpp) do to the queues.
use spoki.Prelude.{
  ℕ, ◌≡◌, refl, Bool, ◌&&◌, none, some, List, [], ◌∷◌, ◌++◌, arith, if-both, ltb, ◌-◌, not, length,
  if◌then◌else◌,
}
use spoki.Prelude.Eq.{nat_has_eq}
use spoki.Prelude.Assoc.{find, has, erase}
use spoki.Net.{Address, Payload, Packet, PacketData}
use spoki.Tools.UdpProcessor.{
  Target, Probe, Ups, Effect, start_probe, start_each, expire, expire_each, append, retransmit,
  settle, finish, ends, reply_row, handle_packet, handle_packets, request_more, next_out_file,
  then_do, Proto, carries_udp, timeout, interval, threshold,
}
use spoki.Tools.UdpProcessor.Requests.{
  requested_to, Keyed, Ordered, Ordered-then, apart, OrderedTo, start_probe-Ordered,
}

pub OrderedTo-then :
    (s : Ups) (r : Ups × List Effect) (next : Ups → Ups × List Effect)
    → OrderedTo s r
    → (Keyed r.0 → OrderedTo r.0 (next r.0))
    → OrderedTo s (then_do r next)
unfolding OrderedTo then_do
OrderedTo-then s (t, es) next o p = Ordered-then s t (next t).0 es (next t).1 o (p o.keyed)

pub stays : (s : Ups) → Keyed s → OrderedTo s (s, [])
unfolding OrderedTo requested_to
stays s k = apart s s [] k refl (λ a. refl)

pub start_each-Ordered :
    (now : ℕ) (addrs : List Address) (s : Ups) → Keyed s → OrderedTo s (start_each now addrs s)
unfolding start_each OrderedTo
start_each-Ordered now [] s k = stays s k
start_each-Ordered now (a ∷ addrs) s k =
    let once : Ups × List Effect = if has a s.in_progress then (s, []) else start_probe now a s in
    let o : OrderedTo s once =
      if-both (OrderedTo s) (has a s.in_progress) (stays s k) (start_probe-Ordered now a s k) in
    Ordered-then s once.0 _ once.1 _ o (start_each-Ordered now addrs once.0 o.keyed)

append-none :
    (a b : Address) (port : ℕ) (proto : Proto) (pl : Payload) (s : Ups)
    → requested_to a (append b port proto pl s) ≡ []
unfolding append requested_to
append-none a b port proto pl s = ground arith

reply_row-none :
    (a : Address) (pkt : Packet) (ep : Target) (d : PacketData) (s : Ups)
    → requested_to a (reply_row pkt ep d s) ≡ []
unfolding reply_row requested_to
reply_row-none a pkt ep (PacketData.udp p) s = append-none a pkt.saddr p.sport Proto.udp p.payload s
reply_row-none a pkt ep (PacketData.icmp p) s = append-none a pkt.saddr ep.dport Proto.icmp [] s
reply_row-none a pkt ep (PacketData.tcp p) s = refl

pub handle_packet-Ordered :
    (now : ℕ) (pkt : Packet) (s : Ups) → Keyed s → OrderedTo s (handle_packet now pkt s)
unfolding handle_packet OrderedTo settle
handle_packet-Ordered now pkt s k =
    elim (find pkt.saddr s.in_progress)
      as (λ x. OrderedTo s (elim x [
        | none ↦ (s, [])
        | some p ↦
            let settled = settle now pkt.saddr p.target (carries_udp pkt.proto) s in
            if ends p.target pkt.proto
            then (settled.0, reply_row pkt p.target pkt.proto s ++ settled.1)
            else (s, [])
      ])) [
        | none ↦ stays s k
        | some p ↦
            let t : Ups = record s {
              finished = finish p.target (carries_udp pkt.proto) s.finished;
              in_progress = erase pkt.saddr s.in_progress;
            } in
            let row : Ordered s t (reply_row pkt p.target pkt.proto s) =
              apart s t _ k refl (λ a. reply_row-none a pkt p.target pkt.proto s) in
            if-both (OrderedTo s) (ends p.target pkt.proto)
              (Ordered-then s t _ _ _ row (start_probe-Ordered now pkt.saddr t row.keyed))
              (stays s k)
      ]

pub handle_packets-Ordered :
    (now : ℕ) (pkts : List Packet) (s : Ups) → Keyed s → OrderedTo s (handle_packets now pkts s)
unfolding handle_packets OrderedTo
handle_packets-Ordered now [] s k = stays s k
handle_packets-Ordered now (pkt ∷ pkts) s k =
    let once = handle_packet now pkt s in
    let o : OrderedTo s once = handle_packet-Ordered now pkt s k in
    Ordered-then s once.0 _ once.1 _ o (handle_packets-Ordered now pkts once.0 o.keyed)

retransmit-none : (a b : Address) (s : Ups) → requested_to a (retransmit b s) ≡ []
unfolding retransmit requested_to
retransmit-none a b s = ground arith

expire-Ordered :
    (now : ℕ) (a : Address) (p : Probe) (s : Ups) → Keyed s → OrderedTo s (expire now a p s)
unfolding expire OrderedTo
expire-Ordered now a p s k =
    if-both (OrderedTo s) (ltb timeout (now - p.since))
      (apart s _ _ k refl (λ b. append-none b p.target.daddr p.target.dport Proto.no_reply [] s))
      (if-both (OrderedTo s) (ltb interval (now - p.since))
        (apart s s _ k refl (λ b. retransmit-none b a s)) (stays s k))

pub expire_each-Ordered :
    (now : ℕ) (m : List (Address × Probe)) (s : Ups) → Keyed s → OrderedTo s (expire_each now m s)
unfolding expire_each OrderedTo
expire_each-Ordered now [] s k = stays s k
expire_each-Ordered now ((a, p) ∷ m) s k =
    let once = expire now a p s in
    let o : OrderedTo s once = expire-Ordered now a p s k in
    Ordered-then s once.0 _ once.1 _ o (expire_each-Ordered now m once.0 o.keyed)

pub request_more-Ordered : (s : Ups) → Keyed s → OrderedTo s (request_more s)
unfolding request_more OrderedTo requested_to
request_more-Ordered s k =
    if-both (OrderedTo s) (not s.asked && ltb (length s.in_progress) threshold)
      (apart s _ _ k refl (λ a. refl)) (stays s k)

pub next_out_file-Ordered : (opens : Bool) (s : Ups) → Keyed s → OrderedTo s (next_out_file opens s)
unfolding next_out_file OrderedTo requested_to
next_out_file-Ordered opens s k = apart s _ _ k refl (λ a. ground arith)

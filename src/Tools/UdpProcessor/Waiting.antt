-- ===== src/Tools/UdpProcessor/Waiting.antt =====
-- Which targets wait (spoki/tools/src/udp_processor.cpp): only those of an address that is being probed.
use mathlib.Core.Path.{subst}
use spoki.Prelude.{
  ℕ, ◌≡◌, refl, ◌∙◌, Bool, true, false, not, ◌&&◌, none, some, List, [], ◌∷◌, ◌++◌, arith, if-both,
  ==_iff, ◌==◌, if◌then◌else◌, is_empty, length, ltb,
}
use spoki.Prelude.Eq.{nat_has_eq}
use spoki.Prelude.Assoc.{find, has, erase, find-erase}
use spoki.Net.{Address, Packet}
use spoki.Tools.UdpProcessor.{
  Target, Probe, Ups, Effect, queue_of, new_targets, start_probe, start_probes, settle, finish,
  ends, reply_row, carries_udp, handle_packet, handle_packets, request_more, next_out_file, then_do,
  threshold, Message, event, targets, tick, rotate, start, handle, handle_all, udp_processor,
}
use spoki.Tools.UdpProcessor.Requests.{Keyed, OrderedTo}
use spoki.Tools.UdpProcessor.Steps.{handle_packet-Ordered, expire_each-Ordered}
use spoki.Tools.UdpProcessor.Order.{new_targets-Keyed, handle-Handled}
use spoki.Tools.UdpProcessor.Starting.{
  BusyAt, IsBusy, start_probe-busy, start_probe-others, start_probes-IsBusy,
}

same-IsBusy :
    (s t : Ups) → t.pending ≡ s.pending → t.in_progress ≡ s.in_progress → IsBusy s → IsBusy t
unfolding IsBusy BusyAt queue_of
same-IsBusy s t p q v a = rw (p, q) (v a)

has-erase :
    (a b : Address) (m : List (Address × Probe)) → (a == b) ≡ false → has b (erase a m) ≡ has b m
unfolding has
has-erase a b m n = ground (arith, find-erase a b m, n)

settle-IsBusy :
    (now : ℕ) (a : Address) (ep : Target) (answered : Bool) (s : Ups)
    → Keyed s
    → IsBusy s
    → IsBusy (settle now a ep answered s).0
unfolding settle IsBusy BusyAt Keyed queue_of
settle-IsBusy now a ep answered s k v b = by_key (a == b) refl
  where
    t : Ups
    t = record s { finished = finish ep answered s.finished; in_progress = erase a s.in_progress }

    by_key : (c : Bool) → (a == b) ≡ c → BusyAt b (start_probe now a t).0
    by_key true e =
        subst (λ x. BusyAt x (start_probe now a t).0) ((==_iff a b).0 e)
          (start_probe-busy now a t k)
    by_key false e = start_probe-others now a b t e (λ h. has-erase a b s.in_progress e ∙ v b h)

handle_packet-IsBusy :
    (now : ℕ) (pkt : Packet) (s : Ups) → Keyed s → IsBusy s → IsBusy (handle_packet now pkt s).0
unfolding handle_packet
handle_packet-IsBusy now pkt s k v =
    elim (find pkt.saddr s.in_progress)
      as (λ x.
        let r : Ups × List Effect = elim x [
          | none ↦ (s, [])
          | some p ↦
              let settled = settle now pkt.saddr p.target (carries_udp pkt.proto) s in
              if ends p.target pkt.proto
              then (settled.0, reply_row pkt p.target pkt.proto s ++ settled.1)
              else (s, [])
        ] in
        IsBusy r.0) [
          | none ↦ v
          | some p ↦
              if-both (λ (r : Ups × List Effect). IsBusy r.0) (ends p.target pkt.proto)
                (settle-IsBusy now pkt.saddr p.target (carries_udp pkt.proto) s k v) v
        ]

handle_packets-IsBusy :
    (now : ℕ) (pkts : List Packet) (s : Ups)
    → Keyed s
    → IsBusy s
    → IsBusy (handle_packets now pkts s).0
unfolding handle_packets OrderedTo
handle_packets-IsBusy now [] s k v = v
handle_packets-IsBusy now (pkt ∷ pkts) s k v =
    handle_packets-IsBusy now pkts (handle_packet now pkt s).0
      (handle_packet-Ordered now pkt s k).keyed (handle_packet-IsBusy now pkt s k v)

request_more-IsBusy : (s : Ups) → IsBusy s → IsBusy (request_more s).0
unfolding request_more
request_more-IsBusy s v =
    if-both (λ (r : Ups × List Effect). IsBusy r.0)
      (not s.asked && ltb (length s.in_progress) threshold) (same-IsBusy s _ refl refl v) v

handle-IsBusy : (now : ℕ) (m : Message) (s : Ups) → Keyed s → IsBusy s → IsBusy (handle now m s).0
unfolding handle then_do next_out_file OrderedTo
handle-IsBusy now (event packets) s k v =
    request_more-IsBusy _ (handle_packets-IsBusy now packets s k v)
handle-IsBusy now (targets eps) s k v =
    let t = new_targets eps s in
    let started = start_probes-IsBusy now t (new_targets-Keyed eps s k) in
    request_more-IsBusy _ (
      if-both IsBusy (is_empty eps) started
        (same-IsBusy (start_probes now t).0 _ refl refl started))
handle-IsBusy now tick s k v =
    request_more-IsBusy _
      (start_probes-IsBusy now _ (expire_each-Ordered now s.in_progress s k).keyed)
handle-IsBusy now (rotate opens) s k v = same-IsBusy s _ refl refl v
handle-IsBusy now start s k v = request_more-IsBusy s v
handle-IsBusy now Message.done s k v = v

handle_all-from :
    (ms : List (ℕ × Message)) (s : Ups) → Keyed s → IsBusy s → IsBusy (handle_all ms s).0
unfolding handle_all
handle_all-from [] s k v = v
handle_all-from ((now, m) ∷ ms) s k v =
    handle_all-from ms (handle now m s).0 (handle-Handled now m s k).keyed
      (handle-IsBusy now m s k v)

-- After any messages, at whatever times, a target waits only while a probe to its address is in
-- progress: no queue is forgotten.
pub handle_all-IsBusy :
    (opens : Bool) (ms : List (ℕ × Message)) → IsBusy (handle_all ms (udp_processor opens).0).0
unfolding Keyed IsBusy BusyAt queue_of find udp_processor next_out_file then_do
handle_all-IsBusy opens ms =
    handle_all-from ms (udp_processor opens).0 (λ a. tt) (λ a h. ground (arith, h))

-- ===== src/Scamper/Records/Conversions.antt =====
-- What a reply says of the pings that were sent (handle_deocde_read of
-- spoki/libspoki/src/scamper/driver.cpp and async_decoder.cpp).
use spoki.Prelude.{
  ℕ, zero, suc, ◌+◌, ◌≡◌, ◌<◌, ◌≤◌, refl, ◌∙◌, ap, Bool, true, false, some, List, [], ◌∷◌, arith,
  if◌then◌else◌, length, take, drop, get_elem?,
}
use spoki.Probe.{Method}
use spoki.Scamper.Records.{
  Codes, Ping, Reply, Statistics, to_probe_method, count_reply, count_replies, reply_of,
  handle_deocde_read, ping,
}

abbrev pub count_true : List Bool → ℕ
count_true [] = 0
count_true (b ∷ bs) = (if b then 1 else 0) + count_true bs

drop-get_elem? :
    (i : ℕ) (bs : List Bool)
    → i < length bs
    → (b : Bool) × (get_elem? bs i ≡ some b) × (drop i bs ≡ b ∷ drop (suc i) bs)
drop-get_elem? i [] h = absurd (omega (arith, h))
drop-get_elem? zero (b ∷ bs) h = (b, refl, refl)
drop-get_elem? (suc i) (b ∷ bs) h =
    let rest = drop-get_elem? i bs (omega (arith, h)) in (rest.0, rest.1, rest.2)

counted :
    (b : Bool) (stats : Statistics) (n : ℕ)
    → stats.replies + stats.loss + suc n < 4294967296
    → ((count_reply (some b) stats).replies ≡ stats.replies + (if b then 1 else 0))
      × ((count_reply (some b) stats).replies + (count_reply (some b) stats).loss
          ≡ stats.replies + stats.loss + 1)
      × ((count_reply (some b) stats).replies + (count_reply (some b) stats).loss + n < 4294967296)
counted true stats n k = omega arith
counted false stats n k = omega arith

count_replies_lem :
    (n i : ℕ) (bs : List Bool) (stats : Statistics)
    → i + n ≤ length bs
    → stats.replies + stats.loss + n < 4294967296
    → ((count_replies n i bs stats).replies ≡ stats.replies + count_true (take n (drop i bs)))
      × ((count_replies n i bs stats).replies + (count_replies n i bs stats).loss
          ≡ stats.replies + stats.loss + n)
unfolding count_replies
count_replies_lem zero i bs stats h k = omega arith
count_replies_lem (suc n) i bs stats h k =
    let (b, e, d) = drop-get_elem? i bs (omega (arith, h)) in
    let stats' = count_reply (some b) stats in
    let rest = count_replies_lem n (suc i) bs stats' (omega (arith, h)) (counted b stats n k).2 in
    let e' = ap (λ o. count_replies n (suc i) bs (count_reply o stats)) e in
    let taken = ap (λ xs. count_true (take (suc n) xs)) d in
    omega (
      arith,
      ap (λ (z : Statistics). z.replies) e',
      ap (λ (z : Statistics). z.loss) e',
      taken,
      rest.0,
      rest.1,
      (counted b stats n k).0,
      (counted b stats n k).1,
    )

-- the number of the library for a method
abbrev pub code : Codes → Method → ℕ
code codes Method.icmp_echo = codes.icmp_echo
code codes Method.icmp_time = codes.icmp_time
code codes Method.tcp_syn = codes.tcp_syn
code codes Method.tcp_ack = codes.tcp_ack
code codes Method.tcp_ack_sport = codes.tcp_ack_sport
code codes Method.tcp_synack = codes.tcp_synack
code codes Method.tcp_rst = codes.tcp_rst
code codes Method.udp = codes.udp
code codes Method.udp_dport = codes.udp_dport

to_probe_method-code :
    (codes : Codes)
    → ((a b : Method) → code codes a ≡ code codes b → a ≡ b)
    → (m : Method) → to_probe_method codes (code codes m) ≡ m
unfolding to_probe_method
to_probe_method-code codes distinct Method.icmp_echo = ground arith
to_probe_method-code codes distinct m = ground (
  arith,
  distinct m Method.icmp_echo,
  distinct m Method.icmp_time,
  distinct m Method.tcp_syn,
  distinct m Method.tcp_ack,
  distinct m Method.tcp_ack_sport,
  distinct m Method.tcp_synack,
  distinct m Method.tcp_rst,
  distinct m Method.udp,
)

-- A decoded ping becomes one reply, which counts each ping that was sent once: as a reply if the
-- library has one for it, and as lost otherwise. The method is the one that its number stands for. The
-- library's numbers are distinct, and it has an entry for each ping.
handle_deocde_read-counts :
    (codes : Codes) (m : Method) (ptr : Ping)
    → ((a b : Method) → code codes a ≡ code codes b → a ≡ b)
    → ptr.probe_method ≡ code codes m
    → ptr.ping_sent < 65536
    → ptr.ping_sent ≤ length ptr.ping_replies
    → (rep : Reply) × (handle_deocde_read codes (ping ptr) ≡ some rep)
      × (rep.probe_method ≡ m)
      × (rep.stats.replies ≡ count_true (take ptr.ping_sent ptr.ping_replies))
      × (rep.stats.replies + rep.stats.loss ≡ rep.ping_sent)
unfolding handle_deocde_read reply_of
handle_deocde_read-counts codes m ptr distinct e h k =
    let counts =
      count_replies_lem ptr.ping_sent 0 ptr.ping_replies (record { replies = 0; loss = 0 })
        (omega arith) (omega (arith, h)) in
    (
      reply_of codes ptr,
      refl,
      ap (to_probe_method codes) e ∙ to_probe_method-code codes distinct m,
      omega (arith, counts.0),
      omega (arith, counts.1),
    )

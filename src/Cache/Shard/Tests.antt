-- ===== src/Cache/Shard/Tests.antt =====
-- A handshake through the shard, and its theorems at concrete packets.
use spoki.Prelude.{
  ℕ, ◌+◌, ◌*◌, ◌/◌, ◌^◌, ◌<◌, ◌≡◌, ◌≢◌, refl, Bool, true, false, [], ◌∷◌, arith, All,
}
use spoki.Prelude.Assoc.{find, has, put}
use spoki.Net.{Packet, Tcp, tcp}
use spoki.Net.Keys.{endpoint_has_eq}
use spoki.Cache.Shard.{
  ShardState, probe, log_reaction, delayed, handle_packet, next_id, synack_request, rst_request,
}
use spoki.Cache.Shard.Actor.{shard, handle_packets}
use spoki.Cache.Shard.Tags.{HasId, tag, tags_distinct}
use spoki.Cache.Shard.Reactions.{probes, Answers, probes-Answers}
use spoki.Cache.Shard.Resets.{System, Reach, here, next, arrive, IsSound, Reach-IsSound, delays}

abbrev segment : Bool → Bool → Tcp
segment syn ack = record {
  sport = 4000;
  dport = 23;
  snum = 100;
  anum = 7;
  syn = syn;
  ack = ack;
  rst = false;
  fin = false;
  window_size = 0;
  options = [];
  payload = 1 ∷ 2 ∷ [];
}

abbrev packet_of : Tcp → Packet
packet_of x = record { saddr = 10; daddr = 20; ipid = 1; ttl = 64; observed = 0; proto = tcp x }

abbrev syn_packet : Packet
syn_packet = packet_of (segment true false)

abbrev ack_packet : Packet
ack_packet = packet_of (segment false true)

abbrev started : ShardState
started = shard 3 1 2 4 false false false

-- A SYN is answered by a SYN ACK, the first ACK by one delayed RST, the second one by nothing.
handshake : (handle_packets started (syn_packet ∷ ack_packet ∷ ack_packet ∷ [])).1 ≡ (
    let r = synack_request syn_packet (segment true false) (3 * 2 ^ 24 + 1) in
    let q = rst_request ack_packet (segment false true) (3 * 2 ^ 24 + 2) in
    probe 1 r true ∷ log_reaction 0 syn_packet r ∷ delayed 5 q ∷ log_reaction 0 ack_packet q ∷ [])
unfolding handle_packets handle_packet shard find has put
handshake = refl

started-HasId : HasId started 3
unfolding shard
started-HasId = (refl, omega arith)

tags_distinct_example :
    (tag 1 started < 2 ^ 32)
    × (tag 1 started / 2 ^ 24 ≡ 3)
    × (tag 1 started ≡ tag (1 + 2 ^ 24) started)
    × (1 < 2 → 2 < 1 + 2 ^ 24 → tag 1 started ≢ tag 2 started)
    × (◌≢◌ {A = ℕ} 3 3 → tag 1 started ≢ tag 2 started)
unfolding shard
tags_distinct_example =
    tags_distinct started started 3 3 1 2 started-HasId started-HasId (omega arith) (omega arith)

probes-Answers_example :
    All
      (λ r. Answers syn_packet r × (r.user_id ≡ (next_id started).0))
      (probes (handle_packet started syn_packet).1)
probes-Answers_example = probes-Answers started syn_packet

abbrev idle : System
idle = record { shard = started; pending = [] }

idle-IsSound : IsSound idle
unfolding shard has find
idle-IsSound = record { one_each = λ ep. refl; only_rst = tt }

acked : Reach idle (record {
  shard = (handle_packet started ack_packet).0;
  pending = delays (handle_packet started ack_packet).1;
})
acked = next here (arrive idle ack_packet)

Reach-IsSound_example : IsSound (record {
  shard = (handle_packet started ack_packet).0;
  pending = delays (handle_packet started ack_packet).1;
})
Reach-IsSound_example = Reach-IsSound idle-IsSound acked

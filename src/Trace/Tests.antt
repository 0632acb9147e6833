-- ===== src/Trace/Tests.antt =====
-- Four frames of a trace in batches of two, and the theorems at them.
use spoki.Prelude.{ℕ, ◌≡◌, refl, some, List, [], ◌∷◌, ◌++◌, ◌*◌, ◌+◌, false}
use spoki.Net.{PacketData, udp}
use spoki.Trace.{
  Checks, Local, Frame, ipv4, ipv6, Ipv4, batch, packet_of, bucket, local, add_packets,
}
use spoki.Trace.Batches.{sent_to, all_meant_for, add_packets-in_order}

abbrev checks : Checks
checks = record { in_network = λ a. false; is_multicast = λ a. false; is_loopback = λ a. false }

abbrev datagram : PacketData
datagram = udp (record { sport = 1; dport = 2; payload = [] })

abbrev header : ℕ → Ipv4
header last_byte = record {
  ts = 0;
  saddr = last_byte * 16777216 + 7;
  daddr = 9;
  ip_id = 1;
  ip_ttl = 64;
  proto = some datagram;
}

abbrev frames : List Frame
frames = ipv4 (header 2) ∷ ipv6 ∷ ipv4 (header 3) ∷ ipv4 (header 4) ∷ []

abbrev fresh : Local
fresh = local [] 2 (70 ∷ 71 ∷ []) false

-- the second packet of an even last byte fills the batch of shard 70
one_batch :
    (add_packets checks frames fresh).1
    ≡ batch 70 (packet_of (header 2) datagram ∷ packet_of (header 4) datagram ∷ []) ∷ []
unfolding add_packets local
one_batch = refl

add_packets-in_order_example :
    sent_to 70 (add_packets checks frames fresh).1 ++ bucket 70 (add_packets checks frames fresh).0
    ≡ all_meant_for checks fresh 70 frames
add_packets-in_order_example = add_packets-in_order checks frames 70 [] 2 (70 ∷ 71 ∷ []) false

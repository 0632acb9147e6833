-- ===== src/Cache/Shard/Reactions.antt =====
-- What the shard sends for a packet.
use spoki.Prelude.{◌≤◌, ◌≡◌, List, [], ◌∷◌, arith, All, length, is_empty, if◌then◌else◌}
use spoki.Net.{Packet}
use spoki.Net.Keys.{five_tuple}
use spoki.Probe.{Request}
use spoki.Cache.Shard.{
  ShardState, Effect, probe, probe_plain, delayed, log, log_reaction, handle_packet, next_id,
}

-- the probes among the effects
abbrev pub probes : List Effect → List Request
probes [] = []
probes (probe a r b ∷ es) = r ∷ probes es
probes (probe_plain a r ∷ es) = r ∷ probes es
probes (delayed d r ∷ es) = r ∷ probes es
probes (e ∷ es) = probes es

abbrev pub logs : List Effect → List Packet
logs [] = []
logs (log a p ∷ es) = p ∷ logs es
logs (log_reaction a p r ∷ es) = p ∷ logs es
logs (e ∷ es) = logs es

-- The request is for the flow of the packet in the other direction.
abbrev pub Answers : Packet → Request → Type 0
Answers pkt r =
    (r.saddr ≡ (five_tuple pkt).daddr)
    × (r.daddr ≡ (five_tuple pkt).saddr)
    × (r.sport ≡ (five_tuple pkt).dport)
    × (r.dport ≡ (five_tuple pkt).sport)

-- Every probe for a packet goes back along the packet's flow, under the tag that `next_id` gives.
pub probes-Answers :
    (s : ShardState) (pkt : Packet)
    → All (λ r. Answers pkt r × (r.user_id ≡ (next_id s).0)) (probes (handle_packet s pkt).1)
unfolding handle_packet five_tuple
probes-Answers s pkt = ground arith

-- A packet is logged at most once and probed at most once, never without the log; a packet that is
-- not logged changes nothing; and the tag counter moves exactly with a probe.
reaction_counts :
    (s : ShardState) (pkt : Packet)
    → let (t, es) = handle_packet s pkt in
      (length (probes es) ≤ length (logs es))
      × (length (logs es) ≤ 1)
      × All (λ p. p ≡ pkt) (logs es)
      × (logs es ≡ [] → (t ≡ s) × (es ≡ []))
      × (t.tag_cnt ≡ (if is_empty (probes es) then s.tag_cnt else (next_id s).1.tag_cnt))
unfolding handle_packet
reaction_counts s pkt = ground arith

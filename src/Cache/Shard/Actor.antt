-- ===== src/Cache/Shard/Actor.antt =====
-- The message handlers of the `shard` actor, its down handler and its start
-- (spoki/libspoki/src/cache/shard.cpp).
use spoki.Prelude.{◌*◌, ◌%◌, ◌^◌, Bool, true, false, not, List, [], ◌∷◌, ◌++◌, ◌==◌, if◌then◌else◌}
use spoki.Prelude.Assoc.{erase}
use spoki.Net.{Packet, Endpoint}
use spoki.Net.Keys.{endpoint_has_eq}
use spoki.Probe.{Method, Request}
use spoki.Cache.Shard.{ActorId, ShardState, Effect, probe_plain, done, quit, handle_packet}

pub data Message : Type 0 where
  packet : Packet → Message
  packets : List Packet → Message
  -- what `delayed_send(self, …, req)` delivers
  request : Request → Message
  collect_tcp_start : ActorId → Message
  collect_tcp_stop : Message
  collect_icmp_start : ActorId → Message
  collect_icmp_stop : Message
  collect_udp_start : ActorId → Message
  collect_udp_stop : Message
  shutdown : Message
  -- any other message, such as a batch behind an `event_atom`: `print_and_drop`
  unexpected : Message

-- the loop over a batch
unfoldable pub handle_packets : ShardState → List Packet → ShardState × List Effect
handle_packets s [] = (s, [])
handle_packets s (pkt ∷ pkts) =
    let (t, es) = handle_packet s pkt in let (u, fs) = handle_packets t pkts in (u, es ++ fs)

abbrev pub is_tcp_rst : Method → Bool
is_tcp_rst Method.tcp_rst = true
is_tcp_rst _ = false

-- the endpoint that a RST request goes to
abbrev pub target : Request → Endpoint
target req = record { daddr = req.daddr; dport = req.dport }

unfoldable pub handle_request : ShardState → Request → ShardState × List Effect
handle_request s req =
    if is_tcp_rst req.probe_method
    then (
      record s { rst_scheduled = erase (target req) s.rst_scheduled },
      probe_plain s.tcp_prober req ∷ [],
    )
    else (s, [])

unfoldable pub handle : ShardState → Message → ShardState × List Effect
unfolding handle_packets handle_request
handle s (packet pkt) = handle_packet s pkt
handle s (packets pkts) = handle_packets s pkts
handle s (request req) = handle_request s req
handle s (collect_tcp_start h) = (record s { tcp_collector = h }, done s.tcp_collector ∷ [])
handle s collect_tcp_stop = (s, done s.tcp_collector ∷ [])
handle s (collect_icmp_start h) = (record s { icmp_collector = h }, done s.icmp_collector ∷ [])
handle s collect_icmp_stop = (s, done s.icmp_collector ∷ [])
handle s (collect_udp_start h) = (record s { udp_collector = h }, done s.udp_collector ∷ [])
handle s collect_udp_stop = (s, done s.udp_collector ∷ [])
handle s shutdown = (s, quit ∷ [])
handle s unexpected = (s, [])

-- `down_handler`: the shard ends with any monitored actor but the result handler
unfoldable pub down_handler : ShardState → ActorId → List Effect
down_handler s source = if source == s.result_handler then [] else quit ∷ []

-- `shard`: the `disable` flags are those of the configuration, the handles not given are invalid
unfoldable pub shard :
    (id tcp_prober icmp_prober udp_prober : ActorId)
    → (disable_icmp disable_tcp disable_udp : Bool) → ShardState
shard id tcp_prober icmp_prober udp_prober disable_icmp disable_tcp disable_udp = record {
  result_handler = 0;
  tcp_collector = 0;
  icmp_collector = 0;
  udp_collector = 0;
  tcp_prober = tcp_prober;
  icmp_prober = icmp_prober;
  udp_prober = udp_prober;
  enable_icmp = not disable_icmp;
  enable_tcp = not disable_tcp;
  enable_udp = not disable_udp;
  rst_scheduled = [];
  shard_id = id % 256 * 2 ^ 24;
  tag_cnt = 0;
}

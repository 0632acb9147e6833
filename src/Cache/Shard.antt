-- ===== src/Cache/Shard.antt =====
-- `cache::shard_state` and the handlers of the `shard` actor (spoki/libspoki/src/cache/shard.cpp).
-- What a handler sends is a list of effects; an actor handle is a number.
pub mod Actor
pub mod Tags
pub mod Reactions
pub mod Resets
mod Tests
use spoki.Prelude.{
  ℕ, ◌+◌, ◌*◌, ◌%◌, ◌^◌, Bool, true, false, not, ◌&&◌, List, [], ◌∷◌, ◌++◌, ◌==◌, if◌then◌else◌,
  length,
}
use spoki.Prelude.Words.{u32}
use spoki.Prelude.Bits.{bit_and, bit_or}
use spoki.Prelude.Assoc.{put, erase, has}
use spoki.Net.{Packet, Endpoint, Tcp, Udp, Icmp, IcmpType, icmp, tcp, udp}
use spoki.Net.Keys.{get_key, endpoint_has_eq}
use spoki.Probe.{Method, Request, empty_request}

abbrev pub ActorId : Type 0
ActorId = ℕ

pub record ShardState : Type 0 where
  pub result_handler : ActorId
  pub tcp_collector : ActorId
  pub icmp_collector : ActorId
  pub udp_collector : ActorId
  pub tcp_prober : ActorId
  pub icmp_prober : ActorId
  pub udp_prober : ActorId
  pub enable_icmp : Bool
  pub enable_tcp : Bool
  pub enable_udp : Bool
  pub rst_scheduled : List (Endpoint × Unit {0})  -- an `unordered_set`
  pub shard_id : ℕ  -- uint32_t, the upper 8 bits
  pub tag_cnt : ℕ  -- uint32_t, the lower 24 bits

pub data Effect : Type 0 where
  -- `send(prober, req, is_scanner_like)`
  probe : ActorId → Request → Bool → Effect
  -- `send(prober, req)`
  probe_plain : ActorId → Request → Effect
  -- `delayed_send(self, delay, req)`
  delayed : ℕ → Request → Effect
  -- `send(collector, pkt)`
  log : ActorId → Packet → Effect
  -- `send(collector, pkt, req)`
  log_reaction : ActorId → Packet → Request → Effect
  -- `send(collector, done_atom_v)`
  done : ActorId → Effect
  quit : Effect

abbrev pub tag_cnt_max : ℕ
tag_cnt_max = 0xffffff

-- defaults.hpp, the delay in seconds
abbrev pub num_tcp_probes : ℕ
num_tcp_probes = 1

abbrev pub num_tcp_rst_probes : ℕ
num_tcp_rst_probes = 2

abbrev pub num_udp_probes : ℕ
num_udp_probes = 5

abbrev pub num_icmp_probes : ℕ
num_icmp_probes = 5

abbrev pub reset_delay : ℕ
reset_delay = 5

-- The tag, and the state with the counter moved on.
unfoldable pub next_id : ShardState → ℕ × ShardState
next_id s =
    let cnt = bit_and (u32 (s.tag_cnt + 1)) tag_cnt_max in
    (bit_or s.shard_id cnt, record s { tag_cnt = cnt })

-- the source of the ACK branch and the destination of its RST
abbrev pub source : Packet → ℕ → Endpoint
source pkt port = record { daddr = pkt.saddr; dport = port }

pub synack_request : Packet → Tcp → ℕ → Request
synack_request pkt x uid = record empty_request {
  probe_method = Method.tcp_synack;
  user_id = uid;
  saddr = pkt.daddr;
  daddr = pkt.saddr;
  sport = x.dport;
  dport = x.sport;
  anum = u32 (x.snum + length x.payload + 1);
  num_probes = num_tcp_probes;
}

pub rst_request : Packet → Tcp → ℕ → Request
rst_request pkt x uid = record empty_request {
  probe_method = Method.tcp_rst;
  user_id = uid;
  saddr = pkt.daddr;
  daddr = pkt.saddr;
  sport = x.dport;
  dport = x.sport;
  snum = x.anum;
  num_probes = num_tcp_rst_probes;
}

pub udp_probe : Packet → Udp → ℕ → Request
udp_probe pkt x uid = record empty_request {
  probe_method = Method.udp;
  user_id = uid;
  saddr = pkt.daddr;
  daddr = pkt.saddr;
  sport = x.dport;
  dport = x.sport;
  payload = x.payload;
  num_probes = num_udp_probes;
}

pub icmp_probe : Packet → ℕ → Request
icmp_probe pkt uid = record empty_request {
  probe_method = Method.icmp_echo;
  user_id = uid;
  saddr = pkt.daddr;
  daddr = pkt.saddr;
  num_probes = num_icmp_probes;
}

abbrev pub is_echo_reply : IcmpType → Bool
is_echo_reply IcmpType.echo_reply = true
is_echo_reply _ = false

-- the TCP part of `handle_packet`
unfoldable pub handle_tcp : ShardState → Packet → Tcp → ShardState × List Effect
unfolding next_id synack_request rst_request get_key
handle_tcp s pkt x =
    if not s.enable_tcp
    then (s, [])
    else if x.syn && not x.ack && not x.rst
    then (let (uid, t) = next_id s in
        let req = synack_request pkt x uid in
        (
          t,
          probe s.tcp_prober req (get_key pkt).is_scanner_like
              ∷ log_reaction s.tcp_collector pkt req
              ∷ [],
        ))
    else if not x.syn && x.ack
    then (if has (source pkt x.sport) s.rst_scheduled
        then (s, [])
        else (let (uid, t) = next_id s in
            let req = rst_request pkt x uid in
            (
              record t { rst_scheduled = put (source pkt x.sport) tt s.rst_scheduled },
              delayed reset_delay req ∷ log_reaction s.tcp_collector pkt req ∷ [],
            )))
    else (s, log s.tcp_collector pkt ∷ [])

-- the UDP part
unfoldable pub handle_udp : ShardState → Packet → Udp → ShardState × List Effect
unfolding next_id udp_probe get_key
handle_udp s pkt x =
    if not s.enable_udp
    then (s, [])
    else (let (uid, t) = next_id s in
        let req = udp_probe pkt x uid in
        (
          t,
          probe s.udp_prober req (get_key pkt).is_scanner_like
              ∷ log_reaction s.udp_collector pkt req
              ∷ [],
        ))

-- the ICMP part: an echo reply is logged with the request that nothing was written to
unfoldable pub handle_icmp : ShardState → Packet → Icmp → ShardState × List Effect
unfolding next_id icmp_probe
handle_icmp s pkt x =
    if not s.enable_icmp
    then (s, [])
    else if is_echo_reply x.type
    then (s, log_reaction s.icmp_collector pkt empty_request ∷ [])
    else (let (uid, t) = next_id s in
        let req = icmp_probe pkt uid in
        (t, probe_plain s.icmp_prober req ∷ log_reaction s.icmp_collector pkt req ∷ []))

-- `handle_packet`
unfoldable pub handle_packet : ShardState → Packet → ShardState × List Effect
unfolding handle_tcp handle_udp handle_icmp
handle_packet s pkt = elim pkt.proto [
  | icmp x ↦ handle_icmp s pkt x
  | tcp x ↦ handle_tcp s pkt x
  | udp x ↦ handle_udp s pkt x
]

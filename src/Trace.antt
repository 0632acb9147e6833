-- ===== src/Trace.antt =====
-- `trace::local` (spoki/libspoki/src/trace/state.cpp): packets of a trace are filtered, counted and
-- passed to the shards in batches.
pub mod Batches
pub mod Counters
pub mod Protocol
mod Tests
use spoki.Prelude.{
  ℕ, ◌+◌, ◌/◌, ◌%◌, Bool, true, false, not, ◌&&◌, ◌||◌, Option, none, some, List, [], ◌∷◌, ◌++◌,
  leb, ◌==◌, if◌then◌else◌, length, is_empty, any_of, get_elem?,
}
use spoki.Prelude.Words.{u64}
use spoki.Prelude.Eq.{nat_has_eq}
use spoki.Prelude.Assoc.{find, put}
use spoki.Net.{Address, PacketData, Packet}

-- What libtrace finds in a packet: no third layer, an IPv4 header (its numbers in host order) with
-- what `extract_protocol` reads behind it, an IPv6 header, or something else.
pub record Ipv4 : Type 0 where
  pub ts : ℕ
  pub saddr : Address
  pub daddr : Address
  pub ip_id : ℕ
  pub ip_ttl : ℕ
  pub proto : Option PacketData

pub data Frame : Type 0 where
  no_layer3 : Frame
  ipv4 : Ipv4 → Frame
  ipv6 : Frame
  other_type : Frame

-- `network.contains`, and `is_multicast` and `is_loopback` of the actor library's addresses
pub record Checks : Type 0 where
  pub in_network : Address → Bool
  pub is_multicast : Address → Bool
  pub is_loopback : Address → Bool

pub record Local : Type 0 where
  pub total_packets : ℕ  -- uint64_t
  pub ipv4_packets : ℕ  -- uint64_t
  pub ipv6_packets : ℕ  -- uint64_t
  pub others : ℕ  -- uint64_t
  pub batch_size : ℕ
  pub packets : List (ℕ × List Packet)
  pub filter : List Address
  pub router : List ℕ
  pub enable_filters : Bool

-- the messages to a shard: a packet, a batch, or the batch behind an `event_atom` of `send_all`
pub data Message : Type 0 where
  single : ℕ → Packet → Message
  batch : ℕ → List Packet → Message
  event : ℕ → List Packet → Message

abbrev filtered : Local → Address → Bool
filtered s a = any_of (λ b. b == a) s.filter

-- the checks of the addresses, while the filters are enabled
unfoldable pub passes : Checks → Local → Ipv4 → Bool
passes c s h =
    not (s.enable_filters && (c.in_network h.saddr || filtered s h.saddr))
    && not (
        s.enable_filters
        && (not (c.in_network h.daddr)
            || filtered s h.daddr
            || c.is_multicast h.daddr
            || c.is_loopback h.daddr))

-- the last byte of the source selects the shard
unfoldable pub route : Local → Address → Option ℕ
route s saddr =
    if is_empty s.router
    then none
    else get_elem? s.router ((saddr / 16777216 % 256) % length s.router)

unfoldable pub bucket : ℕ → Local → List Packet
unfolding find
bucket worker s = elim (find worker s.packets) [ none ↦ [] | some b ↦ b ]

-- the packet is sent, or joins its bucket, which is sent when it is full
unfoldable pub dispatch : ℕ → Packet → Local → Local × List Message
unfolding bucket put
dispatch worker pkt s =
    let full = bucket worker s ++ pkt ∷ [] in
    if s.batch_size == 1
    then (s, single worker pkt ∷ [])
    else if leb s.batch_size (length full)
    then (record s { packets = put worker [] s.packets }, batch worker full ∷ [])
    else (record s { packets = put worker full s.packets }, [])

abbrev pub packet_of : Ipv4 → PacketData → Packet
packet_of h proto = record {
  saddr = h.saddr;
  daddr = h.daddr;
  ipid = h.ip_id;
  ttl = h.ip_ttl;
  observed = h.ts;
  proto = proto;
}

-- the packet of an IPv4 header and its shard, if it passes, has a known protocol, and has a route
unfoldable pub accepted : Checks → Local → Ipv4 → Option (ℕ × Packet)
unfolding passes route
accepted c s h =
    if passes c s h
    then elim h.proto [
      | none ↦ none
      | some proto ↦ elim (route s h.saddr) [
        | none ↦ none
        | some worker ↦ some (worker, packet_of h proto)
      ]
    ]
    else none

unfoldable pub add_ipv4 : Checks → Ipv4 → Local → Local × List Message
unfolding accepted dispatch
add_ipv4 c h s = elim (accepted c s h) [ none ↦ (s, []) | some p ↦ dispatch p.0 p.1 s ]

unfoldable pub add_packet : Checks → Frame → Local → Local × List Message
unfolding add_ipv4
add_packet c frame s =
    let s' = record s { total_packets = u64 (s.total_packets + 1) } in
    elim frame [
      | no_layer3 ↦ (record s' { others = u64 (s.others + 1) }, [])
      | ipv4 h ↦ add_ipv4 c h (record s' { ipv4_packets = u64 (s.ipv4_packets + 1) })
      | ipv6 ↦ (record s' { ipv6_packets = u64 (s.ipv6_packets + 1) }, [])
      | other_type ↦ (record s' { others = u64 (s.others + 1) }, [])
    ]

-- `send_all`: every bucket is moved into a message
unfoldable pub send_all : List (ℕ × List Packet) → List Message
send_all [] = []
send_all ((worker, b) ∷ bs) = event worker b ∷ send_all bs

-- `local::local`, with the router that `make_local` fills
unfoldable pub local : List Address → ℕ → List ℕ → Bool → Local
local filter batch_size router enable_filters = record {
  total_packets = 0;
  ipv4_packets = 0;
  ipv6_packets = 0;
  others = 0;
  batch_size = batch_size;
  packets = [];
  filter = filter;
  router = router;
  enable_filters = enable_filters;
}

unfoldable pub add_packets : Checks → List Frame → Local → Local × List Message
unfolding add_packet
add_packets c [] s = (s, [])
add_packets c (f ∷ fs) s =
    let (s1, first) = add_packet c f s in
    let (s2, rest) = add_packets c fs s1 in (s2, first ++ rest)

-- ===== src/Tools/UdpProcessor.antt =====
-- The actor udp_processor (spoki/tools/src/udp_processor.cpp, spoki/tools/hdr/udp_processor.hpp): targets
-- wait in a queue for each address, are probed one at a time, and end with a reply or a timeout.
-- The clock is read once for a message, in nanoseconds.
pub mod Requests
pub mod Steps
pub mod Order
pub mod Starting
pub mod Waiting
pub mod Advancing
pub mod Unreachable
mod Tests
use spoki.Prelude.{
  ℕ, ◌-◌, ◌*◌, Bool, true, false, not, ◌&&◌, none, some, List, [], ◌∷◌, ◌++◌, ltb, ◌==◌,
  if◌then◌else◌, length, is_empty,
}
use spoki.Prelude.Eq.{nat_has_eq}
use spoki.Prelude.Assoc.{find, has, put, erase}
use spoki.Prelude.Decimal.{to_string}
use spoki.Probe.Commands.{to_hex_string}
use spoki.Scamper.{Bytes}
use spoki.Net.{Address, Payload, IcmpType, PacketData, Packet}

-- `up::endpoint`
pub record Target : Type 0 where
  pub saddr : Address
  pub daddr : Address
  pub sport : ℕ  -- uint16_t
  pub dport : ℕ  -- uint16_t
  pub payload : Payload

-- `std::equal_to<up::endpoint>`, which leaves out the payload
unfoldable pub equal_to : Target → Target → Bool
equal_to x y = x.saddr == y.saddr && x.daddr == y.daddr && x.sport == y.sport && x.dport == y.dport

-- the target that is probed, and when the request was sent
pub record Probe : Type 0 where
  pub target : Target
  pub since : ℕ

pub record Ups : Type 0 where
  pub pending : List (Address × List Target)
  pub in_progress : List (Address × Probe)
  pub finished : List (Target × Bool)
  pub asked : Bool
  pub out : Bool  -- whether the file is open

-- the column for the protocol; it is "-" where no reply came
pub data Proto : Type 0 where
  udp icmp no_reply : Proto

pub data Effect : Type 0 where
  -- the request for a probe that start_probe sends to the prober, and the one that retransmit sends
  requested : Target → Effect
  retransmitted : Target → Effect
  more : ℕ → Effect  -- the source is asked for so many targets
  header : Effect
  row : Address → ℕ → Proto → Payload → Effect
  next_tick next_rotate done quit : Effect

abbrev pub batch_size : ℕ
batch_size = 5

abbrev pub threshold : ℕ
threshold = 10

abbrev pub second : ℕ
second = 1000000000

abbrev pub interval : ℕ
interval = 6 * second

abbrev pub timeout : ℕ
timeout = 20 * second

-- the constructor
abbrev pub ups : Ups
ups = record { pending = []; in_progress = []; finished = []; asked = false; out = false }

unfoldable pub request_more : Ups → Ups × List Effect
request_more s =
    if not s.asked && ltb (length s.in_progress) threshold
    then (record s { asked = true }, more batch_size ∷ [])
    else (s, [])

-- `pending[addr]`
unfoldable pub queue_of : Address → Ups → List Target
unfolding find
queue_of addr s = elim (find addr s.pending) [ none ↦ [] | some q ↦ q ]

unfoldable pub new_target : Target → Ups → Ups
unfolding queue_of put
new_target ep s = record s { pending = put ep.daddr (queue_of ep.daddr s ++ ep ∷ []) s.pending }

unfoldable pub start_probe : ℕ → Address → Ups → Ups × List Effect
unfolding queue_of put
start_probe now addr s = elim (queue_of addr s) [
  | [] ↦ (record s { pending = put addr [] s.pending }, [])
  | next ∷ rest ↦ (
    record s {
      pending = put addr rest s.pending;
      in_progress = put next.daddr (record { target = next; since = now }) s.in_progress;
    },
    requested next ∷ [],
  )
]

-- the loop of `start_probes` over these keys of `pending`
unfoldable pub start_each : ℕ → List Address → Ups → Ups × List Effect
unfolding start_probe has
start_each now [] s = (s, [])
start_each now (addr ∷ addrs) s =
    let once : Ups × List Effect =
      if has addr s.in_progress then (s, []) else start_probe now addr s in
    let rest = start_each now addrs once.0 in (rest.0, once.1 ++ rest.1)

abbrev pub keys : List (Address × List Target) → List Address
keys [] = []
keys ((addr, q) ∷ m) = addr ∷ keys m

unfoldable pub start_probes : ℕ → Ups → Ups × List Effect
unfolding start_each
start_probes now s = start_each now (keys s.pending) s

unfoldable pub retransmit : Address → Ups → List Effect
unfolding find
retransmit addr s = elim (find addr s.in_progress) [
  | none ↦ []
  | some p ↦ retransmitted p.target ∷ []
]

-- `append`: a stream that is not open takes nothing
unfoldable pub append : Address → ℕ → Proto → Payload → Ups → List Effect
append addr port proto payload s = if s.out then row addr port proto payload ∷ [] else []

abbrev proto_name : Proto → Bytes
proto_name Proto.udp = b'u' ∷ b'd' ∷ b'p' ∷ []
proto_name Proto.icmp = b'i' ∷ b'c' ∷ b'm' ∷ b'p' ∷ []
proto_name Proto.no_reply = b'-' ∷ []

-- the text of a row, over the printer of addresses
unfoldable pub line : (Address → Bytes) → Address → ℕ → Proto → Payload → Bytes
unfolding to_string to_hex_string
line print addr port proto payload =
    print addr
    ++ b',' ∷ to_string port
    ++ b',' ∷ proto_name proto
    ++ b',' ∷ to_hex_string payload
    ++ 10 ∷ []

-- over whether the file can be opened
unfoldable pub next_out_file : Bool → Ups → Ups × List Effect
next_out_file opens s =
    (record s { out = opens }, if opens then header ∷ next_rotate ∷ [] else done ∷ [])

-- `finished[ep] = answered`: a key that is there stays
unfoldable pub finish : Target → Bool → List (Target × Bool) → List (Target × Bool)
unfolding equal_to
finish ep answered [] = (ep, answered) ∷ []
finish ep answered ((x, b) ∷ m) =
    if equal_to x ep then (x, answered) ∷ m else (x, b) ∷ finish ep answered m

abbrev is_unreachable : IcmpType → Bool
is_unreachable IcmpType.dest_unreachable = true
is_unreachable _ = false

-- The probe to `addr` has ended: the next one for the same address starts.
unfoldable pub settle : ℕ → Address → Target → Bool → Ups → Ups × List Effect
unfolding finish erase start_probe
settle now addr ep answered s =
    start_probe now addr (record s {
      finished = finish ep answered s.finished;
      in_progress = erase addr s.in_progress;
    })

-- whether a packet ends the probe of `ep`: a datagram from its port, or an ICMP message whose
-- original header has its port for the source
unfoldable pub ends : Target → PacketData → Bool
ends ep (PacketData.udp proto) = ep.dport == proto.sport
ends ep (PacketData.icmp proto) = elim proto.unreachable [
  | none ↦ false
  | some hdr ↦ is_unreachable proto.type && hdr.sport == ep.dport
]
ends ep (PacketData.tcp proto) = false

-- the row that such a packet gives
unfoldable pub reply_row : Packet → Target → PacketData → Ups → List Effect
unfolding append
reply_row pkt ep (PacketData.udp proto) s = append pkt.saddr proto.sport Proto.udp proto.payload s
reply_row pkt ep (PacketData.icmp proto) s = append pkt.saddr ep.dport Proto.icmp [] s
reply_row pkt ep (PacketData.tcp proto) s = []

abbrev pub carries_udp : PacketData → Bool
carries_udp (PacketData.udp proto) = true
carries_udp _ = false

unfoldable pub handle_packet : ℕ → Packet → Ups → Ups × List Effect
unfolding find ends reply_row settle
handle_packet now pkt s = elim (find pkt.saddr s.in_progress) [
  | none ↦ (s, [])
  | some p ↦
      let settled = settle now pkt.saddr p.target (carries_udp pkt.proto) s in
      if ends p.target pkt.proto
      then (settled.0, reply_row pkt p.target pkt.proto s ++ settled.1)
      else (s, [])
]

unfoldable pub handle_packets : ℕ → List Packet → Ups → Ups × List Effect
unfolding handle_packet
handle_packets now [] s = (s, [])
handle_packets now (pkt ∷ pkts) s =
    let once = handle_packet now pkt s in
    let rest = handle_packets now pkts once.0 in (rest.0, once.1 ++ rest.1)

-- one entry of `in_progress` at a tick
unfoldable pub expire : ℕ → Address → Probe → Ups → Ups × List Effect
unfolding finish erase append retransmit
expire now addr p s =
    let diff = now - p.since in
    if ltb timeout diff
    then (
      record s {
        finished = finish p.target false s.finished;
        in_progress = erase addr s.in_progress;
      },
      append p.target.daddr p.target.dport Proto.no_reply [] s,
    )
    else if ltb interval diff
    then (s, retransmit addr s)
    else (s, [])

-- the loop of a tick over these entries of `in_progress`
unfoldable pub expire_each : ℕ → List (Address × Probe) → Ups → Ups × List Effect
unfolding expire
expire_each now [] s = (s, [])
expire_each now ((addr, p) ∷ m) s =
    let once = expire now addr p s in
    let rest = expire_each now m once.0 in (rest.0, once.1 ++ rest.1)

unfoldable pub new_targets : List Target → Ups → Ups
unfolding new_target
new_targets [] s = s
new_targets (ep ∷ eps) s = new_targets eps (new_target ep s)

pub data Message : Type 0 where
  event : List Packet → Message
  targets : List Target → Message
  tick : Message
  rotate : Bool → Message  -- over whether the new file can be opened
  start done : Message

-- the effects of one part of a handler, and of the next
unfoldable pub then_do : Ups × List Effect → (Ups → Ups × List Effect) → Ups × List Effect
then_do (s, es) next = let (t, fs) = next s in (t, es ++ fs)

-- the handlers, over the time of the message
unfoldable pub handle : ℕ → Message → Ups → Ups × List Effect
unfolding handle_packets new_targets start_probes expire_each request_more next_out_file then_do
handle now (event packets) s = then_do (handle_packets now packets s) request_more
handle now (targets eps) s =
    then_do (start_probes now (new_targets eps s))
      (λ t. request_more (if is_empty eps then t else record t { asked = false }))
handle now tick s =
    then_do (then_do (then_do (expire_each now s.in_progress s) (start_probes now)) request_more)
      (λ t. (t, next_tick ∷ []))
handle now (rotate opens) s = next_out_file opens s
handle now start s = request_more s
handle now Message.done s = (s, quit ∷ [])

-- the actor's start
unfoldable pub udp_processor : Bool → Ups × List Effect
unfolding next_out_file then_do
udp_processor opens = then_do (ups, next_tick ∷ []) (next_out_file opens)

-- messages one after the other, each with its time
unfoldable pub handle_all : List (ℕ × Message) → Ups → Ups × List Effect
unfolding handle
handle_all [] s = (s, [])
handle_all ((now, m) ∷ ms) s =
    let once = handle now m s in let rest = handle_all ms once.0 in (rest.0, once.1 ++ rest.1)

-- ===== src/Probe/UdpProber.antt =====
-- `probe::udp_prober` (spoki/libspoki/src/probe/udp_prober.cpp), with the poll backend: the requests
-- that other threads add, the callbacks of the multiplexer, its loop, and the actor in front.
-- `print` stands for the printer of addresses of the actor library, `inet_addr` for the C library's.
pub mod Opening
pub mod Waking
pub mod Sending
pub mod Serving
mod Tests
use spoki.Prelude.{
  ℕ, ◌+◌, Bool, true, false, not, ◌&&◌, Option, none, some, List, [], ◌∷◌, ◌++◌, if◌then◌else◌,
  length, is_empty,
}
use spoki.Prelude.Words.{u16}
use spoki.Prelude.Eq.{nat_has_eq}
use spoki.Prelude.Assoc.{find}
use spoki.Multiplexing.{Operation, Events, events_of}
use spoki.Net.{Address, Payload, Packet, PacketData}
use spoki.Probe.Datagrams.{Bytes, htons, datagram}

pub record UdpRequest : Type 0 where
  pub saddr : Address
  pub daddr : Address
  pub sport : ℕ  -- uint16_t
  pub dport : ℕ  -- uint16_t
  pub payload : Payload

pub data Fd : Type 0 where
  notify_in probe_out : Fd

pub record UdpProber : Type 0 where
  pub requests : List UdpRequest
  pub reflect : Bool
  pub default_payload : Payload
  pub payloads : List (ℕ × Payload)
  pub done : Bool
  pub writing : Bool
  pub notify_events : Events
  pub probe_events : Events

-- the constructor, and the events that `run` sets up before its loop
unfoldable pub udp_prober : List (ℕ × Payload) → Bool → UdpProber
udp_prober payloads reflect = record {
  requests = [];
  reflect = reflect;
  default_payload = 10 ∷ [];
  payloads = payloads;
  done = false;
  writing = false;
  notify_events = Events.pollin;
  probe_events = Events.no_events;
}

-- `get_payloads`, which holds nothing yet
abbrev pub get_payloads : List (ℕ × Payload)
get_payloads = []

-- `make`, once its sockets are open
unfoldable pub make : Bool → Bool → UdpProber
unfolding udp_prober
make service_specific reflect = udp_prober (if service_specific then get_payloads else []) reflect

-- the entry of `mods_`
abbrev set_events : Fd → Events → UdpProber → UdpProber
set_events Fd.notify_in e p = record p { notify_events = e }
set_events Fd.probe_out e p = record p { probe_events = e }

unfoldable pub enable : Fd → Operation → UdpProber → UdpProber
enable fd op p = set_events fd (events_of op) p

unfoldable pub disable : Fd → UdpProber → UdpProber
disable fd p = set_events fd Events.no_events p

-- what happens outside of the prober: a byte on the notification socket, and the end of the actor
pub data Effect : Type 0 where
  poke quit : Effect

unfoldable pub add_request : UdpRequest → UdpProber → UdpProber × List Effect
add_request req p =
    (record p { requests = p.requests ++ req ∷ [] }, if p.writing then [] else Effect.poke ∷ [])

-- `stop`, and `shutdown`; the loop's thread is joined
unfoldable pub stop : UdpProber → UdpProber × List Effect
stop p = (record p { done = true }, Effect.poke ∷ [])

-- `handle_notify_read`, behind its `recv`
unfoldable pub handle_notify_read : UdpProber → UdpProber
unfolding enable
handle_notify_read p = record (enable Fd.probe_out Operation.write p) { writing = true }

-- the payload for the front request, assigned through the reference `payload`
unfoldable pub choose_payload : UdpRequest → UdpProber → Payload
unfolding find
choose_payload next p = elim (find next.dport p.payloads) [
  | none ↦ if p.reflect then next.payload else p.default_payload
  | some payload ↦ payload
]

-- a call of `sendto`: the bytes, and the address in its `sockaddr_in`
pub record Sent : Type 0 where
  pub bytes : Bytes
  pub sin_addr : ℕ
  pub sin_port : ℕ

module _ (print : Address → Bytes) (inet_addr : Bytes → ℕ) where
  unfoldable pub wire : Payload → UdpRequest → Sent
  unfolding datagram
  wire payload next =
      let src = inet_addr (print next.saddr) in
      let dst = inet_addr (print next.daddr) in
      record {
        bytes = datagram src dst next.sport next.dport payload;
        sin_addr = dst;
        sin_port = htons next.dport;
      }

-- nothing is left to write
unfoldable pub rest_if_empty : UdpProber → UdpProber
unfolding disable
rest_if_empty p =
    if is_empty p.requests then record (disable Fd.probe_out p) { writing = false } else p

module _ (print : Address → Bytes) (inet_addr : Bytes → ℕ) where
  -- the front request is sent, whatever `sendto` returns; the reference is to `default_payload_`
  unfoldable pub send_front : UdpRequest → List UdpRequest → UdpProber → UdpProber × List Sent
  unfolding choose_payload wire
  send_front next rest p =
      let payload = choose_payload next p in
      (
        record p { requests = rest; default_payload = payload },
        wire print inet_addr payload next ∷ [],
      )

  unfoldable pub handle_probe_write : UdpProber → UdpProber × List Sent
  unfolding send_front rest_if_empty
  handle_probe_write p =
      let sent : UdpProber × List Sent = elim p.requests [
        | [] ↦ (p, [])
        | next ∷ rest ↦ send_front next rest p
      ] in
      (rest_if_empty sent.0, sent.1)

  -- the callbacks that `start` sets
  unfoldable pub callback : Fd → UdpProber → UdpProber × List Sent
  unfolding handle_probe_write handle_notify_read
  callback Fd.notify_in p = (handle_notify_read p, [])
  callback Fd.probe_out p = handle_probe_write p

-- what `::poll` returns: an error, or which of the two sockets have an event of the mask
pub data PollResult : Type 0 where
  failed : PollResult
  ready : Bool → Bool → PollResult

module _ (print : Address → Bytes) (inet_addr : Bytes → ℕ) where
  dispatch : Bool → Fd → UdpProber × List Sent → UdpProber × List Sent
  unfolding callback
  dispatch revents fd (p, out) =
      let called = callback print inet_addr fd p in
      if revents then (called.0, out ++ called.1) else (p, out)

  -- one round of the loop of `run`
  unfoldable pub loop_round : PollResult → UdpProber → UdpProber × List Sent
  unfolding dispatch
  loop_round failed p = (record p { done = true }, [])
  loop_round (ready on_notify on_probe) p =
      dispatch on_probe Fd.probe_out (dispatch on_notify Fd.notify_in (p, []))

  loop : List PollResult → UdpProber → UdpProber × List Sent
  unfolding loop_round
  loop [] p = (p, [])
  loop (r ∷ rs) p =
      let once = loop_round r p in
      let rest = loop rs once.0 in if p.done then (p, []) else (rest.0, once.1 ++ rest.1)

  -- `run`, over what the calls of `::poll` return
  unfoldable pub run : List PollResult → UdpProber → UdpProber × List Sent
  unfolding loop
  run rs p = loop rs (record p { done = false })

pub data Message : Type 0 where
  packet : Packet → Message
  target : Address → Address → ℕ → ℕ → Payload → Message
  done : Message

-- a request that sends back what came
abbrev answer : Packet → ℕ → ℕ → Payload → UdpRequest
answer pkt sport dport payload = record {
  saddr = pkt.daddr;
  daddr = pkt.saddr;
  sport = dport;
  dport = sport;
  payload = payload;
}

handle_packet : Packet → PacketData → UdpProber → UdpProber × List Effect
unfolding add_request
handle_packet pkt (PacketData.udp proto) p =
    add_request (answer pkt proto.sport proto.dport proto.payload) p
handle_packet pkt _ p = (p, [])

-- the actor `prober`
unfoldable pub handle : Message → UdpProber → UdpProber × List Effect
unfolding handle_packet stop add_request
handle (packet pkt) p = handle_packet pkt pkt.proto p
handle (target saddr daddr sport dport payload) p =
    add_request
      (record { saddr = saddr; daddr = daddr; sport = sport; dport = dport; payload = payload }) p
handle done p = let (p', pokes) = stop p in (p', pokes ++ Effect.quit ∷ [])

-- ===== src/Tools/UdpProcessor/Tests.antt =====
-- A run of the actor, and its theorems at it.
use spoki.Prelude.{ℕ, ◌+◌, ◌*◌, ◌≡◌, refl, arith, true, List, [], ◌∷◌, ◌++◌, some}
use spoki.Prelude.Eq.{nat_has_eq}
use spoki.Prelude.Assoc.{find, put, erase, has}
use spoki.Prelude.Decimal.{to_string}
use spoki.Probe.Commands.{to_hex_string}
use spoki.Net.{Packet, PacketData, IcmpType, UdpHdr, Icmp}
use spoki.Tools.UdpProcessor.{
  Target, Ups, ups, Message, event, targets, tick, handle_all, handle_packet, queue_of,
  udp_processor, second, line, Proto, requested, more, row, next_tick, handle, handle_packets,
  new_targets, new_target, start_probes, start_each, expire_each, expire, then_do, start_probe,
  request_more, append, finish, retransmit, settle, ends, reply_row, next_out_file, equal_to,
}
use spoki.Tools.UdpProcessor.Requests.{targets_to, requested_to}
use spoki.Tools.UdpProcessor.Order.{received, handle_all-in_order}
use spoki.Tools.UdpProcessor.Starting.{IsBusy}
use spoki.Tools.UdpProcessor.Waiting.{handle_all-IsBusy}
use spoki.Tools.UdpProcessor.Unreachable.{handle_packet-dropped}

abbrev to_port : ℕ → Target
to_port port = record { saddr = 1; daddr = 2; sport = 40000; dport = port; payload = [] }

abbrev reply : Packet
reply = record {
  saddr = 2;
  daddr = 1;
  ipid = 0;
  ttl = 64;
  observed = 0;
  proto = PacketData.udp (record { sport = 53; dport = 40000; payload = b'x' ∷ [] });
}

-- two targets of one address; a reply to the first, and a timeout of the second
abbrev messages : List (ℕ × Message)
messages =
    (0, targets (to_port 53 ∷ to_port 123 ∷ []))
    ∷ (second, event (reply ∷ []))
    ∷ (30 * second, tick)
    ∷ []

handle_all-in_order_example :
    targets_to 2 (received messages)
    ≡ requested_to 2 (handle_all messages (udp_processor true).0).1
      ++ queue_of 2 (handle_all messages (udp_processor true).0).0
handle_all-in_order_example = handle_all-in_order true messages 2

handle_all-IsBusy_example : IsBusy (handle_all messages (udp_processor true).0).0
handle_all-IsBusy_example = handle_all-IsBusy true messages

abbrev in_port : Ups
in_port = record ups { in_progress = (2, record { target = to_port 53; since = 0 }) ∷ [] }

abbrev hdr : UdpHdr
hdr = record { sport = 40000; dport = 53; length = 8; chksum = 0 }

abbrev unreachable : Icmp
unreachable = record { type = IcmpType.dest_unreachable; unreachable = some hdr }

abbrev refused : Packet
refused = record reply { proto = PacketData.icmp unreachable }

in_port-find :
    find refused.saddr in_port.in_progress ≡ some (record { target = to_port 53; since = 0 })
unfolding find
in_port-find = refl

handle_packet-dropped_example : handle_packet 7 refused in_port ≡ (in_port, [])
handle_packet-dropped_example =
    handle_packet-dropped 7 refused in_port (record { target = to_port 53; since = 0 }) unreachable
      hdr in_port-find refl refl (record { same_sport = refl; same_dport = refl }) (omega arith)

-- two targets of one address: the first is probed, and the second waits
abbrev given_two : List (ℕ × Message)
given_two = (0, targets (to_port 53 ∷ to_port 123 ∷ [])) ∷ []

abbrev probing : Ups
probing = (handle_all given_two (udp_processor true).0).0

-- a stand-in for the printer of addresses
row_text :
    line (λ a. (b'0' + a) ∷ []) 2 53 Proto.udp (255 ∷ [])
    ≡ b'2' ∷ b',' ∷ b'5' ∷ b'3' ∷ b',' ∷ b'u' ∷ b'd' ∷ b'p' ∷ b',' ∷ b'f' ∷ b'f' ∷ 10 ∷ []
unfolding line to_string to_hex_string
row_text = refl

-- what the run asks for and writes
run_effects :
    (handle_all messages (udp_processor true).0).1
    ≡ requested (to_port 53)
      ∷ more 5
      ∷ row 2 53 Proto.udp (b'x' ∷ [])
      ∷ requested (to_port 123)
      ∷ row 2 123 Proto.no_reply []
      ∷ next_tick
      ∷ []
unfolding handle_all udp_processor handle handle_packets handle_packet new_targets new_target
    start_probes start_each expire_each expire then_do find put erase has queue_of start_probe
    request_more append finish retransmit settle ends reply_row next_out_file equal_to
run_effects = refl

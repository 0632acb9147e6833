-- ===== src/Tools/UdpProcessor/Unreachable.antt =====
-- ICMP messages about a probe (spoki/tools/src/udp_processor.cpp).
use spoki.Prelude.{ℕ, ◌≡◌, ◌≢◌, refl, ap, ◌∙◌, arith, false, some, []}
use spoki.Prelude.Eq.{nat_has_eq}
use spoki.Prelude.Assoc.{find}
use spoki.Net.{Packet, PacketData, UdpHdr, Icmp}
use spoki.Tools.UdpProcessor.{Probe, Ups, Target, ends, handle_packet}

-- that `hdr` is the header of the datagram that was sent for `ep`
pub record IsOf (hdr : UdpHdr) (ep : Target) : Type 0 where
  pub same_sport : hdr.sport ≡ ep.sport
  pub same_dport : hdr.dport ≡ ep.dport

ends-dropped :
    (ep : Target) (icmp : Icmp) (hdr : UdpHdr)
    → icmp.unreachable ≡ some hdr
    → IsOf hdr ep
    → ep.sport ≢ ep.dport
    → ends ep (PacketData.icmp icmp) ≡ false
unfolding ends
ends-dropped ep icmp hdr u o n = rw (u, ends) (ground (arith, o.same_sport, n))

handle_packet-not_ended :
    (now : ℕ) (pkt : Packet) (s : Ups) (p : Probe)
    → find pkt.saddr s.in_progress ≡ some p
    → ends p.target pkt.proto ≡ false
    → handle_packet now pkt s ≡ (s, [])
unfolding handle_packet
handle_packet-not_ended now pkt s p f e = rw (f, handle_packet, e) refl

-- An ICMP message from the probed address itself that carries back the datagram of the probe to this
-- address which is in progress is dropped, whatever its type, if the datagram has different ports: the
-- probe is not ended, and no row is written. (A message from another address, such as a router on the
-- way, is looked up under that address.)
pub handle_packet-dropped :
    (now : ℕ) (pkt : Packet) (s : Ups) (p : Probe) (icmp : Icmp) (hdr : UdpHdr)
    → find pkt.saddr s.in_progress ≡ some p
    → pkt.proto ≡ PacketData.icmp icmp
    → icmp.unreachable ≡ some hdr
    → IsOf hdr p.target
    → p.target.sport ≢ p.target.dport
    → handle_packet now pkt s ≡ (s, [])
handle_packet-dropped now pkt s p icmp hdr f q u o n =
    handle_packet-not_ended now pkt s p f
      (ap (ends p.target) q ∙ ends-dropped p.target icmp hdr u o n)

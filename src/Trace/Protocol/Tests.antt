-- ===== src/Trace/Protocol/Tests.antt =====
-- Options and payloads of concrete packets.
use spoki.Prelude.{◌*◌, ◌≡◌, refl, none, some, [], ◌∷◌}
use spoki.Net.{TcpOpt, IcmpType, PacketData}
use spoki.Trace.Protocol.{
  add_option, scan_options, get_tcp_opts, RawUdp, icmp, udp, udp_hdr, payload_of, unreachable_of,
  extract_protocol,
}
use spoki.Trace.Protocol.Options.{count_option, occurs, get_tcp_opts-count}

-- MSS, padding, MSS again, the end, and a timestamp behind it
get_tcp_opts-count_example : count_option TcpOpt.mss (get_tcp_opts 8 (2 ∷ 1 ∷ 2 ∷ 0 ∷ 8 ∷ [])) ≡ 1
unfolding occurs
get_tcp_opts-count_example = get_tcp_opts-count TcpOpt.mss 8 (2 ∷ 1 ∷ 2 ∷ 0 ∷ 8 ∷ [])

options_read :
    get_tcp_opts 8 (2 ∷ 1 ∷ 2 ∷ 4 ∷ 77 ∷ 0 ∷ 8 ∷ [])
    ≡ (TcpOpt.mss, none) ∷ (TcpOpt.sack_permitted, none) ∷ (TcpOpt.other, none) ∷ []
unfolding get_tcp_opts scan_options add_option
options_read = refl

-- the payload of a packet whose capture ends after two bytes
cut_payload :
    extract_protocol
      (λ n. n)
      (udp (record {
        sport = 53;
        dport = 40000;
        bytes = some (1 ∷ 2 ∷ 3 ∷ 4 ∷ []);
        remaining = 2;
        payload_length = 4;
      }))
    ≡ some (PacketData.udp (record { sport = 53; dport = 40000; payload = 1 ∷ 2 ∷ [] }))
unfolding extract_protocol payload_of
cut_payload = refl

-- the header that an ICMP message carries, with its ports 53 and 80
abbrev raw : RawUdp
raw = record { source = 53 * 256; dest = 80 * 256; len = 8 * 256; check = 0 }

unreachable_read :
    extract_protocol
      (λ n. n)
      (icmp IcmpType.dest_unreachable (some (record { remaining = 28; protocol = 17; udp = raw })))
    ≡ some (
        PacketData.icmp (record {
          type = IcmpType.dest_unreachable;
          unreachable = some (record { sport = 53; dport = 80; length = 8; chksum = 0 });
        }))
unfolding extract_protocol unreachable_of udp_hdr
unreachable_read = refl

-- ===== src/Probe/Datagrams/Tests.antt =====
-- A datagram to 10.0.0.2 from 10.0.0.1, and the theorems on datagrams at it.
use spoki.Prelude.{◌≡◌, ◌↔◌, ◌/◌, ◌%◌, refl, arith, true, some, [], ◌∷◌}
use spoki.Probe.Datagrams.{PseudoIpHdr, checksum, blank_header, ip_header, datagram}
use spoki.Probe.Datagrams.Checksums.{Verifies, checksum-Verifies, ip_header-Verifies}
use spoki.Probe.Datagrams.Fields.{receive, receive-datagram}

abbrev blank : PseudoIpHdr
blank = blank_header 29 0x0100000a 0x0200000a

checksum-blank : checksum blank ≡ 0x9521
unfolding checksum
checksum-blank = refl

checksum-Verifies_example : Verifies (record blank { chk = checksum blank })
checksum-Verifies_example = checksum-Verifies blank (omega arith) refl

ip_header-Verifies_example :
    Verifies (ip_header 29 0x0100000a 0x0200000a) ↔ (checksum blank / 256 ≡ checksum blank % 256)
ip_header-Verifies_example = ip_header-Verifies 29 0x0100000a 0x0200000a

receive-datagram_example :
    receive (datagram 0x0100000a 0x0200000a 53 1024 (10 ∷ []))
    ≡ some (record {
      version = 4;
      header_length = 5;
      total_length = 29;
      identification = 1337;
      dont_fragment = true;
      ttl = 64;
      protocol = 17;
      saddr = 0x0100000a;
      daddr = 0x0200000a;
      sport = 53;
      dport = 1024;
      udp_length = 9;
      udp_checksum = 0;
      payload = 10 ∷ [];
    })
receive-datagram_example =
    receive-datagram 0x0100000a 0x0200000a 53 1024 (10 ∷ []) (omega arith) (omega arith)
      (omega arith) (omega arith) (omega arith)

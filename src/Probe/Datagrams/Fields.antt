-- ===== src/Probe/Datagrams/Fields.antt =====
-- What a receiver reads in a datagram of the UDP prober
-- (spoki/libspoki/src/probe/udp_prober.cpp): the fields by their places in RFC 791 and RFC 768, the
-- numbers with their most significant byte first.
use spoki.Prelude.{
  ℕ, ◌+◌, ◌*◌, ◌/◌, ◌%◌, ◌<◌, ◌≡◌, arith, Bool, true, Option, none, some, ◌∷◌, ◌==◌, length,
}
use spoki.Probe.Datagrams.{Bytes, ip_bytes, udp_bytes, ip_header, datagram}

pub record Received : Type 0 where
  pub version : ℕ
  pub header_length : ℕ  -- in words of four bytes
  pub total_length : ℕ
  pub identification : ℕ
  pub dont_fragment : Bool
  pub ttl : ℕ
  pub protocol : ℕ
  pub saddr : ℕ
  pub daddr : ℕ
  pub sport : ℕ
  pub dport : ℕ
  pub udp_length : ℕ
  pub udp_checksum : ℕ
  pub payload : Bytes

abbrev word : ℕ → ℕ → ℕ
word a b = 256 * a + b

-- the bits of an address, its first byte in the lowest eight bits
abbrev address : ℕ → ℕ → ℕ → ℕ → ℕ
address a b c d = a + 256 * b + 65536 * c + 16777216 * d

unfoldable pub receive : Bytes → Option Received
receive
      (v ∷ _ ∷ l ∷ l' ∷ i ∷ i' ∷ o ∷ _ ∷ t ∷ p ∷ _ ∷ _ ∷ s ∷ s' ∷ s'' ∷ s''' ∷ d ∷ d' ∷ d'' ∷ d'''
        ∷ q ∷ q' ∷ r ∷ r' ∷ n ∷ n' ∷ c ∷ c' ∷ rest) =
    some (record {
      version = v / 16;
      header_length = v % 16;
      total_length = word l l';
      identification = word i i';
      dont_fragment = o / 64 % 2 == 1;
      ttl = t;
      protocol = p;
      saddr = address s s' s'' s''';
      daddr = address d d' d'' d''';
      sport = word q q';
      dport = word r r';
      udp_length = word n n';
      udp_checksum = word c c';
      payload = rest;
    })
receive _ = none

-- A receiver reads in a datagram what it was made of: the addresses, the ports and the payload, and
-- both lengths; it is UDP over IPv4 and must not be fragmented, and has no UDP checksum. The whole
-- has to be shorter than 65536 bytes.
pub receive-datagram :
    (src dst sport dport : ℕ) (payload : Bytes)
    → src < 4294967296
    → dst < 4294967296
    → sport < 65536
    → dport < 65536
    → 28 + length payload < 65536
    → receive (datagram src dst sport dport payload)
      ≡ some (record {
        version = 4;
        header_length = 5;
        total_length = 28 + length payload;
        identification = 1337;
        dont_fragment = true;
        ttl = 64;
        protocol = 17;
        saddr = src;
        daddr = dst;
        sport = sport;
        dport = dport;
        udp_length = 8 + length payload;
        udp_checksum = 0;
        payload = payload;
      })
unfolding datagram receive ip_bytes udp_bytes ip_header
receive-datagram src dst sport dport payload a b c d e = ground arith

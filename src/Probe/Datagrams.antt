-- ===== src/Probe/Datagrams.antt =====
-- The datagrams of the UDP prober (spoki/libspoki/src/probe/udp_prober.cpp): the IPv4 and the UDP
-- header as they stand in memory on a little-endian host, and the checksum over the first.
pub mod Checksums
pub mod Fields
mod Tests
use spoki.Prelude.{
  ℕ, zero, suc, ◌+◌, ◌-◌, ◌*◌, ◌/◌, ◌%◌, List, [], ◌∷◌, ◌++◌, ◌==◌, if◌then◌else◌, length,
}
use spoki.Prelude.Words.{u16, u32}

abbrev pub Bytes : Type 0
Bytes = List ℕ

-- `htons`: the two bytes of a `uint16_t` change places
abbrev pub htons : ℕ → ℕ
htons n = n % 256 * 256 + n / 256 % 256

-- a `uint16_t` and a `uint32_t` in memory
abbrev pub store16 : ℕ → Bytes
store16 n = n % 256 ∷ (n / 256 % 256) ∷ []

abbrev pub store32 : ℕ → Bytes
store32 n = n % 256 ∷ (n / 256 % 256) ∷ (n / 65536 % 256) ∷ (n / 16777216 % 256) ∷ []

pub record PseudoIpHdr : Type 0 where
  pub ihl : ℕ  -- four bits, below `ver` in their byte
  pub ver : ℕ
  pub ecn : ℕ  -- two bits, below `tos`
  pub tos : ℕ
  pub len : ℕ
  pub idn : ℕ
  pub off : ℕ
  pub ttl : ℕ
  pub pro : ℕ
  pub chk : ℕ
  pub src : ℕ
  pub dst : ℕ

pub record PseudoUdpHdr : Type 0 where
  pub src : ℕ
  pub dst : ℕ
  pub len : ℕ
  pub chk : ℕ

unfoldable pub ip_bytes : PseudoIpHdr → Bytes
ip_bytes h =
    (h.ihl + 16 * h.ver)
    ∷ (h.ecn + 4 * h.tos)
    ∷ (store16 h.len
        ++ store16 h.idn
        ++ store16 h.off
        ++ h.ttl ∷ h.pro ∷ (store16 h.chk ++ store32 h.src ++ store32 h.dst))

unfoldable pub udp_bytes : PseudoUdpHdr → Bytes
udp_bytes h = store16 h.src ++ store16 h.dst ++ store16 h.len ++ store16 h.chk

-- the loop over the header's `uint16_t`s, which adds them up in a `uint32_t`
unfoldable pub sum_words : ℕ → Bytes → ℕ
sum_words acc [] = acc
sum_words acc (a ∷ []) = acc
sum_words acc (a ∷ b ∷ bytes) = sum_words (u32 (acc + (a + 256 * b))) bytes

-- the loop that adds the upper half to the lower one, until the upper one is 0
unfoldable pub fold : ℕ → ℕ → ℕ
fold zero sum = sum
fold (suc fuel) sum =
    let rest = fold fuel (sum / 65536 + sum % 65536) in if sum / 65536 == 0 then sum else rest

-- `checksum`; three rounds are enough
unfoldable pub checksum : PseudoIpHdr → ℕ
unfolding fold sum_words ip_bytes
checksum h = 65535 - u16 (fold 3 (sum_words 0 (ip_bytes h)))

-- the IP header that `handle_probe_write` writes, without and with its checksum
abbrev pub blank_header : ℕ → ℕ → ℕ → PseudoIpHdr
blank_header len src dst = record {
  ihl = 5;
  ver = 4;
  ecn = 0;
  tos = 0;
  len = htons (u16 len);
  idn = htons 1337;
  off = htons 0x4000;
  ttl = 64;
  pro = 17;
  chk = 0;
  src = src;
  dst = dst;
}

unfoldable pub ip_header : ℕ → ℕ → ℕ → PseudoIpHdr
unfolding checksum
ip_header len src dst = let h = blank_header len src dst in record h { chk = htons (checksum h) }

abbrev pub udp_header : ℕ → ℕ → ℕ → PseudoUdpHdr
udp_header sport dport payload_size = record {
  src = htons sport;
  dst = htons dport;
  len = htons (u16 (8 + payload_size));
  chk = 0;
}

-- what is sent, over the addresses as `inet_addr` gives them
unfoldable pub datagram : ℕ → ℕ → ℕ → ℕ → Bytes → Bytes
unfolding ip_header ip_bytes udp_bytes
datagram src dst sport dport payload =
    ip_bytes (ip_header (28 + length payload) src dst)
    ++ udp_bytes (udp_header sport dport (length payload))
    ++ payload

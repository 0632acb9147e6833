-- ===== src/Probe/Datagrams/Checksums.antt =====
-- The checksum of the IPv4 header, and the one that is stored (spoki/libspoki/src/probe/udp_prober.cpp).
use spoki.Prelude.{ℕ, ◌+◌, ◌-◌, ◌*◌, ◌/◌, ◌%◌, ◌<◌, ◌≡◌, ◌↔◌, refl, arith, [], ◌∷◌}
use spoki.Probe.Datagrams.{
  Bytes, htons, PseudoIpHdr, ip_bytes, sum_words, fold, checksum, blank_header, ip_header,
}

-- every field has its width
pub record IsHeader (h : PseudoIpHdr) : Type 0 where
  pub first : h.ihl + 16 * h.ver < 256
  pub second : h.ecn + 4 * h.tos < 256
  pub ttl : h.ttl < 256
  pub pro : h.pro < 256

fold-ends : (sum : ℕ) → sum < 4294967296 → (fold 3 sum < 65536) × (fold 3 sum % 65535 ≡ sum % 65535)
unfolding fold
fold-ends sum h = ground arith

-- A receiver adds up the words of the header; a header is valid if the sum is a multiple of 65535.
abbrev pub words_sum : Bytes → ℕ
words_sum [] = 0
words_sum (a ∷ []) = 0
words_sum (a ∷ b ∷ bytes) = (a + 256 * b) + words_sum bytes

abbrev pub Verifies : PseudoIpHdr → Type 0
Verifies h = words_sum (ip_bytes h) % 65535 ≡ 0

header_sum :
    (h : PseudoIpHdr)
    → IsHeader h
    → (sum_words 0 (ip_bytes h) ≡ words_sum (ip_bytes h)) × (words_sum (ip_bytes h) < 655360)
unfolding ip_bytes sum_words
header_sum h v = omega arith

with_checksum :
    (h : PseudoIpHdr) (c : ℕ)
    → h.chk ≡ 0
    → c < 65536
    → words_sum (ip_bytes (record h { chk = c })) ≡ words_sum (ip_bytes h) + c
unfolding ip_bytes
with_checksum h c z k = omega arith

-- With the checksum of its blank form in place a header verifies: the words of all headers with
-- fields of their width sum to a multiple of 65535.
pub checksum-Verifies :
    (h : PseudoIpHdr) → IsHeader h → h.chk ≡ 0 → Verifies (record h { chk = checksum h })
unfolding checksum
checksum-Verifies h v z =
    let s = header_sum h v in
    let f = fold-ends (sum_words 0 (ip_bytes h)) (omega (arith, s.0, s.1)) in
    omega (
      arith,
      s.0,
      f.0,
      f.1,
      with_checksum h (65535 - fold 3 (sum_words 0 (ip_bytes h)) % 65536) z (omega arith),
    )

swapped :
    (s c : ℕ) → c < 65536 → (s + c) % 65535 ≡ 0 → ((s + htons c) % 65535 ≡ 0) ↔ (c / 256 ≡ c % 256)
swapped s c k h = (λ e. omega arith, λ e. omega arith)

checksum-lt : (h : PseudoIpHdr) → checksum h < 65536
unfolding checksum
checksum-lt h = omega arith

blank_header-IsHeader : (len src dst : ℕ) → IsHeader (blank_header len src dst)
blank_header-IsHeader len src dst = omega arith

-- The checksum is stored with its bytes swapped, so the header that is sent verifies exactly if the
-- two bytes of its checksum are equal.
pub ip_header-Verifies :
    (len src dst : ℕ)
    → Verifies (ip_header len src dst)
      ↔ (checksum (blank_header len src dst) / 256 ≡ checksum (blank_header len src dst) % 256)
unfolding ip_header
ip_header-Verifies len src dst =
    let h = blank_header len src dst in
    let c = checksum h in
    let e = with_checksum h c refl (checksum-lt h) in
    let e' = with_checksum h (htons c) refl (omega arith) in
    let valid = checksum-Verifies h (blank_header-IsHeader len src dst) refl in
    rw e' (swapped (words_sum (ip_bytes h)) c (checksum-lt h) (omega (arith, e, valid)))

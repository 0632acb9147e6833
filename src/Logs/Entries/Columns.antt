-- ===== src/Logs/Entries/Columns.antt =====
-- How many columns a row has, and where the options and the payload are
-- (spoki/libspoki/src/collector.cpp). The header has 23 columns.
use spoki.Prelude.{ℕ, ◌+◌, ◌≡◌, List, [], ◌∷◌, ◌++◌, concat, append_assoc, append-nil, arith, ◌/◌}
use spoki.Prelude.Decimal.{to_string}
use spoki.Net.{Address, PacketData, icmp, tcp, udp, Packet}
use spoki.Probe.{Request}
use spoki.Probe.Commands.{probe_name, to_hex_string}
use spoki.Logs.{Bytes}
use spoki.Logs.Entries.{
  delimiter, del, bar, options_string, type_suffix, type_prefix, flag, icmp_columns, tcp_columns,
  udp_columns, protocol_columns, packet_columns, plain_tail, probed_tail, append_log_entry,
  append_probed_entry,
}
use spoki.Logs.Entries.Delimiters.{
  bars, bars-append, bars-del, to_string-bars, number, to_hex_string-bars, options_string-bars,
  sum_bars, bars-concat, type_suffix-bars, probe_name-bars, flag-bars,
}

-- the delimiters that a packet's protocol accounts for
abbrev pub protocol_bars : PacketData → ℕ
protocol_bars (udp x) = 10
protocol_bars _ = 11

protocol_columns-bars : (p : PacketData) → sum_bars (protocol_columns p) ≡ protocol_bars p
unfolding protocol_columns icmp_columns tcp_columns udp_columns sum_bars
protocol_columns-bars (icmp x) = omega (
  arith,
  bars-del (type_prefix ++ type_suffix x.type)
      (omega (arith, bars-append type_prefix (type_suffix x.type), type_suffix-bars x.type)),
)
protocol_columns-bars (tcp x) = omega (
  arith,
  number x.sport,
  number x.dport,
  number x.anum,
  number x.snum,
  bars-del (options_string x.options) (options_string-bars x.options),
  bars-del (to_hex_string x.payload) (to_hex_string-bars x.payload),
  flag-bars x.syn,
  flag-bars x.ack,
  flag-bars x.rst,
  flag-bars x.fin,
  to_string-bars x.window_size,
)
protocol_columns-bars (udp x) =
    omega (arith, number x.sport, to_string-bars x.dport, to_hex_string-bars x.payload)

-- that `text` is the column of a row behind so many delimiters and one more
pub record InColumn (row text : Bytes) (n : ℕ) : Type 0 where
  pub before : Bytes
  pub after : Bytes
  pub cut : row ≡ before ++ delimiter ∷ text ++ delimiter ∷ after
  pub place : bars before ≡ n

-- the columns 11 and 12, of the options and the payload, in a row behind `n` delimiters
abbrev pub Placed : PacketData → Bytes → ℕ → Type 0
Placed (icmp x) row n = InColumn row (type_prefix ++ type_suffix x.type) (n + 9)
Placed (tcp x) row n =
    InColumn row (options_string x.options) (n + 9)
    × InColumn row (to_hex_string x.payload) (n + 10)
Placed (udp x) row n = InColumn row (to_hex_string x.payload) (n + 9)

-- a column behind the text `head` and these columns
in_column :
    (head text after : Bytes) (cols : List Bytes) (n : ℕ)
    → bars head + sum_bars cols ≡ n
    → (row : Bytes) → row ≡ (head ++ concat cols) ++ delimiter ∷ text ++ delimiter ∷ after
    → InColumn row text n
in_column head text after cols n h row e = record {
  before = head ++ concat cols;
  after = after;
  cut = e;
  place = omega (arith, h, bars-append head (concat cols), bars-concat cols);
}

protocol-Placed :
    (d : PacketData) (head tail : Bytes) (n : ℕ)
    → bars head ≡ n + 5
    → Placed d (head ++ concat (protocol_columns d) ++ tail) n
unfolding protocol_columns icmp_columns tcp_columns udp_columns sum_bars
protocol-Placed (icmp x) head tail n h =
    in_column head (type_prefix ++ type_suffix x.type) (bar ++ bar ++ bar ++ bar ++ bar ++ tail)
      (del (b'i' ∷ b'c' ∷ b'm' ∷ b'p' ∷ []) ∷ bar ∷ bar ∷ bar ∷ []) (n + 9) (omega (arith, h)) _
      (simp (append_assoc, append-nil))
protocol-Placed (tcp x) head tail n h =
    let flags = concat (
      del (flag x.syn)
      ∷ del (flag x.ack)
      ∷ del (flag x.rst)
      ∷ del (flag x.fin)
      ∷ to_string x.window_size
      ∷ []) in
    let payload = to_hex_string x.payload in
    (
      in_column head (options_string x.options) (del payload ++ flags ++ tail)
          (del (b't' ∷ b'c' ∷ b'p' ∷ [])
            ∷ del (to_string x.sport)
            ∷ del (to_string x.dport)
            ∷ del (to_string x.anum)
            ∷ to_string x.snum
            ∷ [])
          (n + 9)
          (omega (arith, h, number x.sport, number x.dport, number x.anum, to_string-bars x.snum)) _
          (simp (append_assoc, append-nil)),
      in_column head payload (flags ++ tail)
          (del (b't' ∷ b'c' ∷ b'p' ∷ [])
            ∷ del (to_string x.sport)
            ∷ del (to_string x.dport)
            ∷ del (to_string x.anum)
            ∷ del (to_string x.snum)
            ∷ options_string x.options
            ∷ [])
          (n + 10)
          (omega (
            arith,
            h,
            number x.sport,
            number x.dport,
            number x.anum,
            number x.snum,
            options_string-bars x.options,
          ))
          _ (simp (append_assoc, append-nil)),
    )
protocol-Placed (udp x) head tail n h =
    in_column head (to_hex_string x.payload) (bar ++ bar ++ bar ++ bar ++ tail)
      (del (b'u' ∷ b'd' ∷ b'p' ∷ []) ∷ del (to_string x.sport) ∷ to_string x.dport ∷ bar ∷ bar ∷ [])
      (n + 9) (omega (arith, h, number x.sport, to_string-bars x.dport)) _
      (simp (append_assoc, append-nil))

module _ (print : Address → Bytes) (p : (a : Address) → bars (print a) ≡ 0) where
  packet_columns-bars : (pkt : Packet) → sum_bars (packet_columns print pkt) ≡ 5
  unfolding packet_columns sum_bars
  packet_columns-bars pkt = omega (
    arith,
    number (pkt.observed / 1000000),
    bars-del (print pkt.saddr) (p pkt.saddr),
    bars-del (print pkt.daddr) (p pkt.daddr),
    number pkt.ipid,
    number pkt.ttl,
  )

  -- Both rows of a packet, with the request that it led to and without one, have the same number of
  -- delimiters, if the printer of addresses writes none: the 22 of the header for ICMP and TCP, but 21
  -- for UDP. The column of the options, which is the 11th, holds the options of TCP, and the 12th its
  -- payload; of UDP the 11th column holds the payload, and of ICMP the type.
  pub append_log_entry-bars :
      (buf : Bytes) (pkt : Packet) (req : Request)
      → (bars (append_log_entry print buf pkt) ≡ bars buf + 11 + protocol_bars pkt.proto)
        × (bars (append_probed_entry print buf pkt req) ≡ bars buf + 11 + protocol_bars pkt.proto)
        × Placed pkt.proto (append_log_entry print buf pkt) (bars buf)
        × Placed pkt.proto (append_probed_entry print buf pkt req) (bars buf)
  unfolding append_log_entry append_probed_entry probed_tail sum_bars
  append_log_entry-bars buf pkt req =
      let head = concat (packet_columns print pkt) in
      let at_protocol : bars (buf ++ head) ≡ bars buf + 5 = omega (
        arith,
        bars-append buf head,
        bars-concat (packet_columns print pkt),
        packet_columns-bars pkt,
      ) in
      let placed : (tail : Bytes)
          → Placed pkt.proto (buf ++ head ++ concat (protocol_columns pkt.proto) ++ tail)
              (bars buf) =
        λ tail. protocol-Placed pkt.proto (buf ++ head) tail (bars buf) at_protocol in
      let body = concat (protocol_columns pkt.proto) in
      let both : bars (buf ++ head ++ body) ≡ bars buf + 5 + protocol_bars pkt.proto = omega (
        arith,
        bars-append (buf ++ head) body,
        bars-append buf head,
        bars-concat (packet_columns print pkt),
        bars-concat (protocol_columns pkt.proto),
        packet_columns-bars pkt,
        protocol_columns-bars pkt.proto,
      ) in
      (
        omega (arith, both, bars-append (buf ++ head ++ body) (concat plain_tail)),
        omega (
          arith,
          both,
          bars-append (buf ++ head ++ body) (concat (probed_tail req)),
          bars-concat (probed_tail req),
          bars-del (probe_name req.probe_method) (probe_name-bars req.probe_method),
          number req.user_id,
          number req.anum,
          number req.snum,
          to_string-bars req.num_probes,
        ),
        placed (concat plain_tail),
        placed (concat (probed_tail req)),
      )

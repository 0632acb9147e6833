-- ===== src/Scamper/Records.antt =====
-- The results that scamper's library decodes, and the replies that they become: handle_deocde_read of
-- spoki/libspoki/src/scamper/driver.cpp and async_decoder.cpp, and scamper/reply.cpp. The library's
-- `scamper_ping_t` is the record of the fields that are read; the numbers of its methods are a
-- parameter.
pub mod Conversions
mod Tests
use spoki.Prelude.{
  ℕ, zero, suc, ◌+◌, ◌/◌, ◌%◌, ◌^◌, Bool, true, false, Option, none, some, List, [], ◌∷◌, ◌++◌, map,
  concat, ◌==◌, if◌then◌else◌, length, is_empty, get_elem?,
}
use spoki.Prelude.Words.{u8, u32}
use spoki.Prelude.Decimal.{to_string}
use spoki.Probe.{Method}
use spoki.Probe.Commands.{to_hex_string}
use spoki.Scamper.{Bytes}

-- scamper/reply.hpp
pub record Statistics : Type 0 where
  pub replies : ℕ  -- uint32_t
  pub loss : ℕ  -- uint32_t

pub record Timepoint : Type 0 where
  pub sec : ℕ
  pub usec : ℕ

-- `version` is counted in tenths
pub record Reply : Type 0 where
  pub type : Bytes
  pub version : ℕ
  pub probe_method : Method
  pub src : Bytes
  pub dst : Bytes
  pub start : Timepoint
  pub ping_sent : ℕ  -- uint32_t
  pub probe_size : ℕ  -- uint32_t
  pub userid : ℕ  -- uint32_t
  pub ttl : ℕ  -- uint32_t
  pub wait : ℕ  -- uint32_t
  pub timeout : ℕ  -- uint32_t
  pub sport : ℕ  -- uint16_t
  pub dport : ℕ  -- uint16_t
  pub payload : Bytes
  pub flags : List Bytes
  pub responses : Bytes
  pub stats : Statistics

-- the numbers SCAMPER_PING_METHOD_... of the library
pub record Codes : Type 0 where
  pub icmp_echo : ℕ
  pub icmp_time : ℕ
  pub tcp_syn : ℕ
  pub tcp_ack : ℕ
  pub tcp_ack_sport : ℕ
  pub tcp_synack : ℕ
  pub tcp_rst : ℕ
  pub udp : ℕ
  pub udp_dport : ℕ

-- `scamper_ping_t`: the addresses as texts, the data if the pointer is not null, and for each ping
-- whether a reply is there
pub record Ping : Type 0 where
  pub probe_method : ℕ  -- uint8_t
  pub src : Bytes
  pub dst : Bytes
  pub start : Timepoint
  pub ping_sent : ℕ  -- uint16_t
  pub probe_size : ℕ
  pub userid : ℕ
  pub probe_ttl : ℕ
  pub probe_wait : ℕ
  pub probe_timeout : ℕ
  pub probe_sport : ℕ
  pub probe_dport : ℕ
  pub probe_data : Option Bytes
  pub flags : ℕ
  pub ping_replies : List Bool

unfoldable pub to_probe_method : Codes → ℕ → Method
to_probe_method codes m =
    if m == codes.icmp_echo
    then Method.icmp_echo
    else if m == codes.icmp_time
    then Method.icmp_time
    else if m == codes.tcp_syn
    then Method.tcp_syn
    else if m == codes.tcp_ack
    then Method.tcp_ack
    else if m == codes.tcp_ack_sport
    then Method.tcp_ack_sport
    else if m == codes.tcp_synack
    then Method.tcp_synack
    else if m == codes.tcp_rst
    then Method.tcp_rst
    else if m == codes.udp
    then Method.udp
    else if m == codes.udp_dport
    then Method.udp_dport
    else Method.tcp_ack_sport

abbrev pub all_flags : List Bytes
all_flags =
    (b'v' ∷ b'4' ∷ b'r' ∷ b'r' ∷ [])
    ∷ (b's' ∷ b'p' ∷ b'o' ∷ b'o' ∷ b'f' ∷ [])
    ∷ (b'p' ∷ b'a' ∷ b'y' ∷ b'l' ∷ b'o' ∷ b'a' ∷ b'd' ∷ [])
    ∷ (b't' ∷ b's' ∷ b'o' ∷ b'n' ∷ b'l' ∷ b'y' ∷ [])
    ∷ (b't' ∷ b's' ∷ b'a' ∷ b'n' ∷ b'd' ∷ b'a' ∷ b'd' ∷ b'd' ∷ b'r' ∷ [])
    ∷ (b'i' ∷ b'c' ∷ b'm' ∷ b'p' ∷ b's' ∷ b'u' ∷ b'm' ∷ [])
    ∷ (b'd' ∷ b'l' ∷ [])
    ∷ (b't' ∷ b'b' ∷ b't' ∷ [])
    ∷ (b'n' ∷ b'o' ∷ b's' ∷ b'r' ∷ b'c' ∷ [])
    ∷ []

-- `flags & (0x1 << i)`
abbrev pub has_flag : ℕ → ℕ → Bool
has_flag flags i = flags / 2 ^ i % 2 == 1

-- the loop over the names from the `i`-th on
unfoldable pub flag_names : ℕ → ℕ → List Bytes → List Bytes
flag_names flags i [] = []
flag_names flags i (name ∷ names) =
    let rest = flag_names flags (i + 1) names in if has_flag flags i then name ∷ rest else rest

unfoldable pub payload_of : Option Bytes → Bytes
unfolding to_hex_string
payload_of none = []
payload_of (some bytes) = to_hex_string bytes

abbrev count_reply : Option Bool → Statistics → Statistics
count_reply (some true) stats = record stats { replies = u32 (stats.replies + 1) }
count_reply _ stats = record stats { loss = u32 (stats.loss + 1) }

-- the loop over `ping_replies`, with the rounds left and the index
unfoldable pub count_replies : ℕ → ℕ → List Bool → Statistics → Statistics
count_replies zero i rs stats = stats
count_replies (suc n) i rs stats = count_replies n (suc i) rs (count_reply (get_elem? rs i) stats)

unfoldable pub reply_of : Codes → Ping → Reply
unfolding to_probe_method flag_names payload_of count_replies
reply_of codes ptr = record {
  type = b'p' ∷ b'i' ∷ b'n' ∷ b'g' ∷ [];
  version = 4;
  probe_method = to_probe_method codes ptr.probe_method;
  src = ptr.src;
  dst = ptr.dst;
  start = ptr.start;
  ping_sent = ptr.ping_sent;
  probe_size = ptr.probe_size;
  userid = ptr.userid;
  ttl = ptr.probe_ttl;
  wait = ptr.probe_wait;
  timeout = ptr.probe_timeout;
  sport = ptr.probe_sport;
  dport = ptr.probe_dport;
  payload = payload_of ptr.probe_data;
  flags = flag_names ptr.flags 0 all_flags;
  responses = [];
  stats = count_replies ptr.ping_sent 0 ptr.ping_replies (record { replies = 0; loss = 0 });
}

-- what `scamper_file_read` gives: an error, nothing yet, another type, or a ping
pub data FileRead : Type 0 where
  failed : FileRead
  no_result : FileRead
  other_type : ℕ → FileRead
  ping : Ping → FileRead

-- the driver's `handle_deocde_read`: the reply that is sent to the collector
unfoldable pub handle_deocde_read : Codes → FileRead → Option Reply
unfolding reply_of
handle_deocde_read codes (ping ptr) = some (reply_of codes ptr)
handle_deocde_read codes _ = none

-- `to_string` of probe/method_strings.cpp
abbrev method_prefix : Bytes
method_prefix =
    b's' ∷ b'p' ∷ b'o' ∷ b'k' ∷ b'i' ∷ b':' ∷ b':' ∷ b'p' ∷ b'r' ∷ b'o' ∷ b'b' ∷ b'e' ∷ b':' ∷ b':'
    ∷ b'm' ∷ b'e' ∷ b't' ∷ b'h' ∷ b'o' ∷ b'd' ∷ b':' ∷ b':' ∷ []

method_suffix : Method → Bytes
method_suffix Method.icmp_echo = b'i' ∷ b'c' ∷ b'm' ∷ b'p' ∷ b'_' ∷ b'e' ∷ b'c' ∷ b'h' ∷ b'o' ∷ []
method_suffix Method.icmp_time = b'i' ∷ b'c' ∷ b'm' ∷ b'p' ∷ b'_' ∷ b't' ∷ b'i' ∷ b'm' ∷ b'e' ∷ []
method_suffix Method.tcp_syn = b't' ∷ b'c' ∷ b'p' ∷ b'_' ∷ b's' ∷ b'y' ∷ b'n' ∷ []
method_suffix Method.tcp_ack = b't' ∷ b'c' ∷ b'p' ∷ b'_' ∷ b'a' ∷ b'c' ∷ b'k' ∷ []
method_suffix Method.tcp_ack_sport =
    b't' ∷ b'c' ∷ b'p' ∷ b'_' ∷ b'a' ∷ b'c' ∷ b'k' ∷ b'_' ∷ b's' ∷ b'p' ∷ b'o' ∷ b'r' ∷ b't' ∷ []
method_suffix Method.tcp_synack =
    b't' ∷ b'c' ∷ b'p' ∷ b'_' ∷ b's' ∷ b'y' ∷ b'n' ∷ b'a' ∷ b'c' ∷ b'k' ∷ []
method_suffix Method.tcp_rst = b't' ∷ b'c' ∷ b'p' ∷ b'_' ∷ b'r' ∷ b's' ∷ b't' ∷ []
method_suffix Method.udp = b'u' ∷ b'd' ∷ b'p' ∷ []
method_suffix Method.udp_dport = b'u' ∷ b'd' ∷ b'p' ∷ b'_' ∷ b'd' ∷ b'p' ∷ b'o' ∷ b'r' ∷ b't' ∷ []

unfoldable pub method_string : Method → Bytes
unfolding method_suffix
method_string m = method_prefix ++ method_suffix m

-- `to_log_line`; the number of pings is appended as one character
unfoldable pub to_log_line : Reply → ℕ → Bytes
unfolding method_string
to_log_line repl delimiter =
    to_string repl.start.sec
    ++ delimiter
      ∷ (to_string repl.start.usec
          ++ delimiter
            ∷ (method_string repl.probe_method
                ++ delimiter
                  ∷ (to_string repl.userid
                      ++ delimiter
                        ∷ u8 repl.ping_sent
                        ∷ delimiter
                        ∷ (repl.src
                            ++ delimiter
                              ∷ (repl.dst
                                  ++ delimiter
                                    ∷ (to_string repl.sport
                                        ++ delimiter ∷ to_string repl.dport))))))

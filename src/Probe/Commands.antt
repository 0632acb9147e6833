-- ===== src/Probe/Commands.antt =====
-- The commands for scamper that probe requests become (spoki/libspoki/src/probe/request.cpp). `print`
-- stands for the printer of addresses of the actor library.
pub mod Lines
mod Tests
use spoki.Prelude.{
  ℕ, Bool, Option, List, [], ◌∷◌, ◌++◌, map, concat, is_empty, if◌then◌else◌, ltb, ◌+◌, ◌-◌, ◌/◌,
  ◌%◌,
}
use spoki.Prelude.Words.{u8}
use spoki.Prelude.Decimal.{to_string}
use spoki.Net.{Address, Payload}
use spoki.Probe.{Method, Request}

abbrev pub Bytes : Type 0
Bytes = List ℕ

abbrev pub ping_cmd : Bytes
ping_cmd = b'p' ∷ b'i' ∷ b'n' ∷ b'g' ∷ 32 ∷ []

abbrev pub num_opt : Bytes
num_opt = b'-' ∷ b'c' ∷ 32 ∷ []

abbrev pub method_opt : Bytes
method_opt = b'-' ∷ b'P' ∷ 32 ∷ []

abbrev pub dport_opt : Bytes
dport_opt = b'-' ∷ b'd' ∷ 32 ∷ []

abbrev pub sport_opt : Bytes
sport_opt = b'-' ∷ b'F' ∷ 32 ∷ []

abbrev pub enable_spoofing_opt : Bytes
enable_spoofing_opt = b'-' ∷ b'O' ∷ 32 ∷ b's' ∷ b'p' ∷ b'o' ∷ b'o' ∷ b'f' ∷ 32 ∷ []

abbrev pub no_src_udp_opt : Bytes
no_src_udp_opt = b'-' ∷ b'O' ∷ 32 ∷ b'n' ∷ b'o' ∷ b's' ∷ b'r' ∷ b'c' ∷ 32 ∷ []

abbrev pub saddr_opt : Bytes
saddr_opt = b'-' ∷ b'S' ∷ 32 ∷ []

abbrev pub payload_opt : Bytes
payload_opt = b'-' ∷ b'B' ∷ 32 ∷ []

abbrev pub ack_num_opt : Bytes
ack_num_opt = b'-' ∷ b'A' ∷ 32 ∷ []

abbrev pub seq_num_opt : Bytes
seq_num_opt = b'-' ∷ b'A' ∷ 32 ∷ []

abbrev pub probe_timeout_opt : Bytes
probe_timeout_opt = b'-' ∷ b'W' ∷ 32 ∷ []

abbrev pub user_id_opt : Bytes
user_id_opt = b'-' ∷ b'U' ∷ 32 ∷ []

abbrev pub default_udp_payload : Bytes
default_udp_payload = b'0' ∷ b'a' ∷ []

abbrev space : Bytes
space = 32 ∷ []

abbrev newline : Bytes
newline = 10 ∷ []

abbrev zero_arg : Bytes
zero_arg = b'0' ∷ 32 ∷ []

-- `probe_name` of probe/method.cpp
unfoldable pub probe_name : Method → Bytes
probe_name Method.icmp_echo = b'i' ∷ b'c' ∷ b'm' ∷ b'p' ∷ b'-' ∷ b'e' ∷ b'c' ∷ b'h' ∷ b'o' ∷ []
probe_name Method.icmp_time = b'i' ∷ b'c' ∷ b'm' ∷ b'p' ∷ b'-' ∷ b't' ∷ b'i' ∷ b'm' ∷ b'e' ∷ []
probe_name Method.tcp_syn = b't' ∷ b'c' ∷ b'p' ∷ b'-' ∷ b's' ∷ b'y' ∷ b'n' ∷ []
probe_name Method.tcp_ack = b't' ∷ b'c' ∷ b'p' ∷ b'-' ∷ b'a' ∷ b'c' ∷ b'k' ∷ []
probe_name Method.tcp_ack_sport =
    b't' ∷ b'c' ∷ b'p' ∷ b'-' ∷ b'a' ∷ b'c' ∷ b'k' ∷ b'-' ∷ b's' ∷ b'p' ∷ b'o' ∷ b'r' ∷ b't' ∷ []
probe_name Method.tcp_synack =
    b't' ∷ b'c' ∷ b'p' ∷ b'-' ∷ b's' ∷ b'y' ∷ b'n' ∷ b'a' ∷ b'c' ∷ b'k' ∷ []
probe_name Method.tcp_rst = b't' ∷ b'c' ∷ b'p' ∷ b'-' ∷ b'r' ∷ b's' ∷ b't' ∷ []
probe_name Method.udp = b'u' ∷ b'd' ∷ b'p' ∷ []
probe_name Method.udp_dport = b'u' ∷ b'd' ∷ b'p' ∷ b'-' ∷ b'd' ∷ b'p' ∷ b'o' ∷ b'r' ∷ b't' ∷ []

abbrev pub hex_digit : ℕ → ℕ
hex_digit n = if ltb n 10 then b'0' + n else b'a' + (n - 10)

-- `to_hex_string` of probe/payloads.cpp: two digits for each byte
unfoldable pub to_hex_string : Payload → Bytes
to_hex_string [] = []
to_hex_string (c ∷ cs) = hex_digit (u8 c / 16) ∷ hex_digit (u8 c % 16) ∷ to_hex_string cs

-- what is appended one after the other; the user id is appended as one character
unfoldable pub echo_pieces : (Address → Bytes) → Request → List Bytes
unfolding probe_name
echo_pieces print req =
    ping_cmd
    ∷ num_opt
    ∷ to_string req.num_probes
    ∷ space
    ∷ method_opt
    ∷ probe_name Method.icmp_echo
    ∷ space
    ∷ user_id_opt
    ∷ (u8 req.user_id ∷ [])
    ∷ space
    ∷ sport_opt
    ∷ zero_arg
    ∷ probe_timeout_opt
    ∷ zero_arg
    ∷ enable_spoofing_opt
    ∷ saddr_opt
    ∷ print req.saddr
    ∷ space
    ∷ print req.daddr
    ∷ []

unfoldable pub make_icmp_echo_probe : (Address → Bytes) → Request → Bytes
unfolding echo_pieces
make_icmp_echo_probe print req = concat (echo_pieces print req) ++ newline

unfoldable pub udp_pieces : (Address → Bytes) → Request → List Bytes
unfolding probe_name to_hex_string
udp_pieces print req =
    ping_cmd
    ∷ num_opt
    ∷ to_string req.num_probes
    ∷ space
    ∷ probe_timeout_opt
    ∷ zero_arg
    ∷ method_opt
    ∷ probe_name Method.udp
    ∷ space
    ∷ user_id_opt
    ∷ to_string req.user_id
    ∷ space
    ∷ dport_opt
    ∷ to_string req.dport
    ∷ space
    ∷ sport_opt
    ∷ to_string req.sport
    ∷ space
    ∷ payload_opt
    ∷ (if is_empty req.payload then default_udp_payload else to_hex_string req.payload)
    ∷ space
    ∷ enable_spoofing_opt
    ∷ no_src_udp_opt
    ∷ saddr_opt
    ∷ print req.saddr
    ∷ space
    ∷ print req.daddr
    ∷ []

unfoldable pub make_udp_probe : (Address → Bytes) → Request → Bytes
unfolding udp_pieces
make_udp_probe print req = concat (udp_pieces print req) ++ newline

unfoldable pub synack_pieces : (Address → Bytes) → Request → List Bytes
unfolding probe_name
synack_pieces print req =
    ping_cmd
    ∷ num_opt
    ∷ to_string req.num_probes
    ∷ space
    ∷ method_opt
    ∷ probe_name Method.tcp_synack
    ∷ space
    ∷ user_id_opt
    ∷ to_string req.user_id
    ∷ space
    ∷ dport_opt
    ∷ to_string req.dport
    ∷ space
    ∷ sport_opt
    ∷ to_string req.sport
    ∷ space
    ∷ probe_timeout_opt
    ∷ zero_arg
    ∷ enable_spoofing_opt
    ∷ ack_num_opt
    ∷ to_string req.anum
    ∷ space
    ∷ saddr_opt
    ∷ print req.saddr
    ∷ space
    ∷ print req.daddr
    ∷ []

unfoldable pub make_tcp_synack_probe : (Address → Bytes) → Request → Bytes
unfolding synack_pieces
make_tcp_synack_probe print req = concat (synack_pieces print req) ++ newline

unfoldable pub rst_pieces : (Address → Bytes) → Request → List Bytes
unfolding probe_name
rst_pieces print req =
    ping_cmd
    ∷ num_opt
    ∷ to_string req.num_probes
    ∷ space
    ∷ probe_timeout_opt
    ∷ zero_arg
    ∷ method_opt
    ∷ probe_name Method.tcp_rst
    ∷ space
    ∷ user_id_opt
    ∷ to_string req.user_id
    ∷ space
    ∷ dport_opt
    ∷ to_string req.dport
    ∷ space
    ∷ sport_opt
    ∷ to_string req.sport
    ∷ space
    ∷ enable_spoofing_opt
    ∷ seq_num_opt
    ∷ to_string req.snum
    ∷ space
    ∷ saddr_opt
    ∷ print req.saddr
    ∷ space
    ∷ print req.daddr
    ∷ []

unfoldable pub make_tcp_rst_probe : (Address → Bytes) → Request → Bytes
unfolding rst_pieces
make_tcp_rst_probe print req = concat (rst_pieces print req) ++ newline

-- other methods have no command
unfoldable pub make_command : (Address → Bytes) → Request → Bytes
unfolding make_icmp_echo_probe make_udp_probe make_tcp_synack_probe make_tcp_rst_probe
make_command print req = elim req.probe_method [
  | Method.icmp_echo ↦ make_icmp_echo_probe print req
  | Method.udp ↦ make_udp_probe print req
  | Method.tcp_synack ↦ make_tcp_synack_probe print req
  | Method.tcp_rst ↦ make_tcp_rst_probe print req
  | _ ↦ []
]

unfoldable pub make_tcp_synack_probe_pe : (Address → Bytes) → Request → Bytes
unfolding probe_name
make_tcp_synack_probe_pe print req = concat (
    ping_cmd
    ∷ num_opt
    ∷ to_string req.num_probes
    ∷ space
    ∷ method_opt
    ∷ probe_name Method.tcp_synack
    ∷ space
    ∷ user_id_opt
    ∷ to_string req.user_id
    ∷ space
    ∷ dport_opt
    ∷ to_string req.dport
    ∷ space
    ∷ sport_opt
    ∷ to_string req.sport
    ∷ space
    ∷ probe_timeout_opt
    ∷ zero_arg
    ∷ enable_spoofing_opt
    ∷ ack_num_opt
    ∷ to_string req.anum
    ∷ space
    ∷ saddr_opt
    ∷ print req.saddr
    ∷ space
    ∷ print req.daddr
    ∷ newline
    ∷ [])

-- the same by a stream, which prints the numbers itself
unfoldable pub make_tcp_synack_probe_ss : (Address → Bytes) → Request → Bytes
unfolding probe_name
make_tcp_synack_probe_ss print req = concat (
    ping_cmd
    ∷ num_opt
    ∷ to_string req.num_probes
    ∷ space
    ∷ method_opt
    ∷ probe_name Method.tcp_synack
    ∷ space
    ∷ user_id_opt
    ∷ to_string req.user_id
    ∷ space
    ∷ dport_opt
    ∷ to_string req.dport
    ∷ space
    ∷ sport_opt
    ∷ to_string req.sport
    ∷ space
    ∷ probe_timeout_opt
    ∷ to_string 0
    ∷ space
    ∷ enable_spoofing_opt
    ∷ ack_num_opt
    ∷ to_string req.anum
    ∷ space
    ∷ saddr_opt
    ∷ print req.saddr
    ∷ space
    ∷ print req.daddr
    ∷ newline
    ∷ [])

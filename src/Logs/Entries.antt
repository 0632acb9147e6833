-- ===== src/Logs/Entries.antt =====
-- The rows of the raw logs: `append_log_entry` of spoki/libspoki/src/collector.cpp. `print` stands for
-- the printer of addresses of the actor library.
pub mod Delimiters
pub mod Columns
mod Tests
use spoki.Prelude.{
  ℕ, ◌/◌, Bool, true, false, Option, List, [], ◌∷◌, ◌++◌, concat, is_empty, if◌then◌else◌,
}
use spoki.Prelude.Decimal.{to_string}
use spoki.Net.{Address, IcmpType, TcpOpt, Icmp, Tcp, Udp, PacketData, icmp, tcp, udp, Packet}
use spoki.Probe.{Request}
use spoki.Probe.Commands.{probe_name, to_hex_string}
use spoki.Logs.{Bytes}

abbrev pub delimiter : ℕ
delimiter = b'|'

-- `append_field_del`
abbrev pub del : Bytes → Bytes
del str = str ++ delimiter ∷ []

-- an empty column
abbrev pub bar : Bytes
bar = delimiter ∷ []

-- `option_name` of net/tcp_opt.cpp
unfoldable pub option_name : TcpOpt → Bytes
option_name TcpOpt.end_of_list =
    b'e' ∷ b'n' ∷ b'd' ∷ b'_' ∷ b'o' ∷ b'f' ∷ b'_' ∷ b'l' ∷ b'i' ∷ b's' ∷ b't' ∷ []
option_name TcpOpt.noop = b'n' ∷ b'o' ∷ b'o' ∷ b'p' ∷ []
option_name TcpOpt.mss = b'm' ∷ b's' ∷ b's' ∷ []
option_name TcpOpt.window_scale =
    b'w' ∷ b'i' ∷ b'n' ∷ b'd' ∷ b'o' ∷ b'w' ∷ b'_' ∷ b's' ∷ b'c' ∷ b'a' ∷ b'l' ∷ b'e' ∷ []
option_name TcpOpt.sack_permitted =
    b's' ∷ b'a' ∷ b'c' ∷ b'k' ∷ b'_' ∷ b'p' ∷ b'e' ∷ b'r' ∷ b'm' ∷ b'i' ∷ b't' ∷ b't' ∷ b'e' ∷ b'd'
    ∷ []
option_name TcpOpt.sack = b's' ∷ b'a' ∷ b'c' ∷ b'k' ∷ []
option_name TcpOpt.timestamp = b't' ∷ b'i' ∷ b'm' ∷ b'e' ∷ b's' ∷ b't' ∷ b'a' ∷ b'm' ∷ b'p' ∷ []
option_name TcpOpt.other = b'o' ∷ b't' ∷ b'h' ∷ b'e' ∷ b'r' ∷ []

-- the names of the options, joined by colons; the map lists them in the order of its iteration
unfoldable pub options_string : List (TcpOpt × Option ℕ) → Bytes
unfolding option_name
options_string [] = []
options_string ((key, val) ∷ []) = option_name key
options_string ((key, val) ∷ o ∷ os) = option_name key ++ b':' ∷ options_string (o ∷ os)

-- the part of `to_string` behind "spoki::net::icmp_type::" (net/icmp_type_strings.cpp)
unfoldable pub type_suffix : IcmpType → Bytes
type_suffix IcmpType.echo_reply =
    b'e' ∷ b'c' ∷ b'h' ∷ b'o' ∷ b'_' ∷ b'r' ∷ b'e' ∷ b'p' ∷ b'l' ∷ b'y' ∷ []
type_suffix IcmpType.dest_unreachable =
    b'd' ∷ b'e' ∷ b's' ∷ b't' ∷ b'_' ∷ b'u' ∷ b'n' ∷ b'r' ∷ b'e' ∷ b'a' ∷ b'c' ∷ b'h' ∷ b'a' ∷ b'b'
    ∷ b'l' ∷ b'e' ∷ []
type_suffix IcmpType.source_quench =
    b's' ∷ b'o' ∷ b'u' ∷ b'r' ∷ b'c' ∷ b'e' ∷ b'_' ∷ b'q' ∷ b'u' ∷ b'e' ∷ b'n' ∷ b'c' ∷ b'h' ∷ []
type_suffix IcmpType.redirect_message =
    b'r' ∷ b'e' ∷ b'd' ∷ b'i' ∷ b'r' ∷ b'e' ∷ b'c' ∷ b't' ∷ b'_' ∷ b'm' ∷ b'e' ∷ b's' ∷ b's' ∷ b'a'
    ∷ b'g' ∷ b'e' ∷ []
type_suffix IcmpType.echo_request =
    b'e' ∷ b'c' ∷ b'h' ∷ b'o' ∷ b'_' ∷ b'r' ∷ b'e' ∷ b'q' ∷ b'u' ∷ b'e' ∷ b's' ∷ b't' ∷ []
type_suffix IcmpType.router_advertisement =
    b'r' ∷ b'o' ∷ b'u' ∷ b't' ∷ b'e' ∷ b'r' ∷ b'_' ∷ b'a' ∷ b'd' ∷ b'v' ∷ b'e' ∷ b'r' ∷ b't' ∷ b'i'
    ∷ b's' ∷ b'e' ∷ b'm' ∷ b'e' ∷ b'n' ∷ b't' ∷ []
type_suffix IcmpType.router_solicitation =
    b'r' ∷ b'o' ∷ b'u' ∷ b't' ∷ b'e' ∷ b'r' ∷ b'_' ∷ b's' ∷ b'o' ∷ b'l' ∷ b'i' ∷ b'c' ∷ b'i' ∷ b't'
    ∷ b'a' ∷ b't' ∷ b'i' ∷ b'o' ∷ b'n' ∷ []
type_suffix IcmpType.time_exceeded =
    b't' ∷ b'i' ∷ b'm' ∷ b'e' ∷ b'_' ∷ b'e' ∷ b'x' ∷ b'c' ∷ b'e' ∷ b'e' ∷ b'd' ∷ b'e' ∷ b'd' ∷ []
type_suffix IcmpType.bad_ip_header =
    b'b' ∷ b'a' ∷ b'd' ∷ b'_' ∷ b'i' ∷ b'p' ∷ b'_' ∷ b'h' ∷ b'e' ∷ b'a' ∷ b'd' ∷ b'e' ∷ b'r' ∷ []
type_suffix IcmpType.timestamp = b't' ∷ b'i' ∷ b'm' ∷ b'e' ∷ b's' ∷ b't' ∷ b'a' ∷ b'm' ∷ b'p' ∷ []
type_suffix IcmpType.timestamp_reply =
    b't' ∷ b'i' ∷ b'm' ∷ b'e' ∷ b's' ∷ b't' ∷ b'a' ∷ b'm' ∷ b'p' ∷ b'_' ∷ b'r' ∷ b'e' ∷ b'p' ∷ b'l'
    ∷ b'y' ∷ []
type_suffix IcmpType.information_request =
    b'i' ∷ b'n' ∷ b'f' ∷ b'o' ∷ b'r' ∷ b'm' ∷ b'a' ∷ b't' ∷ b'i' ∷ b'o' ∷ b'n' ∷ b'_' ∷ b'r' ∷ b'e'
    ∷ b'q' ∷ b'u' ∷ b'e' ∷ b's' ∷ b't' ∷ []
type_suffix IcmpType.information_reply =
    b'i' ∷ b'n' ∷ b'f' ∷ b'o' ∷ b'r' ∷ b'm' ∷ b'a' ∷ b't' ∷ b'i' ∷ b'o' ∷ b'n' ∷ b'_' ∷ b'r' ∷ b'e'
    ∷ b'p' ∷ b'l' ∷ b'y' ∷ []
type_suffix IcmpType.addr_mark_request =
    b'a' ∷ b'd' ∷ b'd' ∷ b'r' ∷ b'_' ∷ b'm' ∷ b'a' ∷ b'r' ∷ b'k' ∷ b'_' ∷ b'r' ∷ b'e' ∷ b'q' ∷ b'u'
    ∷ b'e' ∷ b's' ∷ b't' ∷ []
type_suffix IcmpType.addr_mark_reply =
    b'a' ∷ b'd' ∷ b'd' ∷ b'r' ∷ b'_' ∷ b'm' ∷ b'a' ∷ b'r' ∷ b'k' ∷ b'_' ∷ b'r' ∷ b'e' ∷ b'p' ∷ b'l'
    ∷ b'y' ∷ []
type_suffix IcmpType.extended_echo_request =
    b'e' ∷ b'x' ∷ b't' ∷ b'e' ∷ b'n' ∷ b'd' ∷ b'e' ∷ b'd' ∷ b'_' ∷ b'e' ∷ b'c' ∷ b'h' ∷ b'o' ∷ b'_'
    ∷ b'r' ∷ b'e' ∷ b'q' ∷ b'u' ∷ b'e' ∷ b's' ∷ b't' ∷ []
type_suffix IcmpType.extended_echo_reply =
    b'e' ∷ b'x' ∷ b't' ∷ b'e' ∷ b'n' ∷ b'd' ∷ b'e' ∷ b'd' ∷ b'_' ∷ b'e' ∷ b'c' ∷ b'h' ∷ b'o' ∷ b'_'
    ∷ b'r' ∷ b'e' ∷ b'p' ∷ b'l' ∷ b'y' ∷ []
type_suffix IcmpType.other = b'o' ∷ b't' ∷ b'h' ∷ b'e' ∷ b'r' ∷ []

abbrev pub type_prefix : Bytes
type_prefix =
    b's' ∷ b'p' ∷ b'o' ∷ b'k' ∷ b'i' ∷ b':' ∷ b':' ∷ b'n' ∷ b'e' ∷ b't' ∷ b':' ∷ b':' ∷ b'i' ∷ b'c'
    ∷ b'm' ∷ b'p' ∷ b'_' ∷ b't' ∷ b'y' ∷ b'p' ∷ b'e' ∷ b':' ∷ b':' ∷ []

abbrev pub flag : Bool → Bytes
flag true = b'1' ∷ []
flag false = b'0' ∷ []

-- `vis_protocol_string` for ICMP
unfoldable pub icmp_columns : Icmp → List Bytes
unfolding type_suffix
icmp_columns x =
    del (b'i' ∷ b'c' ∷ b'm' ∷ b'p' ∷ [])
    ∷ bar
    ∷ bar
    ∷ bar
    ∷ bar
    ∷ del (type_prefix ++ type_suffix x.type)
    ∷ bar
    ∷ bar
    ∷ bar
    ∷ bar
    ∷ bar
    ∷ []

-- `vis_protocol_string` for TCP
unfoldable pub tcp_columns : Tcp → List Bytes
unfolding options_string to_hex_string to_string
tcp_columns x =
    del (b't' ∷ b'c' ∷ b'p' ∷ [])
    ∷ del (to_string x.sport)
    ∷ del (to_string x.dport)
    ∷ del (to_string x.anum)
    ∷ del (to_string x.snum)
    ∷ del (options_string x.options)
    ∷ del (to_hex_string x.payload)
    ∷ del (flag x.syn)
    ∷ del (flag x.ack)
    ∷ del (flag x.rst)
    ∷ del (flag x.fin)
    ∷ to_string x.window_size
    ∷ []

-- `vis_protocol_string` for UDP
unfoldable pub udp_columns : Udp → List Bytes
unfolding to_hex_string to_string
udp_columns x =
    del (b'u' ∷ b'd' ∷ b'p' ∷ [])
    ∷ del (to_string x.sport)
    ∷ to_string x.dport
    ∷ bar
    ∷ bar
    ∷ bar
    ∷ to_hex_string x.payload
    ∷ bar
    ∷ bar
    ∷ bar
    ∷ bar
    ∷ bar
    ∷ []

unfoldable pub protocol_columns : PacketData → List Bytes
unfolding icmp_columns tcp_columns udp_columns
protocol_columns (icmp x) = icmp_columns x
protocol_columns (tcp x) = tcp_columns x
protocol_columns (udp x) = udp_columns x

-- the columns up to `ttl`; the time stamp is in milliseconds
unfoldable pub packet_columns : (Address → Bytes) → Packet → List Bytes
unfolding to_string
packet_columns print pkt =
    del (to_string (pkt.observed / 1000000))
    ∷ del (print pkt.saddr)
    ∷ del (print pkt.daddr)
    ∷ del (to_string pkt.ipid)
    ∷ del (to_string pkt.ttl)
    ∷ []

-- behind the columns of the protocol: not probed
abbrev pub plain_tail : List Bytes
plain_tail = bar ∷ del (b'f' ∷ b'a' ∷ b'l' ∷ b's' ∷ b'e' ∷ []) ∷ bar ∷ bar ∷ bar ∷ bar ∷ []

-- and probed
unfoldable pub probed_tail : Request → List Bytes
unfolding probe_name to_string
probed_tail req =
    bar
    ∷ del (b't' ∷ b'r' ∷ b'u' ∷ b'e' ∷ [])
    ∷ del (probe_name req.probe_method)
    ∷ del (to_string req.user_id)
    ∷ del (to_string req.anum)
    ∷ del (to_string req.snum)
    ∷ to_string req.num_probes
    ∷ []

-- `append_log_entry` for a packet that is not probed
unfoldable pub append_log_entry : (Address → Bytes) → Bytes → Packet → Bytes
unfolding packet_columns protocol_columns
append_log_entry print buf pkt =
    buf
    ++ concat (packet_columns print pkt)
    ++ concat (protocol_columns pkt.proto)
    ++ concat plain_tail

-- `append_log_entry` for a packet and the request that it led to
unfoldable pub append_probed_entry : (Address → Bytes) → Bytes → Packet → Request → Bytes
unfolding packet_columns protocol_columns probed_tail
append_probed_entry print buf pkt req =
    buf
    ++ concat (packet_columns print pkt)
    ++ concat (protocol_columns pkt.proto)
    ++ concat (probed_tail req)

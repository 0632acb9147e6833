-- ===== src/Logs/Entries/Delimiters.antt =====
-- The delimiters in the texts that a row is made of (spoki/libspoki/src/collector.cpp).
use spoki.Prelude.{
  ℕ, ◌+◌, ◌≡◌, refl, Bool, true, false, List, [], ◌∷◌, ◌++◌, concat, arith, ◌==◌, if◌then◌else◌,
  all_of, Option,
}
use spoki.Prelude.Decimal.{to_string, is_digit, to_string-digits}
use spoki.Net.{IcmpType, TcpOpt}
use spoki.Probe.{Method}
use spoki.Probe.Commands.{probe_name, to_hex_string}
use spoki.Logs.{Bytes}
use spoki.Logs.Entries.{delimiter, del, bar, option_name, options_string, type_suffix, flag}

-- the delimiters in a text
abbrev pub bars : Bytes → ℕ
bars [] = 0
bars (c ∷ cs) = (if c == delimiter then 1 else 0) + bars cs

pub bars-append : (xs ys : Bytes) → bars (xs ++ ys) ≡ bars xs + bars ys
bars-append [] ys = omega arith
bars-append (x ∷ xs) ys = omega (arith, bars-append xs ys)

pub bars-del : (str : Bytes) → bars str ≡ 0 → bars (del str) ≡ 1
bars-del str h = omega (arith, h, bars-append str bar)

digits-bars : (xs : Bytes) → all_of is_digit xs ≡ true → bars xs ≡ 0
digits-bars [] h = refl
digits-bars (x ∷ xs) h = ground (arith, digits-bars xs)

pub to_string-bars : (n : ℕ) → bars (to_string n) ≡ 0
to_string-bars n = digits-bars (to_string n) (to_string-digits n)

pub number : (n : ℕ) → bars (del (to_string n)) ≡ 1
number n = bars-del (to_string n) (to_string-bars n)

pub to_hex_string-bars : (cs : Bytes) → bars (to_hex_string cs) ≡ 0
unfolding to_hex_string
to_hex_string-bars [] = refl
to_hex_string-bars (c ∷ cs) = ground (arith, to_hex_string-bars cs)

option_name-bars : (o : TcpOpt) → bars (option_name o) ≡ 0
unfolding option_name
option_name-bars TcpOpt.end_of_list = refl
option_name-bars TcpOpt.noop = refl
option_name-bars TcpOpt.mss = refl
option_name-bars TcpOpt.window_scale = refl
option_name-bars TcpOpt.sack_permitted = refl
option_name-bars TcpOpt.sack = refl
option_name-bars TcpOpt.timestamp = refl
option_name-bars TcpOpt.other = refl

pub options_string-bars : (os : List (TcpOpt × Option ℕ)) → bars (options_string os) ≡ 0
unfolding options_string
options_string-bars [] = refl
options_string-bars ((key, val) ∷ []) = option_name-bars key
options_string-bars ((key, val) ∷ o ∷ os) = omega (
  arith,
  bars-append (option_name key) (b':' ∷ options_string (o ∷ os)),
  option_name-bars key,
  options_string-bars (o ∷ os),
)

unfoldable pub sum_bars : List Bytes → ℕ
sum_bars [] = 0
sum_bars (xs ∷ xss) = bars xs + sum_bars xss

pub bars-concat : (xss : List Bytes) → bars (concat xss) ≡ sum_bars xss
unfolding sum_bars
bars-concat [] = refl
bars-concat (xs ∷ xss) = omega (arith, bars-append xs (concat xss), bars-concat xss)

pub type_suffix-bars : (t : IcmpType) → bars (type_suffix t) ≡ 0
unfolding type_suffix
type_suffix-bars IcmpType.echo_reply = refl
type_suffix-bars IcmpType.dest_unreachable = refl
type_suffix-bars IcmpType.source_quench = refl
type_suffix-bars IcmpType.redirect_message = refl
type_suffix-bars IcmpType.echo_request = refl
type_suffix-bars IcmpType.router_advertisement = refl
type_suffix-bars IcmpType.router_solicitation = refl
type_suffix-bars IcmpType.time_exceeded = refl
type_suffix-bars IcmpType.bad_ip_header = refl
type_suffix-bars IcmpType.timestamp = refl
type_suffix-bars IcmpType.timestamp_reply = refl
type_suffix-bars IcmpType.information_request = refl
type_suffix-bars IcmpType.information_reply = refl
type_suffix-bars IcmpType.addr_mark_request = refl
type_suffix-bars IcmpType.addr_mark_reply = refl
type_suffix-bars IcmpType.extended_echo_request = refl
type_suffix-bars IcmpType.extended_echo_reply = refl
type_suffix-bars IcmpType.other = refl

pub probe_name-bars : (m : Method) → bars (probe_name m) ≡ 0
unfolding probe_name
probe_name-bars Method.icmp_echo = refl
probe_name-bars Method.icmp_time = refl
probe_name-bars Method.tcp_syn = refl
probe_name-bars Method.tcp_ack = refl
probe_name-bars Method.tcp_ack_sport = refl
probe_name-bars Method.tcp_synack = refl
probe_name-bars Method.tcp_rst = refl
probe_name-bars Method.udp = refl
probe_name-bars Method.udp_dport = refl

pub flag-bars : (b : Bool) → bars (del (flag b)) ≡ 1
flag-bars true = refl
flag-bars false = refl

-- ===== src/Probe/Commands/Tests.antt =====
-- Commands of concrete requests, and the theorems on them.
use spoki.Prelude.{◌≡◌, refl, [], ◌∷◌}
use spoki.Prelude.Decimal.{to_string}
use spoki.Net.{Address}
use spoki.Probe.{Method, Request, empty_request}
use spoki.Probe.Commands.{Bytes, make_command}
use spoki.Probe.Commands.Lines.{IsLine, to_string-OneLine, make_command-IsLine}

-- addresses by their number
abbrev print : Address → Bytes
print = to_string

abbrev udp_request : Request
udp_request = record empty_request {
  probe_method = Method.udp;
  saddr = 1;
  daddr = 2;
  sport = 53;
  dport = 4096;
  user_id = 16777217;
  payload = 171 ∷ [];
  num_probes = 1;
}

make_command-IsLine_example : IsLine (make_command print udp_request)
make_command-IsLine_example = make_command-IsLine print udp_request to_string-OneLine refl

abbrev synack_request : Request
synack_request = record udp_request { probe_method = Method.tcp_synack }

-- an echo request whose user id is 10 is cut in two lines, and has no digit of its user id
abbrev echo_request : Request
echo_request = record udp_request { probe_method = Method.icmp_echo; user_id = 10 }

-- "ping -c 1 -P icmp-echo -U ", a newline, and " -F 0 -W 0 -O spoof -S 1 2"
broken_echo :
    make_command print echo_request
    ≡ b'p' ∷ b'i' ∷ b'n' ∷ b'g' ∷ 32 ∷ b'-' ∷ b'c' ∷ 32 ∷ b'1' ∷ 32 ∷ b'-' ∷ b'P' ∷ 32 ∷ b'i' ∷ b'c'
      ∷ b'm' ∷ b'p' ∷ b'-' ∷ b'e' ∷ b'c' ∷ b'h' ∷ b'o' ∷ 32 ∷ b'-' ∷ b'U' ∷ 32 ∷ 10 ∷ 32 ∷ b'-'
      ∷ b'F' ∷ 32 ∷ b'0' ∷ 32 ∷ b'-' ∷ b'W' ∷ 32 ∷ b'0' ∷ 32 ∷ b'-' ∷ b'O' ∷ 32 ∷ b's' ∷ b'p' ∷ b'o'
      ∷ b'o' ∷ b'f' ∷ 32 ∷ b'-' ∷ b'S' ∷ 32 ∷ b'1' ∷ 32 ∷ b'2' ∷ 10 ∷ []
unfolding make_command to_string
broken_echo = refl

-- ===== src/Logs/Entries/Tests.antt =====
-- The rows of concrete packets, and the theorem on their columns.
use spoki.Prelude.{◌≡◌, refl, [], ◌∷◌}
use spoki.Net.{Address, udp, Packet}
use spoki.Probe.{empty_request}
use spoki.Logs.{Bytes}
use spoki.Probe.Commands.{to_hex_string}
use spoki.Logs.Entries.{append_log_entry, append_probed_entry}
use spoki.Logs.Entries.Delimiters.{bars}
use spoki.Logs.Entries.Columns.{InColumn, append_log_entry-bars}

abbrev print : Address → Bytes
print a = b'x' ∷ []

abbrev datagram : Packet
datagram = record {
  saddr = 1;
  daddr = 2;
  ipid = 3;
  ttl = 64;
  observed = 7000000;
  proto = udp (record { sport = 53; dport = 99; payload = 255 ∷ [] });
}

-- 10 and 11 delimiters, one less than the header, and the payload in the 11th column
append_log_entry-bars_example :
    (bars (append_log_entry print [] datagram) ≡ 21)
    × (bars (append_probed_entry print [] datagram empty_request) ≡ 21)
    × InColumn (append_log_entry print [] datagram) (b'f' ∷ b'f' ∷ []) 9
    × InColumn (append_probed_entry print [] datagram empty_request) (b'f' ∷ b'f' ∷ []) 9
unfolding to_hex_string
append_log_entry-bars_example = append_log_entry-bars print (λ a. refl) [] datagram empty_request

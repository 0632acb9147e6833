-- ===== src/Scamper/Records/Tests.antt =====
-- A decoded ping, and the theorem at it.
use spoki.Prelude.{◌≡◌, refl, arith, true, false, some, [], ◌∷◌}
use spoki.Probe.{Method}
use spoki.Scamper.Records.{Codes, Ping, flag_names, all_flags}
use spoki.Scamper.Records.Conversions.{code}

abbrev numbers : Codes
numbers = record {
  icmp_echo = 0;
  tcp_ack = 1;
  tcp_ack_sport = 2;
  udp = 3;
  udp_dport = 4;
  icmp_time = 5;
  tcp_syn = 6;
  tcp_synack = 7;
  tcp_rst = 8;
}

-- a SYN ACK that was sent twice, with one reply
abbrev result : Ping
result = record {
  probe_method = 7;
  src = b'a' ∷ [];
  dst = b'b' ∷ [];
  start = record { sec = 1; usec = 2 };
  ping_sent = 2;
  probe_size = 44;
  userid = 9;
  probe_ttl = 64;
  probe_wait = 1;
  probe_timeout = 1;
  probe_sport = 80;
  probe_dport = 1337;
  probe_data = some (10 ∷ []);
  flags = 6;
  ping_replies = true ∷ false ∷ [];
}

numbers-distinct : (a b : Method) → code numbers a ≡ code numbers b → a ≡ b
numbers-distinct Method.icmp_echo b h = ground arith
numbers-distinct a b h = ground arith

-- the flags 2 and 4 are "spoof" and "payload"
two_flags :
    flag_names 6 0 all_flags
    ≡ (b's' ∷ b'p' ∷ b'o' ∷ b'o' ∷ b'f' ∷ [])
      ∷ (b'p' ∷ b'a' ∷ b'y' ∷ b'l' ∷ b'o' ∷ b'a' ∷ b'd' ∷ [])
      ∷ []
unfolding flag_names
two_flags = refl

-- ===== src/Logs/Replies/Tests.antt =====
-- The rows of one reply.
use spoki.Prelude.{◌≡◌, refl, [], ◌∷◌}
use spoki.Prelude.Decimal.{to_string}
use spoki.Probe.{Method}
use spoki.Probe.Commands.{probe_name}
use spoki.Scamper.Records.{Reply, method_string, to_log_line}
use spoki.Logs.Entries.{delimiter}
use spoki.Logs.Replies.{append_reply_entry, split, columns, split-rows}

abbrev answered : Reply
answered = record {
  type = [];
  version = 4;
  probe_method = Method.udp;
  src = b'1' ∷ b'.' ∷ b'2' ∷ [];
  dst = b'3' ∷ b'.' ∷ b'4' ∷ [];
  start = record { sec = 10; usec = 20 };
  ping_sent = 1;
  probe_size = 30;
  userid = 7;
  ttl = 64;
  wait = 1;
  timeout = 1;
  sport = 53;
  dport = 1024;
  payload = [];
  flags = [];
  responses = [];
  stats = record { replies = 0; loss = 1 };
}

split-rows_example :
    (split [] (append_reply_entry [] answered)
      ≡ to_string 10 ∷ columns answered (probe_name Method.udp) (to_string 1))
    × (split [] (to_log_line answered delimiter)
        ≡ to_string 10 ∷ columns answered (method_string Method.udp) (1 ∷ []))
split-rows_example = split-rows answered refl refl refl

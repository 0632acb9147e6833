-- ===== src/Scamper/Driver/Interest.antt =====
-- When the driver waits for its sockets: the interest in write events against the requests and the
-- MOREs that it has (spoki/libspoki/src/scamper/driver.cpp).
use spoki.Prelude.{
  ℕ, zero, suc, ◌+◌, ◌≤◌, ◌<◌, ◌≡◌, refl, true, false, not, ◌&&◌, Option, List, [], ◌∷◌, ◌++◌,
  arith, ltb, ◌==◌, if◌then◌else◌, if-both, length, is_empty, drop,
}
use spoki.Scamper.{Bytes}
use spoki.Scamper.Sockets.{RecvResult, received, nothing, closed, held}
use spoki.Scamper.Driver.{
  Driver, start, enable, disable, queue, handle_notify_read, handle_decode_write, complete,
}
use spoki.Scamper.Driver.Replies.{
  handle_more, handle_cmd, pass_on, handle_data, handle_line, scan, handle_scamper_read,
}

-- The driver asks to write exactly when it has a request and a MORE to write it for, and to decode
-- exactly when it says so; decoded bytes never wait without that. No command is half written.
pub record IsReady (d : Driver) : Type 0 where
  pub wants_write : d.masks.scamper.epollout ≡ ltb 0 d.more && not (is_empty d.requests)
  pub writing_on : d.writing ≡ true → d.masks.scamper.epollout ≡ true
  pub wants_decode : d.masks.decode_write.epollout ≡ d.decoding
  pub nothing_stuck : d.decoding ≡ false → d.decode_wb ≡ []
  pub whole : d.written ≡ 0
  pub reads : d.masks.scamper.epollin ≡ true
  pub more_fits : d.more < 18446744073709551616

pub start-IsReady : IsReady start
unfolding start
start-IsReady = record {
  wants_write = refl;
  writing_on = λ e. refl;
  wants_decode = refl;
  nothing_stuck = λ e. refl;
  whole = refl;
  reads = refl;
  more_fits = omega arith;
}

is_empty-snoc {ℓ} : {A : Type ℓ} (xs : List A) (x : A) → is_empty (xs ++ x ∷ []) ≡ false
is_empty-snoc [] x = refl
is_empty-snoc (y ∷ xs) x = refl

queue-IsReady : (d : Driver) (cmd : Bytes) → IsReady d → IsReady (queue d cmd)
unfolding queue enable
queue-IsReady d cmd v = record {
  wants_write = ground (arith, is_empty-snoc d.requests cmd);
  writing_on = ground (arith, is_empty-snoc d.requests cmd);
  wants_decode = ground arith;
  nothing_stuck = ground arith;
  whole = ground arith;
  reads = ground arith;
  more_fits = ground arith;
}

pub handle_notify_read-IsReady :
    (d : Driver) (cmds : List Bytes) → IsReady d → IsReady (handle_notify_read d cmds)
unfolding handle_notify_read
handle_notify_read-IsReady d [] v = v
handle_notify_read-IsReady d (cmd ∷ cmds) v =
    handle_notify_read-IsReady (queue d cmd) cmds (queue-IsReady d cmd v)

is_empty→nil {ℓ} : {A : Type ℓ} (xs : List A) → is_empty xs ≡ true → xs ≡ []
is_empty→nil [] e = refl
is_empty→nil (x ∷ xs) e = ground arith

drop-nil {ℓ} : {A : Type ℓ} (n : ℕ) → drop {A = A} n [] ≡ []
drop-nil zero = refl
drop-nil (suc n) = refl

pub handle_decode_write-IsReady :
    (d : Driver) (n : ℕ) → IsReady d → IsReady (handle_decode_write d n)
unfolding handle_decode_write disable
handle_decode_write-IsReady d n v = record {
  wants_write = ground arith;
  writing_on = ground arith;
  wants_decode = ground arith;
  nothing_stuck = ground (arith, is_empty→nil (drop n d.decode_wb), drop-nil {A = ℕ} n);
  whole = ground arith;
  reads = ground arith;
  more_fits = ground arith;
}

handle_more-IsReady :
    (d : Driver) → d.more + 1 < 18446744073709551616 → IsReady d → IsReady (handle_more d)
unfolding handle_more enable
handle_more-IsReady d h v = record {
  wants_write = ground arith;
  writing_on = ground arith;
  wants_decode = ground arith;
  nothing_stuck = ground arith;
  whole = ground arith;
  reads = ground arith;
  more_fits = ground arith;
}

handle_cmd-IsReady :
    (d : Driver) (line following : Bytes)
    → d.more + 1 < 18446744073709551616
    → IsReady d
    → IsReady (handle_cmd d line following)
unfolding handle_cmd
handle_cmd-IsReady d line following h v = record {
  wants_write = ground (arith, (handle_more-IsReady d h v).wants_write);
  writing_on = ground (arith, (handle_more-IsReady d h v).writing_on);
  wants_decode = ground (arith, (handle_more-IsReady d h v).wants_decode);
  nothing_stuck = ground (arith, (handle_more-IsReady d h v).nothing_stuck);
  whole = ground (arith, (handle_more-IsReady d h v).whole);
  reads = ground (arith, (handle_more-IsReady d h v).reads);
  more_fits = ground (arith, (handle_more-IsReady d h v).more_fits);
}

handle_data-IsReady :
    (uudecode : Bytes → Option Bytes) (d : Driver) (line : Bytes)
    → IsReady d
    → IsReady (handle_data uudecode d line)
unfolding handle_data pass_on enable
handle_data-IsReady uudecode d line v = record {
  wants_write = ground arith;
  writing_on = ground arith;
  wants_decode = ground arith;
  nothing_stuck = ground arith;
  whole = ground arith;
  reads = ground arith;
  more_fits = ground arith;
}

handle_cmd-more :
    (d : Driver) (line following : Bytes)
    → d.more + 1 < 18446744073709551616
    → (handle_cmd d line following).more ≤ d.more + 1
unfolding handle_cmd handle_more enable
handle_cmd-more d line following h = ground arith

handle_data-more :
    (uudecode : Bytes → Option Bytes) (d : Driver) (line : Bytes)
    → (handle_data uudecode d line).more ≡ d.more
unfolding handle_data pass_on enable
handle_data-more uudecode d line = ground arith

handle_line-more :
    (uudecode : Bytes → Option Bytes) (d : Driver) (line following : Bytes)
    → d.more + 1 < 18446744073709551616
    → (handle_line uudecode d line following).more ≤ d.more + 1
unfolding handle_line
handle_line-more uudecode d line following h =
    ground (arith, handle_cmd-more d line following h, handle_data-more uudecode d line)

handle_line-IsReady :
    (uudecode : Bytes → Option Bytes) (d : Driver) (line following : Bytes)
    → d.more + 1 < 18446744073709551616
    → IsReady d
    → IsReady (handle_line uudecode d line following)
unfolding handle_line
handle_line-IsReady uudecode d line following h v =
    if-both IsReady (ltb 0 d.expected_data) (handle_data-IsReady uudecode d line v)
      (handle_cmd-IsReady d line following h v)

scan-IsReady :
    (uudecode : Bytes → Option Bytes) (d : Driver) (line cs : Bytes)
    → d.more + length cs < 18446744073709551616
    → IsReady d
    → IsReady (scan uudecode d line cs)
unfolding scan
scan-IsReady uudecode d line [] h v = record {
  wants_write = v.wants_write;
  writing_on = v.writing_on;
  wants_decode = v.wants_decode;
  nothing_stuck = v.nothing_stuck;
  whole = v.whole;
  reads = v.reads;
  more_fits = v.more_fits;
}
scan-IsReady uudecode d line (c ∷ cs) h v =
    let more_le : (if c == 10 then handle_line uudecode d line cs else d).more ≤ d.more + 1 =
      ground (arith, handle_line-more uudecode d line cs (omega arith)) in
    scan-IsReady uudecode (if c == 10 then handle_line uudecode d line cs else d)
      (if c == 10 then [] else line ++ c ∷ []) cs (omega (arith, more_le))
      (if-both IsReady (c == 10) (handle_line-IsReady uudecode d line cs (omega arith) v) v)

-- the bytes that one read event hands to the loop
abbrev pub scanned : Driver → RecvResult → ℕ
scanned d (received cs) = length (d.read_buf ++ cs)
scanned d (RecvResult.failed errno old) = length (d.read_buf ++ held errno old)
scanned d _ = 0

pub handle_scamper_read-IsReady :
    (uudecode : Bytes → Option Bytes) (d : Driver) (res : RecvResult)
    → d.more + scanned d res < 18446744073709551616
    → IsReady d
    → IsReady (handle_scamper_read uudecode d res)
unfolding handle_scamper_read
handle_scamper_read-IsReady uudecode d (received []) h v = v
handle_scamper_read-IsReady uudecode d (received (c ∷ cs)) h v =
    scan-IsReady uudecode d [] (d.read_buf ++ c ∷ cs) h v
handle_scamper_read-IsReady uudecode d nothing h v = v
handle_scamper_read-IsReady uudecode d closed h v = v
handle_scamper_read-IsReady uudecode d (RecvResult.failed errno old) h v =
    if-both IsReady (errno == 0) v (scan-IsReady uudecode d [] (d.read_buf ++ held errno old) h v)

pub complete-IsReady :
    (d : Driver) (buf : Bytes) (rest : List Bytes)
    → d.requests ≡ buf ∷ rest
    → ltb 0 d.more ≡ true
    → IsReady d
    → IsReady (complete d rest).0
unfolding complete disable
complete-IsReady d buf rest e h v = record {
  wants_write = ground arith;
  writing_on = ground arith;
  wants_decode = ground arith;
  nothing_stuck = ground arith;
  whole = ground arith;
  reads = ground arith;
  more_fits = ground arith;
}

-- ===== src/Scamper/Driver/Credits.antt =====
-- The flow control of scamper: one request for each MORE (spoki/libspoki/src/scamper/driver.cpp).
use spoki.Prelude.{
  ℕ, suc, ◌+◌, ◌-◌, ◌≡◌, refl, ap, ◌∙◌, ◌<◌, ◌≤◌, ◌&&◌, Option, List, [], ◌∷◌, ◌++◌, arith, ◌==◌,
  if◌then◌else◌, length, length-append, take,
}
use spoki.Scamper.{Bytes}
use spoki.Scamper.Sockets.{SendResult, RecvResult, received, nothing, closed, held}
use spoki.Scamper.Driver.{
  Driver, start, queue, enable, disable, handle_notify_read, handle_decode_write, WriteResult,
}
use spoki.Scamper.Driver.Replies.{
  head_of, handle_more, handle_cmd, pass_on, handle_data, handle_line, scan, handle_scamper_read,
}
use spoki.Scamper.Driver.Interest.{scanned}
use spoki.Scamper.Driver.Writing.{
  Wrote, unfinished, took_front, taken_off, Reach, here, commands, decoded, readable, writable,
  on_event, Reach-IsReady,
}

-- one for a line that is a command and begins with M
abbrev pub grants : Driver → Bytes → ℕ
grants d line = if d.expected_data == 0 && head_of line == b'M' then 1 else 0

-- the MOREs among the lines that a scan completes
unfoldable pub granted : (Bytes → Option Bytes) → Driver → Bytes → Bytes → ℕ
granted uudecode d line [] = 0
granted uudecode d line (c ∷ cs) =
    (if c == 10 then grants d line else 0)
    + granted uudecode (if c == 10 then handle_line uudecode d line cs else d)
        (if c == 10 then [] else line ++ c ∷ []) cs

handle_line-more :
    (uudecode : Bytes → Option Bytes) (d : Driver) (line following : Bytes)
    → d.more + 1 < 18446744073709551616
    → (handle_line uudecode d line following).more ≡ d.more + grants d line
unfolding handle_line handle_data handle_cmd pass_on handle_more enable
handle_line-more uudecode d line following h = ground arith

scan-more :
    (uudecode : Bytes → Option Bytes) (d : Driver) (line cs : Bytes)
    → d.more + length cs < 18446744073709551616
    → (scan uudecode d line cs).more ≡ d.more + granted uudecode d line cs
unfolding scan granted
scan-more uudecode d line [] h = omega arith
scan-more uudecode d line (c ∷ cs) h =
    let d' = if c == 10 then handle_line uudecode d line cs else d in
    let one : d'.more ≡ d.more + (if c == 10 then grants d line else 0) =
      ground (arith, handle_line-more uudecode d line cs (omega (arith, h))) in
    let few : (if c == 10 then grants d line else 0) ≤ 1 = ground arith in
    omega (
      arith,
      one,
      scan-more uudecode d' (if c == 10 then [] else line ++ c ∷ []) cs
          (omega (arith, one, few, h)),
    )

abbrev pub granted_read : (Bytes → Option Bytes) → Driver → RecvResult → ℕ
granted_read uudecode d (received []) = 0
granted_read uudecode d (received (c ∷ cs)) = granted uudecode d [] (d.read_buf ++ c ∷ cs)
granted_read uudecode d (RecvResult.failed errno old) =
    if errno == 0 then 0 else granted uudecode d [] (d.read_buf ++ held errno old)
granted_read uudecode d _ = 0

handle_scamper_read-more :
    (uudecode : Bytes → Option Bytes) (d : Driver) (res : RecvResult)
    → d.more + scanned d res < 18446744073709551616
    → (handle_scamper_read uudecode d res).more ≡ d.more + granted_read uudecode d res
unfolding handle_scamper_read
handle_scamper_read-more uudecode d (received []) h = omega arith
handle_scamper_read-more uudecode d (received (c ∷ cs)) h =
    scan-more uudecode d [] (d.read_buf ++ c ∷ cs) h
handle_scamper_read-more uudecode d nothing h = omega arith
handle_scamper_read-more uudecode d closed h = omega arith
handle_scamper_read-more uudecode d (RecvResult.failed errno old) h =
    ground (arith, scan-more uudecode d [] (d.read_buf ++ held errno old) h)

-- the MOREs of a run, with the one that the driver starts with
abbrev pub credits :
    (uudecode : Bytes → Option Bytes) {d : Driver} {queued finished : List Bytes}
    → Reach uudecode d queued finished
    → ℕ
credits uudecode here = 1
credits uudecode (commands cmds r) = credits uudecode r
credits uudecode (decoded n r) = credits uudecode r
credits uudecode (readable {d = d} res h r) = credits uudecode r + granted_read uudecode d res
credits uudecode (writable res w e q r) = credits uudecode r

handle_notify_read-more :
    (d : Driver) (cmds : List Bytes) → (handle_notify_read d cmds).more ≡ d.more
unfolding handle_notify_read queue enable
handle_notify_read-more d [] = refl
handle_notify_read-more d (cmd ∷ cmds) =
    let same : (queue d cmd).more ≡ d.more = ground arith in
    handle_notify_read-more (queue d cmd) cmds ∙ same

handle_decode_write-more : (d : Driver) (n : ℕ) → (handle_decode_write d n).more ≡ d.more
unfolding handle_decode_write disable
handle_decode_write-more d n = ground arith

taken : List Bytes → List Bytes → ℕ
taken xs ys = length (take (length xs - length ys) xs)

taken-same : (xs : List Bytes) → taken xs xs ≡ 0
unfolding taken
taken-same xs = let none_left : length xs - length xs ≡ 0 = omega arith in rw none_left refl

taken-cons : (x : Bytes) (xs : List Bytes) → taken (x ∷ xs) xs ≡ 1
unfolding taken
taken-cons x xs = let one_left : suc (length xs) - length xs ≡ 1 = omega arith in rw one_left refl

Wrote-more :
    (d : Driver) (res : SendResult) (w : WriteResult)
    → Wrote d res w
    → w.driver.more + length (taken_off d w.driver) ≡ d.more
unfolding taken
Wrote-more d res w (unfinished e r) = omega (
  arith,
  ap (λ (z : Driver). z.more) e,
  ap (λ (z : Driver). taken d.requests z.requests) e,
  taken-same d.requests,
)
Wrote-more d res w (took_front cmd e m s) =
    omega (arith, m, ap (λ z. taken z w.driver.requests) e, taken-cons cmd w.driver.requests)

-- While no error event comes, the requests that were taken off the queue as written and the MOREs
-- that are left are together the MOREs that the driver read so far, and the one that it starts with:
-- each request that leaves the queue costs one MORE.
pub Reach-credits :
    (uudecode : Bytes → Option Bytes) {d : Driver} {queued finished : List Bytes}
    (r : Reach uudecode d queued finished)
    → d.more + length finished ≡ credits uudecode r
unfolding start
Reach-credits uudecode here = omega arith
Reach-credits uudecode (commands {d = d} cmds r) =
    omega (arith, handle_notify_read-more d cmds, Reach-credits uudecode r)
Reach-credits uudecode (decoded {d = d} n r) =
    omega (arith, handle_decode_write-more d n, Reach-credits uudecode r)
Reach-credits uudecode (readable {d = d} res h r) =
    omega (arith, handle_scamper_read-more uudecode d res h, Reach-credits uudecode r)
Reach-credits uudecode (writable {d = d} {finished = finished} res w e q r) = omega (
  arith,
  length-append finished (taken_off d w.driver),
  Wrote-more d res w (on_event d res w (Reach-IsReady uudecode r) e q).1,
  Reach-credits uudecode r,
)

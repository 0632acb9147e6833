-- ===== src/Scamper/Driver/Order.antt =====
-- In which order requests leave (spoki/libspoki/src/scamper/driver.cpp).
use spoki.Prelude.{
  ℕ, suc, ◌-◌, ◌≡◌, refl, sym, ap, ◌∙◌, Option, List, [], ◌∷◌, ◌++◌, arith, ◌==◌, if◌then◌else◌,
  if-both, append_assoc, append-nil, length, take,
}
use spoki.Scamper.{Bytes}
use spoki.Scamper.Sockets.{SendResult, RecvResult, received, nothing, closed, held}
use spoki.Scamper.Driver.{
  Driver, start, queue, enable, disable, handle_notify_read, handle_decode_write, WriteResult,
}
use spoki.Scamper.Driver.Replies.{
  handle_more, handle_cmd, pass_on, handle_data, handle_line, scan, handle_scamper_read,
}
use spoki.Scamper.Driver.Writing.{
  Wrote, unfinished, took_front, taken_off, Reach, here, commands, decoded, readable, writable,
  on_event, Reach-IsReady,
}

pub handle_notify_read-requests :
    (d : Driver) (cmds : List Bytes) → (handle_notify_read d cmds).requests ≡ d.requests ++ cmds
unfolding handle_notify_read queue enable
handle_notify_read-requests d [] = sym (append-nil d.requests)
handle_notify_read-requests d (cmd ∷ cmds) =
    let queued : (queue d cmd).requests ≡ d.requests ++ cmd ∷ [] = ground arith in
    handle_notify_read-requests (queue d cmd) cmds
    ∙ ap (λ x. x ++ cmds) queued
    ∙ append_assoc d.requests (cmd ∷ []) cmds

handle_line-requests :
    (uudecode : Bytes → Option Bytes) (d : Driver) (line following : Bytes)
    → (handle_line uudecode d line following).requests ≡ d.requests
unfolding handle_line handle_data handle_cmd pass_on handle_more enable
handle_line-requests uudecode d line following = ground arith

scan-requests :
    (uudecode : Bytes → Option Bytes) (d : Driver) (line cs : Bytes)
    → (scan uudecode d line cs).requests ≡ d.requests
unfolding scan
scan-requests uudecode d line [] = refl
scan-requests uudecode d line (c ∷ cs) =
    scan-requests uudecode (if c == 10 then handle_line uudecode d line cs else d) _ cs
    ∙ if-both (λ (z : Driver). z.requests ≡ d.requests) (c == 10)
        (handle_line-requests uudecode d line cs) refl

handle_scamper_read-requests :
    (uudecode : Bytes → Option Bytes) (d : Driver) (res : RecvResult)
    → (handle_scamper_read uudecode d res).requests ≡ d.requests
unfolding handle_scamper_read
handle_scamper_read-requests uudecode d (received []) = refl
handle_scamper_read-requests uudecode d (received (c ∷ cs)) =
    scan-requests uudecode d [] (d.read_buf ++ c ∷ cs)
handle_scamper_read-requests uudecode d nothing = refl
handle_scamper_read-requests uudecode d closed = refl
handle_scamper_read-requests uudecode d (RecvResult.failed errno old) =
    if-both (λ (z : Driver). z.requests ≡ d.requests) (errno == 0) refl
      (scan-requests uudecode d [] (d.read_buf ++ held errno old))

pub handle_decode_write-requests :
    (d : Driver) (n : ℕ) → (handle_decode_write d n).requests ≡ d.requests
unfolding handle_decode_write disable
handle_decode_write-requests d n = ground arith

left_over : List Bytes → List Bytes → List Bytes
left_over xs ys = take (length xs - length ys) xs ++ ys

left_over-same : (xs : List Bytes) → left_over xs xs ≡ xs
unfolding left_over
left_over-same xs = let none_left : length xs - length xs ≡ 0 = omega arith in rw none_left refl

left_over-cons : (x : Bytes) (xs : List Bytes) → left_over (x ∷ xs) xs ≡ x ∷ xs
unfolding left_over
left_over-cons x xs =
    let one_left : suc (length xs) - length xs ≡ 1 = omega arith in rw one_left refl

taken_off-append :
    (d : Driver) (res : SendResult) (w : WriteResult)
    → Wrote d res w
    → taken_off d w.driver ++ w.driver.requests ≡ d.requests
unfolding left_over
taken_off-append d res w (unfinished e r) =
    ap (λ (z : Driver). left_over d.requests z.requests) e ∙ left_over-same d.requests
taken_off-append d res w (took_front cmd e m s) =
    ap (λ z. left_over z w.driver.requests) e ∙ left_over-cons cmd w.driver.requests ∙ sym e

-- While no error event comes, requests leave the queue in the order in which they were queued: what
-- was queued is what was taken off the queue as written, followed by what is still waiting.
pub Reach-in_order :
    (uudecode : Bytes → Option Bytes) {d : Driver} {queued finished : List Bytes}
    → Reach uudecode d queued finished
    → queued ≡ finished ++ d.requests
unfolding start
Reach-in_order uudecode here = refl
Reach-in_order uudecode (commands {d = d} {queued = queued} {finished = finished} cmds r) =
    ap (λ x. x ++ cmds) (Reach-in_order uudecode r)
    ∙ append_assoc finished d.requests cmds
    ∙ ap (λ x. finished ++ x) (sym (handle_notify_read-requests d cmds))
Reach-in_order uudecode (decoded {d = d} {finished = finished} n r) =
    Reach-in_order uudecode r ∙ ap (λ x. finished ++ x) (sym (handle_decode_write-requests d n))
Reach-in_order uudecode (readable {d = d} {finished = finished} res h r) =
    Reach-in_order uudecode r
    ∙ ap (λ x. finished ++ x) (sym (handle_scamper_read-requests uudecode d res))
Reach-in_order uudecode (writable {d = d} {finished = finished} res w e q r) =
    let wrote = (on_event d res w (Reach-IsReady uudecode r) e q).1 in
    Reach-in_order uudecode r
    ∙ ap (λ x. finished ++ x) (sym (taken_off-append d res w wrote))
    ∙ sym (append_assoc finished (taken_off d w.driver) w.driver.requests)

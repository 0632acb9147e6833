-- ===== src/Scamper/Driver/Writing.antt =====
-- The write side of the event loop (spoki/libspoki/src/scamper/driver.cpp): what a write event does
-- in the states that the loop reaches.
use spoki.Prelude.{
  ℕ, ◌+◌, ◌-◌, ◌<◌, ◌≡◌, refl, sym, ap, ◌∙◌, Bool, true, false, Option, none, some, List, [], ◌∷◌,
  ◌++◌, arith, ltb, length, take,
}
use mathlib.Core.Option.{some-injective}
use mathlib.Core.Path.{subst}
use spoki.Prelude.Int.{ℤ, pos, negsuc}
use spoki.Scamper.{Bytes}
use spoki.Scamper.Sockets
use spoki.Scamper.Sockets.{SendResult, sent, full, RecvResult, received, nothing, closed}
use spoki.Scamper.Driver.{
  Driver, attach_cmd, start, disable, handle_notify_read, handle_decode_write, complete,
  guard_write, WriteResult, eq_ℤ, write_front, handle_scamper_write,
}
use spoki.Scamper.Driver.Replies.{handle_scamper_read}
use spoki.Scamper.Driver.Interest.{
  IsReady, scanned, start-IsReady, handle_notify_read-IsReady, handle_decode_write-IsReady,
  handle_scamper_read-IsReady, complete-IsReady,
}

-- What a write event may do: leave the requests alone, or finish the front one with a MORE.
pub data Wrote (d : Driver) (res : SendResult) (w : WriteResult) : Type 0 where
  unfinished : w.driver ≡ d → w.report ≡ none → Wrote d res w
  took_front :
      (cmd : Bytes)
      → d.requests ≡ cmd ∷ w.driver.requests
      → w.driver.more + 1 ≡ d.more
      → Sockets.write res ≡ pos (length cmd)
      → Wrote d res w

pub guard_write-idle :
    (d : Driver) (buf : Bytes) (rest : List Bytes)
    → d.requests ≡ buf ∷ rest
    → ltb 0 d.more ≡ true
    → guard_write d ≡ d
unfolding guard_write
guard_write-idle d buf rest e h = ground arith

pub handle_scamper_write-front :
    (d : Driver) (res : SendResult) (buf : Bytes) (rest : List Bytes)
    → d.requests ≡ buf ∷ rest
    → handle_scamper_write d res ≡ some (write_front d res buf rest)
unfolding handle_scamper_write
handle_scamper_write-front d res buf rest e = rw e refl

pub eq_ℤ→≡ : (x : ℤ) (n : ℕ) → eq_ℤ x n ≡ true → x ≡ pos n
eq_ℤ→≡ (pos m) n h = ap pos (ground arith)
eq_ℤ→≡ (negsuc m) n h = ground arith

pub complete-requests : (d : Driver) (rest : List Bytes) → (complete d rest).0.requests ≡ rest
unfolding complete disable
complete-requests d rest = ground arith

complete-more :
    (d : Driver) (rest : List Bytes)
    → ltb 0 d.more ≡ true
    → IsReady d
    → (complete d rest).0.more + 1 ≡ d.more
unfolding complete disable
complete-more d rest h v = ground (arith, v.more_fits)

Done : Driver → SendResult → WriteResult → Type 0
Done d res w = IsReady w.driver × Wrote d res w

write_front-Done :
    (d : Driver) (res : SendResult) (buf : Bytes) (rest : List Bytes)
    → d.requests ≡ buf ∷ rest
    → ltb 0 d.more ≡ true
    → IsReady d
    → (b : Bool) → eq_ℤ (Sockets.write res) (length buf - d.written) ≡ b
    → Done d res (write_front d res buf rest)
unfolding write_front Done
write_front-Done d res buf rest e h v true t =
    rw (t, guard_write-idle d buf rest e h)
      (
        complete-IsReady d buf rest e h v,
        took_front buf (rw (complete-requests d rest, e) refl) (complete-more d rest h v)
            (eq_ℤ→≡ _ _ t ∙ ap pos (omega (arith, v.whole))),
      )
write_front-Done d res buf rest e h v false t =
    rw (t, guard_write-idle d buf rest e h) (v, unfinished refl refl)

pub wants_write-cases :
    (d : Driver)
    → IsReady d
    → d.masks.scamper.epollout ≡ true
    → (buf : Bytes) × (rest : List Bytes) × (d.requests ≡ buf ∷ rest) × (ltb 0 d.more ≡ true)
wants_write-cases d v e = by_requests d.requests refl
  where
    by_requests :
        (rs : List Bytes)
        → d.requests ≡ rs
        → (buf : Bytes) × (rest : List Bytes) × (d.requests ≡ buf ∷ rest) × (ltb 0 d.more ≡ true)
    by_requests [] r = ground (arith, v.wants_write)
    by_requests (buf ∷ rest) r = (buf, rest, r, ground (arith, v.wants_write))

-- A write event on a state that waits for it finds a request at the front. The event either leaves
-- the driver as it was, or `write` reports the length of the request, which leaves the front of the
-- queue for one MORE; the interest in events is right again.
pub handle_scamper_write-on_event :
    (d : Driver) (res : SendResult)
    → IsReady d
    → d.masks.scamper.epollout ≡ true
    → (w : WriteResult) × (handle_scamper_write d res ≡ some w) × IsReady w.driver × Wrote d res w
unfolding Done
handle_scamper_write-on_event d res v e =
    let (buf, rest, r, h) = wants_write-cases d v e in
    let done = write_front-Done d res buf rest r h v _ refl in
    (write_front d res buf rest, handle_scamper_write-front d res buf rest r, done.0, done.1)

-- the requests that an event took off the queue
abbrev pub taken_off : Driver → Driver → List Bytes
taken_off d d' = take (length d.requests - length d'.requests) d.requests

-- The states that the event loop reaches while no event is an error (an error event switches off the
-- interest in its descriptor: see Loop/Errors), with the commands that were queued and those that
-- were taken off the queue as written so far. The code takes `send` at its word: a call that fails
-- with an `errno` equal to the number of bytes that are left takes a request off, too. A write event
-- comes only while the driver asks for it, and `scamper_more_` is assumed to stay inside its word.
pub data Reach (uudecode : Bytes → Option Bytes) : Driver → List Bytes → List Bytes → Type 0 where
  here : Reach uudecode start (attach_cmd ∷ []) []
  commands :
      {d : Driver} {queued finished : List Bytes} (cmds : List Bytes)
      → Reach uudecode d queued finished
      → Reach uudecode (handle_notify_read d cmds) (queued ++ cmds) finished
  decoded :
      {d : Driver} {queued finished : List Bytes} (n : ℕ)
      → Reach uudecode d queued finished
      → Reach uudecode (handle_decode_write d n) queued finished
  readable :
      {d : Driver} {queued finished : List Bytes} (res : RecvResult)
      → d.more + scanned d res < 18446744073709551616
      → Reach uudecode d queued finished
      → Reach uudecode (handle_scamper_read uudecode d res) queued finished
  writable :
      {d : Driver} {queued finished : List Bytes} (res : SendResult) (w : WriteResult)
      → d.masks.scamper.epollout ≡ true
      → handle_scamper_write d res ≡ some w
      → Reach uudecode d queued finished
      → Reach uudecode w.driver queued (finished ++ taken_off d w.driver)

-- what a write event gives, whatever its result is called
pub on_event :
    (d : Driver) (res : SendResult) (w : WriteResult)
    → IsReady d
    → d.masks.scamper.epollout ≡ true
    → handle_scamper_write d res ≡ some w
    → IsReady w.driver × Wrote d res w
on_event d res w v e q =
    let (w', p, r, o) = handle_scamper_write-on_event d res v e in
    subst (λ x. IsReady x.driver × Wrote d res x) (some-injective _ _ (sym p ∙ q)) (r, o)

pub Reach-IsReady :
    (uudecode : Bytes → Option Bytes) {d : Driver} {queued finished : List Bytes}
    → Reach uudecode d queued finished
    → IsReady d
Reach-IsReady uudecode here = start-IsReady
Reach-IsReady uudecode (commands {d = d} cmds r) =
    handle_notify_read-IsReady d cmds (Reach-IsReady uudecode r)
Reach-IsReady uudecode (decoded {d = d} n r) =
    handle_decode_write-IsReady d n (Reach-IsReady uudecode r)
Reach-IsReady uudecode (readable {d = d} res h r) =
    handle_scamper_read-IsReady uudecode d res h (Reach-IsReady uudecode r)
Reach-IsReady uudecode (writable {d = d} res w e q r) =
    (on_event d res w (Reach-IsReady uudecode r) e q).0

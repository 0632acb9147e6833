-- ===== src/Scamper/Driver/Delivery.antt =====
-- What scamper gets of the requests (spoki/libspoki/src/scamper/driver.cpp).
use mathlib.Core.Option.{some-injective}
use mathlib.Core.Path.{subst}
use spoki.Prelude.{
  ℕ, suc, ◌-◌, ◌≡◌, ◌≢◌, refl, sym, ap, ◌∙◌, Bool, true, false, Option, some, List, [], ◌∷◌, ◌++◌,
  arith, append_assoc, append-nil, length, take, drop, ltb,
}
use spoki.Prelude.Int.{pos}
use spoki.Scamper.{Bytes}
use spoki.Scamper.Sockets
use spoki.Scamper.Sockets.{SendResult, sent, full}
use spoki.Scamper.Driver.{
  Driver, WriteResult, taken, write_front, handle_scamper_write, complete, eq_ℤ,
}
use spoki.Scamper.Driver.Interest.{IsReady}
use spoki.Scamper.Driver.Writing.{
  taken_off, Reach, here, commands, decoded, readable, writable, Reach-IsReady, wants_write-cases,
  handle_scamper_write-front, guard_write-idle, complete-requests, eq_ℤ→≡,
}
use spoki.Scamper.Driver.Order.{Reach-in_order}

-- What the calls of `send` do with the queued requests, in order: the requests that come off the queue,
-- and the bytes that scamper gets.
pub data Delivered (queued : List Bytes) : List SendResult → List Bytes → Bytes → Type 0 where
  no_send : Delivered queued [] [] []
  -- a request is taken in one piece
  whole :
      {rs : List SendResult} {fs : List Bytes} {wire : Bytes} (cmd : Bytes)
      → Delivered queued rs fs wire
      → Delivered queued (rs ++ sent (length cmd) ∷ []) (fs ++ cmd ∷ []) (wire ++ cmd)
  -- only a beginning of the next request is taken; it stays where it is, to be sent again
  part :
      {rs : List SendResult} {fs : List Bytes} {wire : Bytes} (n : ℕ) (cmd : Bytes)
      (rest : List Bytes)
      → queued ≡ fs ++ cmd ∷ rest
      → n ≢ length cmd
      → Delivered queued rs fs wire
      → Delivered queued (rs ++ sent n ∷ []) fs (wire ++ take n cmd)
  -- an error is taken for the number of bytes, and the request is lost
  lost :
      {rs : List SendResult} {fs : List Bytes} {wire : Bytes} (cmd : Bytes)
      → Delivered queued rs fs wire
      → Delivered queued (rs ++ SendResult.failed (length cmd) ∷ []) (fs ++ cmd ∷ []) wire
  -- nothing is taken
  failing :
      {rs : List SendResult} {fs : List Bytes} {wire : Bytes} (errno : ℕ) (cmd : Bytes)
      (rest : List Bytes)
      → queued ≡ fs ++ cmd ∷ rest
      → errno ≢ length cmd
      → Delivered queued rs fs wire
      → Delivered queued (rs ++ SendResult.failed errno ∷ []) fs wire
  filled :
      {rs : List SendResult} {fs : List Bytes} {wire : Bytes} (cmd : Bytes) (rest : List Bytes)
      → queued ≡ fs ++ cmd ∷ rest
      → length cmd ≢ 0
      → Delivered queued rs fs wire
      → Delivered queued (rs ++ full ∷ []) fs wire
  -- an empty request needs nothing to be taken (the code only asserts that there is none)
  empty :
      {rs : List SendResult} {fs : List Bytes} {wire : Bytes}
      → Delivered queued rs fs wire
      → Delivered queued (rs ++ full ∷ []) (fs ++ [] ∷ []) wire

longer :
    {queued : List Bytes} (cmds fs : List Bytes) (cmd : Bytes) (rest : List Bytes)
    → queued ≡ fs ++ cmd ∷ rest
    → queued ++ cmds ≡ fs ++ (cmd ∷ (rest ++ cmds))
longer cmds fs cmd rest e = ap (λ x. x ++ cmds) e ∙ append_assoc fs (cmd ∷ rest) cmds

Delivered-more :
    {queued : List Bytes} (cmds : List Bytes) {rs : List SendResult} {fs : List Bytes}
    {wire : Bytes}
    → Delivered queued rs fs wire
    → Delivered (queued ++ cmds) rs fs wire
Delivered-more cmds no_send = no_send
Delivered-more cmds (whole cmd h) = whole cmd (Delivered-more cmds h)
Delivered-more cmds (part {fs = fs} n cmd rest e k h) =
    part n cmd (rest ++ cmds) (longer cmds fs cmd rest e) k (Delivered-more cmds h)
Delivered-more cmds (lost cmd h) = lost cmd (Delivered-more cmds h)
Delivered-more cmds (failing {fs = fs} errno cmd rest e k h) =
    failing errno cmd (rest ++ cmds) (longer cmds fs cmd rest e) k (Delivered-more cmds h)
Delivered-more cmds (filled {fs = fs} cmd rest e k h) =
    filled cmd (rest ++ cmds) (longer cmds fs cmd rest e) k (Delivered-more cmds h)
Delivered-more cmds (empty h) = empty (Delivered-more cmds h)

-- what the calls of `send` in a run return
abbrev pub sends :
    (uudecode : Bytes → Option Bytes) {d : Driver} {queued finished : List Bytes}
    → Reach uudecode d queued finished
    → List SendResult
sends uudecode here = []
sends uudecode (commands cmds r) = sends uudecode r
sends uudecode (decoded n r) = sends uudecode r
sends uudecode (readable res h r) = sends uudecode r
sends uudecode (writable res w e q r) = sends uudecode r ++ res ∷ []

-- the bytes that they take
abbrev pub wires :
    (uudecode : Bytes → Option Bytes) {d : Driver} {queued finished : List Bytes}
    → Reach uudecode d queued finished
    → Bytes
wires uudecode here = []
wires uudecode (commands cmds r) = wires uudecode r
wires uudecode (decoded n r) = wires uudecode r
wires uudecode (readable res h r) = wires uudecode r
wires uudecode (writable res w e q r) = wires uudecode r ++ w.wire

-- the bytes of a request that a call takes
abbrev took : SendResult → Bytes → Bytes
took (sent n) buf = take n buf
took _ buf = []

taken-took :
    (d : Driver) (res : SendResult) (buf : Bytes) → d.written ≡ 0 → taken d buf res ≡ took res buf
taken-took d (sent n) buf e = ap (λ k. take n (drop k buf)) e
taken-took d full buf e = refl
taken-took d (SendResult.failed errno) buf e = refl

take_all : (xs : Bytes) → take (length xs) xs ≡ xs
take_all [] = refl
take_all (x ∷ xs) = ap (◌∷◌ x) (take_all xs)

module _ {queued : List Bytes} {rs : List SendResult} {fs : List Bytes} {wire : Bytes} where
  -- The call reports the length of the request.
  gone :
      (res : SendResult) (buf : Bytes)
      → Sockets.write res ≡ pos (length buf)
      → Delivered queued rs fs wire
      → Delivered queued (rs ++ res ∷ []) (fs ++ buf ∷ []) (wire ++ took res buf)
  gone (sent n) buf e h =
      let same : n ≡ length buf = ground (arith, e) in rw (same, take_all buf) (whole buf h)
  gone full [] e h = subst (Delivered queued _ _) (sym (append-nil wire)) (empty h)
  gone full (c ∷ buf) e h = ground (arith, e)
  gone (SendResult.failed errno) buf e h =
      let same : errno ≡ length buf = ground (arith, e) in rw (same, append-nil wire) (lost buf h)

  -- The call reports something else.
  stays :
      (res : SendResult) (buf : Bytes) (rest : List Bytes)
      → queued ≡ fs ++ buf ∷ rest
      → eq_ℤ (Sockets.write res) (length buf) ≡ false
      → Delivered queued rs fs wire
      → Delivered queued (rs ++ res ∷ []) fs (wire ++ took res buf)
  stays (sent n) buf rest e k h = part n buf rest e (λ x. ground (arith, k, x)) h
  stays full buf rest e k h =
      subst (Delivered queued _ _) (sym (append-nil wire))
        (filled buf rest e (λ x. ground (arith, k, x)) h)
  stays (SendResult.failed errno) buf rest e k h =
      subst (Delivered queued _ _) (sym (append-nil wire))
        (failing errno buf rest e (λ x. ground (arith, k, x)) h)

taken_off-front :
    (d d' : Driver) (buf : Bytes) (rest : List Bytes)
    → d.requests ≡ buf ∷ rest
    → d'.requests ≡ rest
    → taken_off d d' ≡ buf ∷ []
taken_off-front d d' buf rest e f =
    let one_left : suc (length rest) - length rest ≡ 1 = omega arith in rw (e, f, one_left) refl

taken_off-none : (d : Driver) → taken_off d d ≡ []
taken_off-none d =
    let none_left : length d.requests - length d.requests ≡ 0 = omega arith in rw none_left refl

module _ (queued : List Bytes) (rs : List SendResult) (finished : List Bytes) (wire : Bytes) where
  After : Driver → SendResult → WriteResult → Type 0
  After d res w =
      Delivered queued (rs ++ res ∷ []) (finished ++ taken_off d w.driver) (wire ++ w.wire)

  write_front-After :
      (d : Driver) (res : SendResult) (buf : Bytes) (rest : List Bytes)
      → d.requests ≡ buf ∷ rest
      → ltb 0 d.more ≡ true
      → d.written ≡ 0
      → queued ≡ finished ++ buf ∷ rest
      → Delivered queued rs finished wire
      → (b : Bool) → eq_ℤ (Sockets.write res) (length buf - d.written) ≡ b
      → After d res (write_front d res buf rest)
  unfolding write_front After
  write_front-After d res buf rest e h k s p true t =
      rw
        (
          t,
          guard_write-idle d buf rest e h,
          taken_off-front d (complete d rest).0 buf rest e (complete-requests d rest),
          taken-took d res buf k,
        )
        (gone res buf (eq_ℤ→≡ _ _ t ∙ ap pos (omega (arith, k))) p)
  write_front-After d res buf rest e h k s p false t =
      let all_left : length buf - d.written ≡ length buf = omega (arith, k) in
      rw
        (
          t,
          guard_write-idle d buf rest e h,
          taken_off-none d,
          append-nil finished,
          taken-took d res buf k,
        )
        (stays res buf rest s (subst (λ n. eq_ℤ (Sockets.write res) n ≡ false) all_left t) p)

  write-After :
      (d : Driver) (res : SendResult) (w : WriteResult)
      → IsReady d
      → d.masks.scamper.epollout ≡ true
      → handle_scamper_write d res ≡ some w
      → queued ≡ finished ++ d.requests
      → Delivered queued rs finished wire
      → After d res w
  write-After d res w v e q s p =
      let (buf, rest, r, h) = wants_write-cases d v e in
      subst (After d res)
        (some-injective _ _ (sym (handle_scamper_write-front d res buf rest r) ∙ q))
        (write_front-After d res buf rest r h v.whole (s ∙ ap (λ x. finished ++ x) r) p _ refl)

-- While no error event comes, the loop treats the queued requests as `Delivered` says: they come off the
-- queue in the order in which they were queued, the others still wait, and scamper gets each of
-- them in one piece, but for these two cases. When `send` takes only a part, the request is sent
-- again from its beginning, so scamper gets the part, too; and when `send` fails with an `errno` equal
-- to the length of the request, the request comes off the queue, and scamper gets nothing of it.
pub Reach-Delivered :
    (uudecode : Bytes → Option Bytes) {d : Driver} {queued finished : List Bytes}
    (r : Reach uudecode d queued finished)
    → (queued ≡ finished ++ d.requests)
      × Delivered queued (sends uudecode r) finished (wires uudecode r)
unfolding After
Reach-Delivered uudecode r = (Reach-in_order uudecode r, delivered uudecode r)
  where
    delivered :
        (uudecode : Bytes → Option Bytes) {d : Driver} {queued finished : List Bytes}
        (r : Reach uudecode d queued finished)
        → Delivered queued (sends uudecode r) finished (wires uudecode r)
    delivered uudecode here = no_send
    delivered uudecode (commands cmds r) = Delivered-more cmds (delivered uudecode r)
    delivered uudecode (decoded n r) = delivered uudecode r
    delivered uudecode (readable res h r) = delivered uudecode r
    delivered uudecode (writable {d = d} {queued = queued} {finished = finished} res w e q r) =
        write-After queued (sends uudecode r) finished (wires uudecode r) d res w
          (Reach-IsReady uudecode r) e q (Reach-in_order uudecode r) (delivered uudecode r)

-- ===== src/Scamper/Driver/Loop/Stalled.antt =====
-- What an error on the socket to scamper leaves (spoki/libspoki/src/scamper/driver.cpp): the interest
-- in its events is switched off, and `scamper_writing_` is not reset.
use spoki.Prelude.{
  ℕ, ◌≡◌, refl, sym, ap, ◌∙◌, Bool, true, false, Option, some, List, [], ◌∷◌, ◌++◌, arith,
  if◌then◌else◌, append-nil,
}
use spoki.Multiplexing.{Operation}
use spoki.Scamper.{Bytes}
use spoki.Scamper.Driver.{
  Fd, Driver, queue, enable, disable, handle_notify_read, handle_decode_write, Masks, mask_of,
}
use spoki.Scamper.Driver.Order.{handle_notify_read-requests, handle_decode_write-requests}
use spoki.Scamper.Driver.Loop.{
  Event, Wait, events, LoopState, with_driver, callback, cut_off, handle_event,
}

pub record Stalled (d : Driver) : Type 0 where
  pub still_writing : d.writing ≡ true
  pub no_read : d.masks.scamper.epollin ≡ false
  pub no_write : d.masks.scamper.epollout ≡ false

-- epoll reports only what is registered
pub record Registered (d : Driver) (e : Event) : Type 0 where
  pub reads : e.epollin ≡ true → (mask_of e.fd d.masks).epollin ≡ true
  pub writes : e.epollout ≡ true → (mask_of e.fd d.masks).epollout ≡ true

pub data AllRegistered (d : Driver) : List Event → Type 0 where
  no_more : AllRegistered d []
  and_then :
      {e : Event} {es : List Event} → Registered d e → AllRegistered d es → AllRegistered d (e ∷ es)

abbrev pub events_in : Wait → List Event
events_in (events es) = es
events_in _ = []

-- the commands that an event brings: those that wait when the loop is told to read them
abbrev pub brought_by : Fd → List Bytes → List Bytes
brought_by Fd.notify_read cmds = cmds
brought_by _ cmds = []

abbrev pub arriving : Event → List Bytes
arriving e =
    if e.errors
    then []
    else if e.epollin
    then brought_by e.fd e.io.commands
    else if e.epollout
    then brought_by e.fd e.io.commands
    else []

-- what a part of the loop does in a stalled state: it goes on, writes nothing, and queues the commands
-- `cmds`; `done` is whether the loop is done then
unfoldable pub Queues : LoopState → List Bytes → Bool → Option LoopState → Type 0
Queues s cmds done r =
    (t : LoopState) × (r ≡ some t)
    × Stalled t.driver
    × (t.wire ≡ s.wire)
    × (t.done ≡ done)
    × (t.driver.requests ≡ s.driver.requests ++ cmds)

if-Queues :
    (c : Bool) (s : LoopState) (xs ys : List Bytes) (done : Bool) (r r' : Option LoopState)
    → Queues s xs done r
    → Queues s ys done r'
    → Queues s (if c then xs else ys) done (if c then r else r')
if-Queues true s xs ys done r r' k l = k
if-Queues false s xs ys done r r' k l = l

queue-Stalled : (d : Driver) (cmd : Bytes) → Stalled d → Stalled (queue d cmd)
unfolding queue enable
queue-Stalled d cmd v = record {
  still_writing = ground arith;
  no_read = ground arith;
  no_write = ground arith;
}

handle_notify_read-Stalled :
    (d : Driver) (cmds : List Bytes) → Stalled d → Stalled (handle_notify_read d cmds)
unfolding handle_notify_read
handle_notify_read-Stalled d [] v = v
handle_notify_read-Stalled d (cmd ∷ cmds) v =
    handle_notify_read-Stalled (queue d cmd) cmds (queue-Stalled d cmd v)

handle_decode_write-Stalled : (d : Driver) (n : ℕ) → Stalled d → Stalled (handle_decode_write d n)
unfolding handle_decode_write disable
handle_decode_write-Stalled d n v = record {
  still_writing = ground arith;
  no_read = ground arith;
  no_write = ground arith;
}

cut_off-Stalled : (fd : Fd) (d : Driver) → Stalled d → Stalled (cut_off fd d)
unfolding cut_off disable
cut_off-Stalled Fd.notify_read d v = record {
  still_writing = v.still_writing;
  no_read = v.no_read;
  no_write = v.no_write;
}
cut_off-Stalled Fd.decode_write d v = record {
  still_writing = v.still_writing;
  no_read = v.no_read;
  no_write = v.no_write;
}
cut_off-Stalled Fd.decode_read d v = record {
  still_writing = v.still_writing;
  no_read = v.no_read;
  no_write = v.no_write;
}
cut_off-Stalled Fd.scamper d v = record {
  still_writing = v.still_writing;
  no_read = refl;
  no_write = refl;
}

pub same_queue :
    (s : LoopState) (d : Driver)
    → Stalled d
    → d.requests ≡ s.driver.requests
    → Queues s [] s.done (some (with_driver s d))
unfolding Queues
same_queue s d v q = (with_driver s d, refl, v, refl, refl, q ∙ sym (append-nil s.driver.requests))

abbrev pub at_scamper : Fd → Bool
at_scamper Fd.scamper = true
at_scamper _ = false

-- an event of scamper's socket carries neither of the two bits
pub Quiet : Event → Type 0
Quiet e = at_scamper e.fd ≡ true → (e.epollin ≡ false) × (e.epollout ≡ false)

scamper_mask : (fd : Fd) (m : Masks) → at_scamper fd ≡ true → mask_of fd m ≡ m.scamper
scamper_mask Fd.scamper m q = refl
scamper_mask Fd.notify_read m q = ground (arith, q)
scamper_mask Fd.decode_write m q = ground (arith, q)
scamper_mask Fd.decode_read m q = ground (arith, q)

pub Registered-Quiet : (d : Driver) (e : Event) → Stalled d → Registered d e → Quiet e
unfolding Quiet
Registered-Quiet d e v r q =
    let on = ap (λ k. k.epollin) (scamper_mask e.fd d.masks q) in
    let off = ap (λ k. k.epollout) (scamper_mask e.fd d.masks q) in
    (ground (arith, v.no_read, on, r.reads), ground (arith, v.no_write, off, r.writes))

module _ (uudecode : Bytes → Option Bytes) where
  callback-Queues :
      (fd : Fd) (op : Operation) (e : Event) (s : LoopState)
      → at_scamper fd ≡ false
      → Stalled s.driver
      → Queues s (brought_by fd e.io.commands) s.done (callback uudecode fd op e.io s)
  unfolding callback Queues
  callback-Queues Fd.notify_read op e s n v = (
    with_driver s (handle_notify_read s.driver e.io.commands),
    refl,
    handle_notify_read-Stalled s.driver e.io.commands v,
    refl,
    refl,
    handle_notify_read-requests s.driver e.io.commands,
  )
  callback-Queues Fd.decode_write op e s n v =
      same_queue s (handle_decode_write s.driver e.io.passed)
        (handle_decode_write-Stalled s.driver e.io.passed v)
        (handle_decode_write-requests s.driver e.io.passed)
  callback-Queues Fd.decode_read op e s n v = same_queue s s.driver v refl
  callback-Queues Fd.scamper op e s n v = absurd (ground (arith, n))

  cut_off-requests : (fd : Fd) (d : Driver) → (cut_off fd d).requests ≡ d.requests
  unfolding cut_off disable
  cut_off-requests fd d = refl

  pub handle_event-Queues :
      (e : Event) (s : LoopState)
      → Quiet e
      → Stalled s.driver
      → (b : Bool) → at_scamper e.fd ≡ b
      → Queues s (arriving e) s.done (handle_event uudecode e s)
  unfolding handle_event Quiet
  handle_event-Queues e s k v b q =
      if-Queues e.errors s _ _ s.done _ _
        (same_queue s (cut_off e.fd s.driver) (cut_off-Stalled e.fd s.driver v)
          (cut_off-requests e.fd s.driver))
        (by_socket b q)
    where
      by_socket :
          (b : Bool)
          → at_scamper e.fd ≡ b
          → Queues s
              (if e.epollin
                then brought_by e.fd e.io.commands
                else if e.epollout
                then brought_by e.fd e.io.commands
                else [])
              s.done
              (if e.epollin
                then callback uudecode e.fd Operation.read e.io s
                else if e.epollout
                then callback uudecode e.fd Operation.write e.io s
                else some s)
      by_socket true q = rw ((k q).0, (k q).1) (same_queue s s.driver v refl)
      by_socket false q =
          if-Queues e.epollin s _ _ s.done _ _ (callback-Queues e.fd Operation.read e s q v) (
            if-Queues e.epollout s _ _ s.done _ _ (callback-Queues e.fd Operation.write e s q v)
              (same_queue s s.driver v refl))

-- ===== src/Scamper/Driver/Loop/Guarded.antt =====
-- A round of the loop in a state that is ready for it (spoki/libspoki/src/scamper/driver.cpp): the
-- events of the other sockets leave alone what the event of the socket to scamper needs.
use spoki.Prelude.{◌+◌, ◌<◌, ◌≡◌, true, false, Option, some, List, [], ◌∷◌}
use spoki.Scamper.Driver.{Fd, Driver}
use spoki.Scamper.Driver.Interest.{IsReady, scanned}
use spoki.Scamper.Driver.Loop.{Event, LoopState}

-- what a write event of the socket to scamper relies on
record Kept (d d' : Driver) : Type 0 where
  same_more : d'.more ≡ d.more
  same_buf : d'.read_buf ≡ d.read_buf
  still_on : d.masks.scamper.epollout ≡ true → d'.masks.scamper.epollout ≡ true

-- an event of another socket, without an error
pub data Aside (e : Event) : Type 0 where
  on_notify_read : e.errors ≡ false → e.fd ≡ Fd.notify_read → Aside e
  on_decode_write : e.errors ≡ false → e.fd ≡ Fd.decode_write → Aside e
  on_decode_read : e.errors ≡ false → e.fd ≡ Fd.decode_read → Aside e

pub data AllAside : List Event → Type 0 where
  no_more : AllAside []
  and_then : {e : Event} {es : List Event} → Aside e → AllAside es → AllAside (e ∷ es)

Passes : LoopState → Option LoopState → Type 0
Passes s r = (t : LoopState) × (r ≡ some t) × IsReady t.driver × Kept s.driver t.driver

-- what a round needs of the event of the socket to scamper: epoll reports what is registered, and
-- the MOREs stay in their word
pub record Fits (d : Driver) (e : Event) : Type 0 where
  pub no_errors : e.errors ≡ false
  pub at_scamper : e.fd ≡ Fd.scamper
  pub registered : e.epollout ≡ true → d.masks.scamper.epollout ≡ true
  pub in_word : d.more + scanned d e.io.recv < 18446744073709551616

pub IsServed : Option LoopState → Type 0
IsServed r = (t : LoopState) × (r ≡ some t) × IsReady t.driver

-- ===== src/Scamper/Driver/Loop.antt =====
-- The loop of `run` with the epoll backend, and the callbacks that `start` sets
-- (spoki/libspoki/src/scamper/driver.cpp), over what `epoll_wait` returns.
pub mod Guarded
pub mod Stalled
pub mod Errors
mod Tests
use spoki.Prelude.{
  ℕ, ◌≡◌, refl, Bool, true, false, ◌||◌, Option, none, some, List, [], ◌∷◌, ◌++◌, if◌then◌else◌,
}
use spoki.Multiplexing.{Operation}
use spoki.Scamper.{Bytes}
use spoki.Scamper.Sockets.{SendResult, RecvResult}
use spoki.Scamper.Driver.{
  Fd, Driver, disable, handle_notify_read, handle_decode_write, WriteResult, handle_scamper_write,
}
use spoki.Scamper.Driver.Replies.{handle_scamper_read}

-- what the handler of an event gets: the commands that wait for it, the bytes that the decoder's
-- socket takes, and what `recv` and `send` return
pub record Io : Type 0 where
  pub commands : List Bytes
  pub passed : ℕ
  pub recv : RecvResult
  pub send : SendResult

-- an entry of `pollset`; `errors` is whether one of the bits `epoll_errors` is set
pub record Event : Type 0 where
  pub fd : Fd
  pub errors : Bool
  pub epollin : Bool
  pub epollout : Bool
  pub io : Io

-- what `epoll_wait` returns: EINTR, another error, or events
pub data Wait : Type 0 where
  interrupted : Wait
  failed : Wait
  events : List Event → Wait

-- the loop's state, the bytes that the socket to scamper took, and the batches that were reported
pub record LoopState : Type 0 where
  pub driver : Driver
  pub done : Bool
  pub wire : Bytes
  pub reports : List (ℕ × ℕ)

abbrev pub with_driver : LoopState → Driver → LoopState
with_driver s d = record s { driver = d }

abbrev report_list : Option (ℕ × ℕ) → List (ℕ × ℕ)
report_list none = []
report_list (some r) = r ∷ []

abbrev wrote : LoopState → WriteResult → LoopState
wrote s w = record (with_driver s w.driver) {
  wire = s.wire ++ w.wire;
  reports = s.reports ++ report_list w.report;
}

-- The callbacks, without their assertions; `none` is a `front` of an empty deque. Reading a decoded
-- result does not change the driver.
unfoldable pub callback :
    (Bytes → Option Bytes) → Fd → Operation → Io → LoopState → Option LoopState
unfolding handle_notify_read handle_decode_write handle_scamper_read handle_scamper_write
callback uudecode Fd.notify_read op io s =
    some (with_driver s (handle_notify_read s.driver io.commands))
callback uudecode Fd.decode_write op io s =
    some (with_driver s (handle_decode_write s.driver io.passed))
callback uudecode Fd.decode_read op io s = some s
callback uudecode Fd.scamper Operation.read io s =
    some (with_driver s (handle_scamper_read uudecode s.driver io.recv))
callback uudecode Fd.scamper Operation.write io s = elim (handle_scamper_write s.driver io.send) [
  | none ↦ none
  | some w ↦ some (wrote s w)
]

-- a socket with an error is not waited for any more
unfoldable pub cut_off : Fd → Driver → Driver
unfolding disable
cut_off fd d = disable fd Operation.write (disable fd Operation.read d)

unfoldable pub handle_event : (Bytes → Option Bytes) → Event → LoopState → Option LoopState
unfolding callback cut_off
handle_event uudecode e s =
    if e.errors
    then some (with_driver s (cut_off e.fd s.driver))
    else if e.epollin
    then callback uudecode e.fd Operation.read e.io s
    else if e.epollout
    then callback uudecode e.fd Operation.write e.io s
    else some s

-- all the events of one `epoll_wait`
unfoldable pub handle_events : (Bytes → Option Bytes) → List Event → LoopState → Option LoopState
unfolding handle_event
handle_events uudecode [] s = some s
handle_events uudecode (e ∷ es) s = elim (handle_event uudecode e s) [
  | none ↦ none
  | some t ↦ handle_events uudecode es t
]

pub handle_events-cons :
    (uudecode : Bytes → Option Bytes) (e : Event) (es : List Event) (s t : LoopState)
    → handle_event uudecode e s ≡ some t
    → handle_events uudecode (e ∷ es) s ≡ handle_events uudecode es t
unfolding handle_events
handle_events-cons uudecode e es s t p = rw (p, handle_events) refl

-- one round of the loop
unfoldable pub loop_round : (Bytes → Option Bytes) → Wait → LoopState → Option LoopState
unfolding handle_events
loop_round uudecode interrupted s = some s
loop_round uudecode failed s = some (record s { done = true })
loop_round uudecode (events es) s = handle_events uudecode es s

-- The loop: before each round its condition is read, which `stop` of another thread may have set.
unfoldable pub loop : (Bytes → Option Bytes) → List (Bool × Wait) → LoopState → Option LoopState
unfolding loop_round
loop uudecode [] s = some s
loop uudecode ((stopped, w) ∷ ws) s =
    let told = record s { done = s.done || stopped } in
    let rest : Option LoopState = elim (loop_round uudecode w told) [
      | none ↦ none
      | some t ↦ loop uudecode ws t
    ] in
    if told.done then some told else rest

-- `run`, which begins by forgetting an earlier `stop`
unfoldable pub run : (Bytes → Option Bytes) → List (Bool × Wait) → LoopState → Option LoopState
unfolding loop
run uudecode ws s = loop uudecode ws (record s { done = false })

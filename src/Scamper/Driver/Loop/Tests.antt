-- ===== src/Scamper/Driver/Loop/Tests.antt =====
-- Rounds of the loop at concrete events, and the loop's theorems at them.
use spoki.Prelude.{◌≡◌, refl, arith, Bool, Option, some, List, [], ◌∷◌, true, false}
use spoki.Scamper.{Bytes}
use spoki.Scamper.Sockets.{sent, nothing}
use spoki.Scamper.Driver.{Fd, Driver, start, queue, enable, disable, handle_notify_read}
use spoki.Scamper.Driver.Loop.{
  Event, Wait, interrupted, events, LoopState, cut_off, handle_event, loop, run,
}
use spoki.Scamper.Driver.Loop.Guarded.{no_more, and_then}
use spoki.Scamper.Driver.Loop.Errors.{
  Leaves, arriving_in, Possible, no_rounds, then_round, broken, loop-Stalled,
}
use spoki.Scamper.Driver.Loop.Stalled

-- a stand-in for the decoder
abbrev plain : Bytes → Option Bytes
plain cs = some cs

abbrev ping_cmd : Bytes
ping_cmd = b'p' ∷ b'i' ∷ b'n' ∷ b'g' ∷ 10 ∷ []

abbrev state : Driver → LoopState
state d = record { driver = d; done = false; wire = []; reports = [] }

abbrev command : Event
command = record {
  fd = Fd.notify_read;
  errors = false;
  epollin = true;
  epollout = false;
  io = record { commands = ping_cmd ∷ []; passed = 0; recv = nothing; send = sent 0 };
}

-- the socket takes the seven bytes of attach
abbrev writable : Event
writable = record {
  fd = Fd.scamper;
  errors = false;
  epollin = false;
  epollout = true;
  io = record { commands = []; passed = 0; recv = nothing; send = sent 7 };
}

abbrev broke : Event
broke = record writable { errors = true }

abbrev asked : Driver
asked = handle_notify_read start (ping_cmd ∷ [])

abbrev later : List (Bool × Wait)
later = (false, events (command ∷ [])) ∷ (true, interrupted) ∷ []

later-Possible : Possible plain (broken (state asked)) later
unfolding handle_notify_read start cut_off disable queue enable
later-Possible =
    then_round
      (Stalled.and_then (record { reads = λ q. refl; writes = λ q. ground (arith, q) })
        Stalled.no_more)
      (λ t p. then_round Stalled.no_more (λ t' p'. no_rounds))

asked-writes : asked.writing ≡ true
unfolding handle_notify_read start
asked-writes = refl

loop-Stalled_example :
    (handle_event plain broke (state asked) ≡ some (broken (state asked)))
    × Leaves (broken (state asked)) (ping_cmd ∷ []) (loop plain later (broken (state asked)))
unfolding arriving_in
loop-Stalled_example =
    loop-Stalled plain (state asked) broke later refl refl asked-writes later-Possible

-- stop before the first round
stopped :
    run plain ((true, interrupted) ∷ []) (state start) ≡ some (record (state start) { done = true })
unfolding run
stopped = refl

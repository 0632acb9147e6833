-- ===== src/Scamper/Driver/Loop/Errors.antt =====
-- The loop after an error on the socket to scamper (spoki/libspoki/src/scamper/driver.cpp): what it does
-- in the rounds that follow.
use spoki.Prelude.{
  ◌≡◌, refl, sym, ap, ◌∙◌, Bool, true, false, ◌||◌, Option, some, List, [], ◌∷◌, ◌++◌,
  if◌then◌else◌, append_assoc, append-nil,
}
use mathlib.Core.Path.{subst}
use spoki.Scamper.{Bytes}
use spoki.Scamper.Driver.{Fd, Driver, disable}
use spoki.Scamper.Driver.Loop.{
  Event, Wait, interrupted, failed, events, LoopState, with_driver, cut_off, handle_event,
  handle_events, handle_events-cons, loop_round, loop,
}
use spoki.Scamper.Driver.Loop.Stalled.{
  Stalled, AllRegistered, no_more, and_then, events_in, arriving, Queues, Registered-Quiet,
  same_queue, handle_event-Queues,
}

Queues-trans :
    (s t : LoopState) (xs ys : List Bytes) (done : Bool) (r : Option LoopState)
    → t.wire ≡ s.wire
    → t.driver.requests ≡ s.driver.requests ++ xs
    → Queues t ys done r
    → Queues s (xs ++ ys) done r
unfolding Queues
Queues-trans s t xs ys done r w q (u, p, v, w', e, q') =
    (u, p, v, w' ∙ w, e, q' ∙ ap (λ x. x ++ ys) q ∙ append_assoc s.driver.requests xs ys)

unfoldable pub arriving_all : List Event → List Bytes
arriving_all [] = []
arriving_all (e ∷ es) = arriving e ++ arriving_all es

abbrev ends : Wait → Bool → Bool
ends failed done = true
ends _ done = done

module _ (uudecode : Bytes → Option Bytes) where
  handle_events-Queues :
      (d : Driver) (es : List Event) (s : LoopState)
      → AllRegistered d es
      → Stalled d
      → Stalled s.driver
      → Queues s (arriving_all es) s.done (handle_events uudecode es s)
  unfolding handle_events Queues arriving_all
  handle_events-Queues d [] s no_more v w = same_queue s s.driver w refl
  handle_events-Queues d (e ∷ es) s (and_then r rest) v w =
      let (t, p, x, same, k, q) =
        handle_event-Queues uudecode e s (Registered-Quiet d e v r) w _ refl in
      let later =
        subst (λ c. Queues t (arriving_all es) c (handle_events uudecode es t)) k
          (handle_events-Queues d es t rest v x) in
      subst (Queues s (arriving e ++ arriving_all es) s.done)
        (sym (handle_events-cons uudecode e es s t p))
        (Queues-trans s t (arriving e) (arriving_all es) s.done _ same q later)

  loop_round-Queues :
      (w : Wait) (s : LoopState)
      → AllRegistered s.driver (events_in w)
      → Stalled s.driver
      → Queues s (arriving_all (events_in w)) (ends w s.done) (loop_round uudecode w s)
  unfolding loop_round Queues arriving_all
  loop_round-Queues interrupted s r v = same_queue s s.driver v refl
  loop_round-Queues failed s r v =
      (record s { done = true }, refl, v, refl, refl, sym (append-nil s.driver.requests))
  loop_round-Queues (events es) s r v = handle_events-Queues s.driver es s r v v

-- the loop's state where its condition is read
abbrev pub told : LoopState → Bool → LoopState
told s stopped = record s { done = s.done || stopped }

-- what epoll may return in each round of the loop
pub data Possible (uudecode : Bytes → Option Bytes) : LoopState → List (Bool × Wait) → Type 0 where
  no_rounds : {s : LoopState} → Possible uudecode s []
  then_round :
      {s : LoopState} {stopped : Bool} {w : Wait} {ws : List (Bool × Wait)}
      → AllRegistered s.driver (events_in w)
      → ((t : LoopState) → loop_round uudecode w (told s stopped) ≡ some t → Possible uudecode t ws)
      → Possible uudecode s ((stopped, w) ∷ ws)

-- the commands that arrive in the rounds that the loop makes, before it is stopped or a wait fails
unfoldable pub arriving_in : Bool → List (Bool × Wait) → List Bytes
unfolding arriving_all
arriving_in done [] = []
arriving_in done ((stopped, w) ∷ ws) =
    let over = done || stopped in
    let rest = arriving_all (events_in w) ++ arriving_in (ends w over) ws in
    if over then [] else rest

-- what the loop leaves: a stalled driver, not one byte more on the wire, and all commands in the queue
unfoldable pub Leaves : LoopState → List Bytes → Option LoopState → Type 0
Leaves s cmds r =
    (t : LoopState) × (r ≡ some t)
    × Stalled t.driver
    × (t.wire ≡ s.wire)
    × (t.driver.requests ≡ s.driver.requests ++ cmds)

Leaves-trans :
    (s t : LoopState) (xs ys : List Bytes) (r : Option LoopState)
    → t.wire ≡ s.wire
    → t.driver.requests ≡ s.driver.requests ++ xs
    → Leaves t ys r
    → Leaves s (xs ++ ys) r
unfolding Leaves
Leaves-trans s t xs ys r w q (u, p, v, w', q') =
    (u, p, v, w' ∙ w, q' ∙ ap (λ x. x ++ ys) q ∙ append_assoc s.driver.requests xs ys)

if-Leaves :
    (c : Bool) (s : LoopState) (ys : List Bytes) (r r' : Option LoopState)
    → Leaves s [] r
    → Leaves s ys r'
    → Leaves s (if c then [] else ys) (if c then r else r')
if-Leaves true s ys r r' k l = k
if-Leaves false s ys r r' k l = l

loop-Leaves :
    (uudecode : Bytes → Option Bytes) (s : LoopState) (ws : List (Bool × Wait))
    → Possible uudecode s ws
    → Stalled s.driver
    → Leaves s (arriving_in s.done ws) (loop uudecode ws s)
unfolding loop Leaves Queues arriving_in
loop-Leaves uudecode s [] no_rounds v = (s, refl, v, refl, sym (append-nil s.driver.requests))
loop-Leaves uudecode s ((stopped, w) ∷ ws) (then_round r next) v =
    let (t, p, x, same, k, q) = loop_round-Queues uudecode w (told s stopped) r v in
    let xs = arriving_all (events_in w) in
    let later =
      subst (λ c. Leaves t (arriving_in c ws) (loop uudecode ws t)) k
        (loop-Leaves uudecode t ws (next t p) x) in
    if-Leaves (s.done || stopped) s _ _ _
      (told s stopped, refl, v, refl, sym (append-nil s.driver.requests))
      (rw p (Leaves-trans s t xs _ _ same q later))

abbrev pub broken : LoopState → LoopState
broken s = with_driver s (cut_off Fd.scamper s.driver)

-- An error on the socket to scamper, while `scamper_writing_` is set, stalls the driver for good. Whatever
-- epoll returns from then on of what is registered, the loop goes on until it is stopped or `epoll_wait`
-- fails, does not write one more byte, and leaves all the commands that it is told of, in their order,
-- behind those in the queue, which stay there too.
pub loop-Stalled :
    (uudecode : Bytes → Option Bytes) (s : LoopState) (e : Event) (ws : List (Bool × Wait))
    → e.fd ≡ Fd.scamper
    → e.errors ≡ true
    → s.driver.writing ≡ true
    → Possible uudecode (broken s) ws
    → (handle_event uudecode e s ≡ some (broken s))
      × Leaves (broken s) (arriving_in s.done ws) (loop uudecode ws (broken s))
unfolding handle_event cut_off disable
loop-Stalled uudecode s e ws q h v possible = (
  rw (h, q) refl,
  loop-Leaves uudecode (broken s) ws possible
      (record { still_writing = v; no_read = refl; no_write = refl }),
)

-- ===== src/Scamper/Broker/Queueing.antt =====
-- What becomes of the requests that the broker is given (spoki/libspoki/src/scamper/broker.cpp).
use spoki.Prelude.{
  ℕ, zero, suc, ◌+◌, ◌≡◌, refl, ap, ◌∙◌, sym, true, false, Option, none, some, List, [], ◌∷◌, ◌++◌,
  map, arith, ltb, ◌==◌, if◌then◌else◌, if-both, drop, append-nil, append_assoc,
}
use spoki.Prelude.Eq.{nat_has_eq}
use spoki.Prelude.Assoc.{find, has}
use spoki.Net.{Address}
use spoki.Probe.{Request}
use spoki.Scamper.{Bytes}
use spoki.Scamper.Text.{strtoul}
use spoki.Scamper.Records.{Reply}
use spoki.Scamper.Broker.{
  BrokerState, Effect, Turn, broker, next_request, send_request, send_loop, send_requests,
}
use spoki.Scamper.Broker.Lines.{
  head_of, handle_more, handle_reply, handle_data, handle_line, scan, new_data, with_instance,
  instance_of,
}
use spoki.Scamper.Broker.Actor.{
  Message, connect, reconnect, connection_closed, new_data_msg, probed, request, stats, done,
  handle_connect, handle_reconnect, handle_closed, handle_probed, send_all, handle_request,
  handle_stats, handle, handle_all,
}

-- the requests among the messages
abbrev pub requests_of : List Message → List Request
requests_of [] = []
requests_of (request req ∷ ms) = req ∷ requests_of ms
requests_of (m ∷ ms) = requests_of ms

-- the replies that are passed on to the actor that asked
abbrev pub forwarded : List Effect → ℕ
forwarded [] = 0
forwarded (Effect.forward shard userid method ∷ es) = suc (forwarded es)
forwarded (e ∷ es) = forwarded es

forwarded-append : (xs ys : List Effect) → forwarded (xs ++ ys) ≡ forwarded xs + forwarded ys
forwarded-append [] ys = omega arith
forwarded-append (Effect.forward shard userid method ∷ xs) ys =
    omega (arith, forwarded-append xs ys)
forwarded-append (x ∷ xs) ys = forwarded-append xs ys

-- nobody waits, these requests are queued, and nothing was passed on
record Idle (reqs : List Request) (s : BrokerState) (out : List Effect) : Type 0 where
  nobody : s.in_progress ≡ []
  queued : s.request_queue ≡ reqs
  kept : forwarded out ≡ 0

append-Idle :
    (reqs : List Request) {s s' : BrokerState} (xs ys : List Effect)
    → Idle reqs s xs
    → Idle reqs s' ys
    → Idle reqs s' (xs ++ ys)
append-Idle reqs xs ys v w = record {
  nobody = w.nobody;
  queued = w.queued;
  kept = omega (arith, v.kept, w.kept, forwarded-append xs ys);
}

-- the same state, or one that differs elsewhere, before anything else is done
same-Idle :
    (reqs : List Request) {s : BrokerState} {out : List Effect} (s' : BrokerState)
    (out' : List Effect)
    → s'.in_progress ≡ s.in_progress
    → s'.request_queue ≡ s.request_queue
    → forwarded out' ≡ 0
    → Idle reqs s out
    → Idle reqs s' out'
same-Idle reqs s' out' p q k v = record { nobody = p ∙ v.nobody; queued = q ∙ v.queued; kept = k }

-- a turn, by its state and what it did
record IdleTurn (reqs : List Request) (t : Turn) : Type 0 where
  idle : Idle reqs t.s t.out

module _ (print : Address → Bytes) (reqs : List Request) where
  send_loop-Idle :
      (hdl n : ℕ) (s : BrokerState)
      → Idle reqs s []
      → let q = send_loop print hdl n s in Idle reqs q.0 q.1
  unfolding send_loop send_request next_request
  send_loop-Idle hdl zero s v = v
  send_loop-Idle hdl (suc n) s v =
      let once = send_request print hdl s in
      let rest =
        send_loop-Idle hdl n once.0
          (record { nobody = v.nobody; queued = v.queued; kept = refl }) in
      record { nobody = rest.nobody; queued = rest.queued; kept = rest.kept }

  send_requests-Idle :
      (hdl : ℕ) (t : Turn) → IdleTurn reqs t → IdleTurn reqs (send_requests print hdl t)
  unfolding send_requests
  send_requests-Idle hdl t v = record {
    idle =
        append-Idle reqs t.out _ v.idle
          (send_loop-Idle hdl t.si.more t.s (same-Idle reqs t.s [] refl refl refl v.idle));
  }

  handle_more-Idle :
      (hdl : ℕ) (t : Turn) → IdleTurn reqs t → IdleTurn reqs (handle_more print hdl t)
  unfolding handle_more
  handle_more-Idle hdl t v =
      send_requests-Idle hdl _
        (record { idle = same-Idle reqs _ t.out refl refl v.idle.kept v.idle })

  handle_reply-Idle :
      (hdl : ℕ) (t : Turn) (line following : Bytes)
      → IdleTurn reqs t
      → IdleTurn reqs (handle_reply print hdl t line following)
  unfolding handle_reply
  handle_reply-Idle hdl t line following v =
      let res = strtoul (drop 5 (line ++ 0 ∷ following)) in
      let announced : IdleTurn reqs (record t { si = record t.si { data_left = res } }) = record {
        idle = v.idle;
      } in
      if-both (IdleTurn reqs) (head_of line == b'M') (handle_more-Idle hdl t v) (
        if-both (IdleTurn reqs) (head_of line == b'D')
          (if-both (IdleTurn reqs) (res == 0) v announced) v)

handle_data-Idle :
    (uudecode : Bytes → Option Bytes) (reqs : List Request) (hdl : ℕ) (t : Turn) (line : Bytes)
    → IdleTurn reqs t
    → IdleTurn reqs (handle_data uudecode hdl t line)
unfolding handle_data
handle_data-Idle uudecode reqs hdl t line v = decoded (uudecode line) refl
  where
    decoded :
        (o : Option Bytes) → uudecode line ≡ o → IdleTurn reqs (handle_data uudecode hdl t line)
    decoded none e = rw (e, handle_data) v
    decoded (some []) e =
        rw (e, handle_data)
          (record {
            idle = append-Idle reqs t.out [] v.idle (same-Idle reqs t.s [] refl refl refl v.idle);
          })
    decoded (some (b ∷ bs)) e =
        rw (e, handle_data)
          (record {
            idle =
                append-Idle reqs t.out (Effect.decode hdl (b ∷ bs) ∷ []) v.idle
                  (same-Idle reqs t.s _ refl refl refl v.idle);
          })

module _ (print : Address → Bytes) (uudecode : Bytes → Option Bytes) (reqs : List Request) where
  scan-Idle :
      (hdl : ℕ) (t : Turn) (line cs : Bytes)
      → IdleTurn reqs t
      → IdleTurn reqs (scan print uudecode hdl t line cs)
  unfolding scan handle_line
  scan-Idle hdl t line [] v = record { idle = v.idle }
  scan-Idle hdl t line (c ∷ cs) v =
      scan-Idle hdl (if c == 10 then handle_line print uudecode hdl t line cs else t)
        (if c == 10 then [] else line ++ c ∷ []) cs
        (if-both (IdleTurn reqs) (c == 10)
          (if-both (IdleTurn reqs) (ltb 0 t.si.data_left)
            (handle_data-Idle uudecode reqs hdl t line v)
            (handle_reply-Idle print reqs hdl t line cs v))
          v)

-- the state and the effects of a handler that began idle
abbrev IdleAfter : List Request → BrokerState × List Effect → Type 0
IdleAfter reqs q = Idle reqs q.0 q.1

module _ (print : Address → Bytes) (reqs : List Request) where
  send_all-Idle :
      (hdls : List ℕ) (s : BrokerState) → Idle reqs s [] → IdleAfter reqs (send_all print hdls s)
  unfolding send_all
  send_all-Idle [] s v = v
  send_all-Idle (hdl ∷ hdls) s v =
      let once = with_instance hdl (send_requests print hdl) s in
      let t : Turn = record { si = instance_of hdl s; s = s; out = [] } in
      let first = (send_requests-Idle print reqs hdl t (record { idle = v })).idle in
      let here : Idle reqs once.0 once.1 = same-Idle reqs _ _ refl refl first.kept first in
      append-Idle reqs once.1 _ here
        (send_all-Idle hdls once.0 (same-Idle reqs once.0 [] refl refl refl here))

closed-kept : (hdls : List ℕ) → forwarded (map Effect.close hdls ++ Effect.quit ∷ []) ≡ 0
closed-kept [] = refl
closed-kept (h ∷ hs) = closed-kept hs

quiet :
    (reqs : List Request) {s : BrokerState} {out : List Effect} (q : BrokerState × List Effect)
    → q.0.in_progress ≡ s.in_progress
    → q.0.request_queue ≡ s.request_queue
    → forwarded q.1 ≡ 0
    → Idle reqs s out
    → IdleAfter (reqs ++ []) q
quiet reqs q a b c v = rw (append-nil reqs) (same-Idle reqs q.0 q.1 a b c v)

-- a reply that nobody waits for is collected only
handle_probed-idle :
    (rep : Reply) (s : BrokerState)
    → s.in_progress ≡ []
    → handle_probed rep s ≡ (s, Effect.collect rep ∷ [])
unfolding handle_probed find
handle_probed-idle rep s e =
    let missing : find rep.userid s.in_progress ≡ none = rw e refl in
    rw (handle_probed, missing) refl

abbrev request_in : Message → List Request
request_in (request req) = req ∷ []
request_in m = []

requests_of-cons :
    (m : Message) (ms : List Message) → requests_of (m ∷ ms) ≡ request_in m ++ requests_of ms
requests_of-cons (request req) ms = refl
requests_of-cons m ms = refl

module _ (print : Address → Bytes) (uudecode : Bytes → Option Bytes) where
  handle-Idle :
      (m : Message) (reqs : List Request) (s : BrokerState)
      → Idle reqs s []
      → IdleAfter (reqs ++ request_in m) (handle print uudecode m s)
  unfolding handle handle_connect handle_reconnect handle_closed new_data handle_request
      handle_stats find has
  handle-Idle (connect host port true (some conn)) reqs s v =
      quiet reqs (handle print uudecode (connect host port true (some conn)) s) refl refl refl v
  handle-Idle (connect host port true none) reqs s v =
      quiet reqs (handle print uudecode (connect host port true none) s) refl refl refl v
  handle-Idle (connect host port false econn) reqs s v =
      quiet reqs (handle print uudecode (connect host port false econn) s) refl refl refl v
  handle-Idle (reconnect host port none decoder) reqs s v =
      quiet reqs (handle print uudecode (reconnect host port none decoder) s) refl refl refl v
  handle-Idle (reconnect host port (some conn) false) reqs s v =
      quiet reqs (handle print uudecode (reconnect host port (some conn) false) s) refl refl refl v
  handle-Idle (reconnect host port (some conn) true) reqs s v =
      quiet reqs (handle print uudecode (reconnect host port (some conn) true) s) refl refl refl v
  handle-Idle (connection_closed hdl) reqs s v =
      quiet reqs (handle print uudecode (connection_closed hdl) s) refl refl refl v
  handle-Idle (new_data_msg hdl bytes) reqs s v =
      let t : Turn = record { si = instance_of hdl s; s = s; out = [] } in
      let w =
        (scan-Idle print uudecode reqs hdl t [] (t.si.buf ++ bytes) (record { idle = v })).idle in
      quiet reqs (handle print uudecode (new_data_msg hdl bytes) s) refl refl w.kept w
  handle-Idle (probed rep) reqs s v =
      rw (append-nil reqs, handle_probed-idle rep s v.nobody)
        (same-Idle reqs s (Effect.collect rep ∷ []) refl refl refl v)
  handle-Idle (request req) reqs s v =
      let new : has req.user_id s.in_progress ≡ false = rw v.nobody refl in
      rw new (
        send_all-Idle print (reqs ++ req ∷ []) s.handles _
          (record { nobody = v.nobody; queued = ap (λ z. z ++ req ∷ []) v.queued; kept = refl }))
  handle-Idle stats reqs s v = quiet reqs (handle print uudecode stats s) refl refl refl v
  handle-Idle done reqs s v =
      quiet reqs (handle print uudecode done s) refl refl (closed-kept s.handles) v

  handle_all-Idle :
      (ms : List Message) (reqs : List Request) (s : BrokerState)
      → Idle reqs s []
      → IdleAfter (reqs ++ requests_of ms) (handle_all print uudecode ms s)
  unfolding handle_all
  handle_all-Idle [] reqs s v = rw (append-nil reqs) v
  handle_all-Idle (m ∷ ms) reqs s v =
      let once = handle print uudecode m s in
      let first = handle-Idle m reqs s v in
      let rest =
        handle_all-Idle ms (reqs ++ request_in m) once.0
          (same-Idle (reqs ++ request_in m) once.0 [] refl refl refl first) in
      let all =
        append_assoc reqs (request_in m) (requests_of ms)
        ∙ ap (λ z. reqs ++ z) (sym (requests_of-cons m ms)) in
      record {
        nobody = rest.nobody;
        queued = rest.queued ∙ all;
        kept = omega (
          arith,
          first.kept,
          rest.kept,
          forwarded-append once.1 (handle_all print uudecode ms once.0).1,
        );
      }

  -- Whatever messages come, the broker queues every request that it is given, in order, and never takes
  -- one out; it waits for no user id, so no reply is passed on to the actor that asked.
  pub handle_all-unserved :
      (ms : List Message)
      → let q = handle_all print uudecode ms broker in
        (q.0.request_queue ≡ requests_of ms) × (q.0.in_progress ≡ []) × (forwarded q.1 ≡ 0)
  handle_all-unserved ms =
      let v =
        handle_all-Idle ms [] broker
          (unfold broker in record { nobody = refl; queued = refl; kept = refl }) in
      (v.queued, v.nobody, v.kept)

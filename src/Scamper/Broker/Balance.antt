-- ===== src/Scamper/Broker/Balance.antt =====
-- The broker over a run: each MORE of a daemon is spent at once, on one command
-- (spoki/libspoki/src/scamper/broker.cpp).
use spoki.Prelude.{
  ℕ, ◌+◌, ◌≡◌, refl, ap, ◌∙◌, sym, true, false, Option, none, some, List, [], ◌∷◌, ◌++◌, map, arith,
  All, Option-cases, inl, inr, if-both,
}
use spoki.Prelude.Words.{u32}
use spoki.Prelude.Eq.{nat_has_eq}
use spoki.Prelude.Assoc.{find, has, put, erase}
use spoki.Net.{Address}
use spoki.Probe.{Method, Request}
use spoki.Scamper.{Bytes}
use spoki.Scamper.Records.{Reply}
use spoki.Scamper.Broker.{Instance, BrokerState, Effect, Turn, broker, send_requests}
use spoki.Scamper.Broker.Lines.{scan, new_data, with_instance, instance_of}
use spoki.Scamper.Broker.Actor.{
  Message, connect, reconnect, connection_closed, new_data_msg, probed, request, stats, done,
  handle_connect, handle_reconnect, handle_closed, handle_probed, send_all, handle_request,
  handle_stats, handle, handle_all,
}
use spoki.Scamper.Broker.Spending.{asked, asked-append, Spent, scan-Spent, send_requests-Spent}

pub record IsFair (n : ℕ) (s : BrokerState) : Type 0 where
  pub none_left : All (λ (d : ℕ × Instance). d.1.more ≡ 0) s.daemons
  pub balanced : s.stats_requested ≡ s.stats_more
  pub method : s.req.probe_method ≡ Method.tcp_synack
  pub counted : s.user_id_counter ≡ u32 n

abbrev NoneLeft : List (ℕ × Instance) → Type 0
NoneLeft = All (λ (d : ℕ × Instance). d.1.more ≡ 0)

found-NoneLeft :
    (hdl : ℕ) (m : List (ℕ × Instance)) (si : Instance)
    → NoneLeft m
    → find hdl m ≡ some si
    → si.more ≡ 0
unfolding find
found-NoneLeft hdl [] si a e = cc
found-NoneLeft hdl ((k, d) ∷ m) si a e = ground (arith, found-NoneLeft hdl m si a.1)

instance_of-more : (hdl : ℕ) (s : BrokerState) → NoneLeft s.daemons → (instance_of hdl s).more ≡ 0
instance_of-more hdl s a = elim (Option-cases (find hdl s.daemons)) [
  | inl e ↦ rw (instance_of, e) refl
  | inr (si, e) ↦ rw (instance_of, e) (found-NoneLeft hdl s.daemons si a e)
]

put-NoneLeft :
    (hdl : ℕ) (si : Instance) (m : List (ℕ × Instance))
    → si.more ≡ 0
    → NoneLeft m
    → NoneLeft (put hdl si m)
unfolding put
put-NoneLeft hdl si [] z a = (z, tt)
put-NoneLeft hdl si ((k, d) ∷ m) z a =
    if-both NoneLeft (nat_has_eq.eq k hdl) (z, a.1) (a.0, put-NoneLeft hdl si m z a.1)

erase-NoneLeft : (hdl : ℕ) (m : List (ℕ × Instance)) → NoneLeft m → NoneLeft (erase hdl m)
unfolding erase
erase-NoneLeft hdl [] a = tt
erase-NoneLeft hdl ((k, d) ∷ m) a =
    if-both NoneLeft (nat_has_eq.eq k hdl) (erase-NoneLeft hdl m a.1)
      (a.0, erase-NoneLeft hdl m a.1)

abbrev After : ℕ → BrokerState × List Effect → Type 0
After n q = IsFair (n + asked q.1) q.0

-- a handler that holds a connection, if it spends what it is given
with_instance-After :
    (n hdl : ℕ) (f : Turn → Turn) (s : BrokerState)
    → ((t : Turn) → Spent n t → Spent n (f t))
    → IsFair n s
    → After n (with_instance hdl f s)
with_instance-After n hdl f s keep v =
    let start : Turn = record { si = instance_of hdl s; s = s; out = [] } in
    let w = keep start (record {
      none_left = instance_of-more hdl s v.none_left;
      balanced = v.balanced;
      method = v.method;
      counted = omega (arith, v.counted);
    }) in
    record {
      none_left = put-NoneLeft hdl (f start).si s.daemons w.none_left v.none_left;
      balanced = w.balanced;
      method = w.method;
      counted = w.counted;
    }

-- nothing is written, and the daemons' state stays fair
unchanged-After :
    (n : ℕ) {s : BrokerState} (q : BrokerState × List Effect)
    → NoneLeft q.0.daemons
    → q.0.stats_requested ≡ s.stats_requested
    → q.0.stats_more ≡ s.stats_more
    → q.0.req ≡ s.req
    → q.0.user_id_counter ≡ s.user_id_counter
    → asked q.1 ≡ 0
    → IsFair n s
    → After n q
unchanged-After n q a r m x c z v = record {
  none_left = a;
  balanced = r ∙ v.balanced ∙ sym m;
  method = ap (λ (x : Request). x.probe_method) x ∙ v.method;
  counted = omega (arith, c, z, v.counted);
}

append-After :
    (n : ℕ) (s : BrokerState) (xs ys : List Effect)
    → IsFair (n + asked xs + asked ys) s
    → After n (s, xs ++ ys)
append-After n s xs ys v = record {
  none_left = v.none_left;
  balanced = v.balanced;
  method = v.method;
  counted = omega (arith, v.counted, asked-append xs ys);
}

module _ (print : Address → Bytes) where
  send_all-After :
      (hdls : List ℕ) (n : ℕ) (s : BrokerState) → IsFair n s → After n (send_all print hdls s)
  unfolding send_all
  send_all-After [] n s v = unchanged-After n (s, []) v.none_left refl refl refl refl refl v
  send_all-After (hdl ∷ hdls) n s v =
      let once = with_instance hdl (send_requests print hdl) s in
      let first =
        with_instance-After n hdl (send_requests print hdl) s (send_requests-Spent print n hdl) v in
      append-After n _ once.1 _ (send_all-After hdls (n + asked once.1) once.0 first)

  request-After :
      (req : Request) (n : ℕ) (s : BrokerState) → IsFair n s → After n (handle_request print req s)
  unfolding handle_request
  request-After req n s v =
      if-both (After n) (has req.user_id s.in_progress)
        (unchanged-After n (s, Effect.refuse req.user_id req.probe_method ∷ []) v.none_left refl
          refl refl refl refl v)
        (send_all-After s.handles n _ (record {
          none_left = v.none_left;
          balanced = v.balanced;
          method = v.method;
          counted = v.counted;
        }))

probed-After : (rep : Reply) (n : ℕ) (s : BrokerState) → IsFair n s → After n (handle_probed rep s)
unfolding handle_probed
probed-After rep n s v = elim (Option-cases (find rep.userid s.in_progress)) [
  | inl e ↦
      rw (handle_probed, e)
        (unchanged-After n (s, Effect.collect rep ∷ []) v.none_left refl refl refl refl refl v)
  | inr (shard, e) ↦
      rw (handle_probed, e)
        (record {
          none_left = v.none_left;
          balanced = v.balanced;
          method = v.method;
          counted = omega (arith, v.counted);
        })
]

closed-asked : (hdls : List ℕ) → asked (map Effect.close hdls ++ Effect.quit ∷ []) ≡ 0
closed-asked [] = refl
closed-asked (h ∷ hs) = closed-asked hs

module _ (print : Address → Bytes) (uudecode : Bytes → Option Bytes) where
  handle-After :
      (m : Message) (n : ℕ) (s : BrokerState) → IsFair n s → After n (handle print uudecode m s)
  unfolding handle handle_connect handle_reconnect handle_closed new_data handle_probed
      handle_request handle_stats
  handle-After (connect host port true (some conn)) n s v =
      unchanged-After n (handle print uudecode (connect host port true (some conn)) s)
        (put-NoneLeft conn _ s.daemons refl v.none_left) refl refl refl refl refl v
  handle-After (connect host port true none) n s v =
      unchanged-After n (handle print uudecode (connect host port true none) s) v.none_left refl
        refl refl refl refl v
  handle-After (connect host port false econn) n s v =
      unchanged-After n (handle print uudecode (connect host port false econn) s) v.none_left refl
        refl refl refl refl v
  handle-After (reconnect host port none decoder) n s v =
      unchanged-After n (handle print uudecode (reconnect host port none decoder) s) v.none_left
        refl refl refl refl refl v
  handle-After (reconnect host port (some conn) false) n s v =
      unchanged-After n (handle print uudecode (reconnect host port (some conn) false) s)
        v.none_left refl refl refl refl refl v
  handle-After (reconnect host port (some conn) true) n s v =
      unchanged-After n (handle print uudecode (reconnect host port (some conn) true) s)
        (put-NoneLeft conn _ s.daemons refl v.none_left) refl refl refl refl refl v
  handle-After (connection_closed hdl) n s v =
      unchanged-After n (handle print uudecode (connection_closed hdl) s)
        (erase-NoneLeft hdl s.daemons v.none_left) refl refl refl refl refl v
  handle-After (new_data_msg hdl bytes) n s v =
      with_instance-After n hdl (λ t. scan print uudecode hdl t [] (t.si.buf ++ bytes)) s
        (λ t. scan-Spent print uudecode n hdl t [] (t.si.buf ++ bytes)) v
  handle-After (probed rep) n s v = probed-After rep n s v
  handle-After (request req) n s v = request-After print req n s v
  handle-After stats n s v = record {
    none_left = v.none_left;
    balanced = refl;
    method = v.method;
    counted = omega (arith, v.counted);
  }
  handle-After done n s v =
      unchanged-After n (handle print uudecode done s) v.none_left refl refl refl refl
        (closed-asked s.handles) v

module _ (print : Address → Bytes) (uudecode : Bytes → Option Bytes) where
  handle_all-After :
      (ms : List Message) (n : ℕ) (s : BrokerState)
      → IsFair n s
      → After n (handle_all print uudecode ms s)
  unfolding handle_all
  handle_all-After [] n s v = unchanged-After n (s, []) v.none_left refl refl refl refl refl v
  handle_all-After (m ∷ ms) n s v =
      let once = handle print uudecode m s in
      append-After n _ once.1 _
        (handle_all-After ms (n + asked once.1) once.0 (handle-After print uudecode m n s v))

  -- Whatever messages come, each MORE is spent at once on one command: no connection has a MORE left,
  -- as many requests are counted as MOREs since the last report, and the user id of the last command
  -- is the number of commands written so far, as a 32-bit word.
  pub handle_all-IsFair :
      (ms : List Message) → let q = handle_all print uudecode ms broker in IsFair (asked q.1) q.0
  handle_all-IsFair ms =
      let q = handle_all print uudecode ms broker in
      let v = handle_all-After ms 0 broker (
        unfold broker in
        record { none_left = tt; balanced = refl; method = refl; counted = refl }) in
      record {
        none_left = v.none_left;
        balanced = v.balanced;
        method = v.method;
        counted = omega (arith, v.counted);
      }

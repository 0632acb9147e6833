-- ===== src/Scamper/Broker/Spending.antt =====
-- How the broker spends the MOREs of its daemons (spoki/libspoki/src/scamper/broker.cpp).
use spoki.Prelude.{
  ℕ, ◌+◌, ◌≡◌, refl, ap, Option, none, some, List, [], ◌∷◌, ◌++◌, arith, ltb, ◌==◌, if◌then◌else◌,
  if-both, drop,
}
use spoki.Prelude.Words.{u32}
use spoki.Prelude.Eq.{nat_has_eq}
use spoki.Net.{Address}
use spoki.Probe.{Method, Request}
use spoki.Probe.Commands.{make_command, make_tcp_synack_probe, synack_pieces}
use spoki.Scamper.{Bytes}
use spoki.Scamper.Text.{strtoul}
use spoki.Scamper.Broker.{
  BrokerState, Effect, Turn, next_request, send_request, send_loop, send_requests,
}
use spoki.Scamper.Broker.Lines.{head_of, handle_more, handle_reply, handle_data, handle_line, scan}

-- the commands among what is written: `ping`, not `attach`
abbrev pub asked : List Effect → ℕ
asked [] = 0
asked (Effect.write hdl bytes ∷ es) = (if head_of bytes == b'p' then 1 else 0) + asked es
asked (e ∷ es) = asked es

pub asked-append : (xs ys : List Effect) → asked (xs ++ ys) ≡ asked xs + asked ys
asked-append [] ys = omega arith
asked-append (Effect.write hdl bytes ∷ xs) ys = omega (arith, asked-append xs ys)
asked-append (x ∷ xs) ys = asked-append xs ys

-- a turn that began when `n` commands had been written
pub record Spent (n : ℕ) (t : Turn) : Type 0 where
  pub none_left : t.si.more ≡ 0
  pub balanced : t.s.stats_requested ≡ t.s.stats_more
  pub method : t.s.req.probe_method ≡ Method.tcp_synack
  pub counted : t.s.user_id_counter ≡ u32 (n + asked t.out)

make_command-head :
    (print : Address → Bytes) (req : Request)
    → req.probe_method ≡ Method.tcp_synack
    → head_of (make_command print req) ≡ b'p'
unfolding make_command make_tcp_synack_probe synack_pieces
make_command-head print req e = rw e refl

module _ (print : Address → Bytes) where
  send_one :
      (hdl : ℕ) (s : BrokerState)
      → s.req.probe_method ≡ Method.tcp_synack
      → let q = send_loop print hdl 1 s in
        (q.0.stats_requested ≡ u32 (s.stats_requested + 1))
        × (q.0.stats_more ≡ s.stats_more)
        × (q.0.req.probe_method ≡ Method.tcp_synack)
        × (q.0.user_id_counter ≡ u32 (s.user_id_counter + 1))
        × (asked q.1 ≡ 1)
  unfolding send_loop send_request next_request
  send_one hdl s m = (refl, refl, m, refl, rw (make_command-head print (next_request s).req m) refl)

  asked-write :
      (hdl : ℕ) (req : Request)
      → req.probe_method ≡ Method.tcp_synack
      → asked (Effect.write hdl (make_command print req) ∷ []) ≡ 1
  asked-write hdl req m = rw (make_command-head print req m) refl

  handle_more-Spent : (n hdl : ℕ) (t : Turn) → Spent n t → Spent n (handle_more print hdl t)
  unfolding handle_more send_requests send_loop send_request next_request
  handle_more-Spent n hdl t v =
      let one : u32 (t.si.more + 1) ≡ 1 = omega (arith, v.none_left) in
      let req = (next_request t.s).req in
      rw one (record {
        none_left = refl;
        balanced = ap (λ z. u32 (z + 1)) v.balanced;
        method = v.method;
        counted = omega (
          arith,
          v.counted,
          asked-append t.out (Effect.write hdl (make_command print req) ∷ []),
          asked-write hdl req v.method,
        );
      })

  handle_reply-Spent :
      (n hdl : ℕ) (t : Turn) (line following : Bytes)
      → Spent n t
      → Spent n (handle_reply print hdl t line following)
  unfolding handle_reply
  handle_reply-Spent n hdl t line following v =
      let res = strtoul (drop 5 (line ++ 0 ∷ following)) in
      let announced : Spent n (record t { si = record t.si { data_left = res } }) = record {
        none_left = v.none_left;
        balanced = v.balanced;
        method = v.method;
        counted = v.counted;
      } in
      if-both (Spent n) (head_of line == b'M') (handle_more-Spent n hdl t v)
        (if-both (Spent n) (head_of line == b'D') (if-both (Spent n) (res == 0) v announced) v)

handle_data-Spent :
    (uudecode : Bytes → Option Bytes) (n hdl : ℕ) (t : Turn) (line : Bytes)
    → Spent n t
    → Spent n (handle_data uudecode hdl t line)
unfolding handle_data
handle_data-Spent uudecode n hdl t line v = decoded (uudecode line) refl
  where
    decoded : (o : Option Bytes) → uudecode line ≡ o → Spent n (handle_data uudecode hdl t line)
    decoded none e = rw (e, handle_data) v
    decoded (some []) e =
        rw (e, handle_data)
          (record {
            none_left = v.none_left;
            balanced = v.balanced;
            method = v.method;
            counted = omega (arith, v.counted, asked-append t.out []);
          })
    decoded (some (b ∷ bs)) e =
        rw (e, handle_data)
          (record {
            none_left = v.none_left;
            balanced = v.balanced;
            method = v.method;
            counted =
                omega (arith, v.counted, asked-append t.out (Effect.decode hdl (b ∷ bs) ∷ []));
          })

module _ (print : Address → Bytes) (uudecode : Bytes → Option Bytes) where
  pub scan-Spent :
      (n hdl : ℕ) (t : Turn) (line cs : Bytes)
      → Spent n t
      → Spent n (scan print uudecode hdl t line cs)
  unfolding scan handle_line
  scan-Spent n hdl t line [] v = record {
    none_left = v.none_left;
    balanced = v.balanced;
    method = v.method;
    counted = v.counted;
  }
  scan-Spent n hdl t line (c ∷ cs) v =
      scan-Spent n hdl (if c == 10 then handle_line print uudecode hdl t line cs else t)
        (if c == 10 then [] else line ++ c ∷ []) cs
        (if-both (Spent n) (c == 10)
          (if-both (Spent n) (ltb 0 t.si.data_left) (handle_data-Spent uudecode n hdl t line v)
            (handle_reply-Spent print n hdl t line cs v))
          v)

pub send_requests-Spent :
    (print : Address → Bytes) (n hdl : ℕ) (t : Turn)
    → Spent n t
    → Spent n (send_requests print hdl t)
unfolding send_requests send_loop
send_requests-Spent print n hdl t v = rw v.none_left (record {
  none_left = refl;
  balanced = v.balanced;
  method = v.method;
  counted = omega (arith, v.counted, asked-append t.out []);
})

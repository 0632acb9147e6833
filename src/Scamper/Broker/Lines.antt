-- ===== src/Scamper/Broker/Lines.antt =====
-- What a scamper daemon sends to the broker (spoki/libspoki/src/scamper/broker.cpp): lines of replies,
-- and blocks of uuencoded data between them.
use spoki.Prelude.{
  ℕ, ◌+◌, Option, none, some, List, [], ◌∷◌, ◌++◌, ltb, ◌==◌, if◌then◌else◌, length, is_empty, drop,
}
use spoki.Prelude.Words.{u32, sub64}
use spoki.Prelude.Eq.{nat_has_eq}
use spoki.Prelude.Assoc.{find, put}
use spoki.Net.{Address}
use spoki.Scamper.{Bytes}
use spoki.Scamper.Text.{strtoul}
use spoki.Scamper.Broker.{
  Instance, instance_state, BrokerState, Effect, Turn, count_of, send_requests,
}

-- the first character, where an empty line has its NUL
abbrev pub head_of : Bytes → ℕ
head_of [] = 0
head_of (c ∷ cs) = c

module _ (print : Address → Bytes) where
  -- a MORE is counted, and spent at once
  unfoldable pub handle_more : ℕ → Turn → Turn
  unfolding send_requests put find
  handle_more hdl t =
      let s = t.s in
      send_requests print hdl (record {
        si = record t.si { more = u32 (t.si.more + 1) };
        s = record s {
          stats_more = u32 (s.stats_more + 1);
          stats_more_per_broker =
              put hdl (u32 (count_of hdl s.stats_more_per_broker + 1)) s.stats_more_per_broker;
        };
        out = t.out;
      })

  -- `handle_reply` on a line; the buffer goes on with a NUL and the bytes that follow
  unfoldable pub handle_reply : ℕ → Turn → Bytes → Bytes → Turn
  unfolding handle_more
  handle_reply hdl t line following =
      let res = strtoul (drop 5 (line ++ 0 ∷ following)) in
      if head_of line == b'M'
      then handle_more hdl t
      else if head_of line == b'D'
      then (if res == 0 then t else record t { si = record t.si { data_left = res } })
      else t

-- `handle_data`; a line that cannot be decoded leaves everything as it is
unfoldable pub handle_data : (Bytes → Option Bytes) → ℕ → Turn → Bytes → Turn
handle_data uudecode hdl t line = elim (uudecode line) [
  | none ↦ t
  | some bytes ↦ record t {
    si = record t.si { data_left = sub64 t.si.data_left (length line + 1) };
    out = t.out ++ (if is_empty bytes then [] else Effect.decode hdl bytes ∷ []);
  }
]

module _ (print : Address → Bytes) (uudecode : Bytes → Option Bytes) (hdl : ℕ) where
  unfoldable pub handle_line : Turn → Bytes → Bytes → Turn
  unfolding handle_data handle_reply
  handle_line t line following =
      if ltb 0 t.si.data_left
      then handle_data uudecode hdl t line
      else handle_reply print hdl t line following

  -- The loop over what the buffer holds: `line` is what stands between `from` and here. What is left
  -- behind the last newline stays in the buffer.
  unfoldable pub scan : Turn → Bytes → Bytes → Turn
  unfolding handle_line
  scan t line [] = record t { si = record t.si { buf = line } }
  scan t line (c ∷ cs) =
      let newline = c == 10 in
      scan (if newline then handle_line t line cs else t) (if newline then [] else line ++ c ∷ [])
        cs

-- `daemons[hdl]`
abbrev pub instance_of : ℕ → BrokerState → Instance
instance_of hdl s = elim (find hdl s.daemons) [ none ↦ instance_state | some si ↦ si ]

-- a handler that holds the reference to the state of a connection
abbrev pub with_instance : ℕ → (Turn → Turn) → BrokerState → BrokerState × List Effect
with_instance hdl f s =
    let t = f (record { si = instance_of hdl s; s = s; out = [] }) in
    (record t.s { daemons = put hdl t.si s.daemons }, t.out)

module _ (print : Address → Bytes) (uudecode : Bytes → Option Bytes) where
  -- the handler of `new_data_msg`
  unfoldable pub new_data : ℕ → Bytes → BrokerState → BrokerState × List Effect
  unfolding scan find put
  new_data hdl bytes s = with_instance hdl (λ t. scan print uudecode hdl t [] (t.si.buf ++ bytes)) s

-- ===== src/Scamper/Broker.antt =====
-- `scamper::broker` (spoki/libspoki/src/scamper/broker.cpp): the older actor, which holds connections to
-- several scamper daemons. `print` stands for the printer of addresses of the actor library, and
-- `uudecode` for `uudecode_line` of scamper's library. What connecting gives is part of a message.
pub mod Lines
pub mod Pieces
pub mod Actor
pub mod Spending
pub mod Balance
pub mod Queueing
mod Tests
use spoki.Prelude.{
  ℕ, zero, suc, ◌+◌, ◌*◌, Bool, true, false, Option, none, some, List, [], ◌∷◌, ◌++◌, if◌then◌else◌,
  ltb, ◌==◌,
}
use spoki.Prelude.Words.{u32}
use spoki.Prelude.Bits.{bit_and, bit_or}
use spoki.Prelude.Eq.{nat_has_eq}
use spoki.Prelude.Assoc.{find, put}
use spoki.Net.{Address}
use spoki.Probe.{Request, Method, empty_request}
use spoki.Probe.Commands.{make_command}
use spoki.Scamper.{Bytes}
use spoki.Scamper.Records.{Reply}

-- the state of one connection; its decoder is what `Effect.decode` writes to
pub record Instance : Type 0 where
  pub buf : Bytes
  pub data_left : ℕ  -- size_t
  pub more : ℕ  -- uint32_t
  pub host : Bytes
  pub port : ℕ  -- uint16_t

-- `instance()`; the port has no value yet
abbrev pub instance_state : Instance
instance_state = record { buf = []; data_left = 0; more = 0; host = []; port = 0 }

pub record BrokerState : Type 0 where
  pub request_queue : List Request
  pub in_progress : List (ℕ × ℕ)  -- the actor for each user id
  pub daemons : List (ℕ × Instance)
  pub handles : List ℕ
  pub stats_completed : ℕ  -- this and the others: uint32_t
  pub stats_more : ℕ
  pub stats_new : ℕ
  pub stats_requested : ℕ
  pub stats_rst_completed : ℕ
  pub stats_rst_new : ℕ
  pub stats_rst_in_progress : ℕ
  pub stats_more_per_broker : List (ℕ × ℕ)
  pub stats_requested_per_broker : List (ℕ × ℕ)
  pub daddr : ℕ  -- uint32_t
  pub user_id_counter : ℕ  -- uint32_t
  pub req : Request

abbrev pub daddr_prefix : ℕ
daddr_prefix = 0x0000010a

abbrev pub daddr_suffix_max : ℕ
daddr_suffix_max = 0x00feffff

-- what a request to connect is answered with, of scamper/ec.hpp where it failed
pub data ConnectResult : Type 0 where
  success failed_to_start_decoder failed_to_connect : ConnectResult

-- what the broker does outside of its state
pub data Effect : Type 0 where
  write : ℕ → Bytes → Effect  -- to a connection, with the `flush`
  decode : ℕ → Bytes → Effect  -- to the decoder of a connection
  collect : Reply → Effect
  forward : ℕ → ℕ → Method → Effect  -- to the actor of a user id
  refuse : ℕ → Method → Effect  -- back to the sender of a request
  answer : ConnectResult → Effect
  reconnect : Bytes → ℕ → Effect
  reconnect_later : Bytes → ℕ → Effect
  close : ℕ → Effect
  stats_later : Effect
  quit : Effect

-- `broker`, with the dummy request that it sends
unfoldable pub broker : BrokerState
broker = record {
  request_queue = [];
  in_progress = [];
  daemons = [];
  handles = [];
  stats_completed = 0;
  stats_more = 0;
  stats_new = 0;
  stats_requested = 0;
  stats_rst_completed = 0;
  stats_rst_new = 0;
  stats_rst_in_progress = 0;
  stats_more_per_broker = [];
  stats_requested_per_broker = [];
  daddr = 1;
  user_id_counter = 0;
  req = record empty_request {
    probe_method = Method.tcp_synack;
    saddr = 0x01020308;
    sport = 1337;
    dport = 80;
    anum = 123881;
    num_probes = 1;
  };
}

-- `m[k]`, where a missing entry is 0
abbrev count_of : ℕ → List (ℕ × ℕ) → ℕ
count_of k m = elim (find k m) [ none ↦ 0 | some n ↦ n ]

-- a handler at work on one connection: its state, the broker's, and what it did
pub record Turn : Type 0 where
  pub si : Instance
  pub s : BrokerState
  pub out : List Effect

-- the next request: the following user id, and the following address
unfoldable pub next_request : BrokerState → BrokerState
next_request s =
    let uid = u32 (s.user_id_counter + 1) in
    let daddr = bit_and (u32 (s.daddr + 1)) daddr_suffix_max in
    record s {
      user_id_counter = uid;
      daddr = daddr;
      req = record s.req { user_id = uid; daddr = bit_or (u32 (daddr * 256)) daddr_prefix };
    }

module _ (print : Address → Bytes) where
  -- one round of the loop of `send_requests(hdl)`
  unfoldable pub send_request : ℕ → BrokerState → BrokerState × Effect
  unfolding next_request put find
  send_request hdl s =
      let s' = next_request s in
      (
        record s' {
          stats_requested = u32 (s'.stats_requested + 1);
          stats_requested_per_broker =
              put hdl (u32 (count_of hdl s'.stats_requested_per_broker + 1))
                s'.stats_requested_per_broker;
        },
        Effect.write hdl (make_command print s'.req),
      )

  -- the loop, which runs while `more` is not 0
  unfoldable pub send_loop : ℕ → ℕ → BrokerState → BrokerState × List Effect
  unfolding send_request
  send_loop hdl zero s = (s, [])
  send_loop hdl (suc more) s =
      let once = send_request hdl s in
      let rest = send_loop hdl more once.0 in (rest.0, once.1 ∷ rest.1)

  -- `send_requests(hdl)`
  unfoldable pub send_requests : ℕ → Turn → Turn
  unfolding send_loop
  send_requests hdl t =
      let sent = send_loop hdl t.si.more t.s in
      record { si = record t.si { more = 0 }; s = sent.0; out = t.out ++ sent.1 }

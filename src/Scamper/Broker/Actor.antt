-- ===== src/Scamper/Broker/Actor.antt =====
-- The messages of the broker (spoki/libspoki/src/scamper/broker.cpp).
use spoki.Prelude.{
  ℕ, ◌+◌, Bool, true, false, Option, none, some, List, [], ◌∷◌, ◌++◌, map, ◌==◌, if◌then◌else◌,
}
use spoki.Prelude.Words.{u32, sub32}
use spoki.Prelude.Eq.{nat_has_eq}
use spoki.Prelude.Assoc.{find, has, put, erase}
use spoki.Net.{Address}
use spoki.Probe.{Request, Method}
use spoki.Scamper.{Bytes}
use spoki.Scamper.Driver.{attach_cmd}
use spoki.Scamper.Records.{Reply}
use spoki.Scamper.Broker.{instance_state, BrokerState, ConnectResult, Effect, send_requests}
use spoki.Scamper.Broker.Lines.{new_data, with_instance, instance_of}

-- `econn` is the handle of the new connection, if there is one, and `decoder` whether a decoder
-- could be made.
pub data Message : Type 0 where
  connect : Bytes → ℕ → Bool → Option ℕ → Message
  reconnect : Bytes → ℕ → Option ℕ → Bool → Message
  connection_closed : ℕ → Message
  new_data_msg : ℕ → Bytes → Message
  probed : Reply → Message
  request : Request → Message
  stats : Message
  done : Message

abbrev is_rst : Method → Bool
is_rst Method.tcp_rst = true
is_rst _ = false

-- a connection that stands: `attach` is sent
abbrev connected : Bytes → ℕ → ℕ → BrokerState → BrokerState × List Effect
connected host port conn s = (
  record s {
    daemons = put conn (record instance_state { host = host; port = port }) s.daemons;
    handles = s.handles ++ conn ∷ [];
  },
  Effect.write conn attach_cmd ∷ [],
)

unfoldable pub handle_connect :
    Bytes → ℕ → Bool → Option ℕ → BrokerState → BrokerState × List Effect
unfolding put
handle_connect host port true (some conn) s =
    let (s', out) = connected host port conn s in
    (
      record s' {
        stats_more_per_broker = put conn 0 s'.stats_more_per_broker;
        stats_requested_per_broker = put conn 0 s'.stats_requested_per_broker;
      },
      out ++ Effect.answer ConnectResult.success ∷ [],
    )
handle_connect host port true none s = (s, Effect.answer ConnectResult.failed_to_connect ∷ [])
handle_connect host port false econn s =
    (s, Effect.answer ConnectResult.failed_to_start_decoder ∷ [])

unfoldable pub handle_reconnect :
    Bytes → ℕ → Option ℕ → Bool → BrokerState → BrokerState × List Effect
unfolding put
handle_reconnect host port none decoder s = (s, Effect.reconnect_later host port ∷ [])
handle_reconnect host port (some conn) false s =
    (s, Effect.close conn ∷ Effect.reconnect_later host port ∷ [])
handle_reconnect host port (some conn) true s = connected host port conn s

-- `erase(find(...))` on the handles
unfoldable pub remove_handle : ℕ → List ℕ → List ℕ
remove_handle hdl [] = []
remove_handle hdl (h ∷ hs) = if h == hdl then hs else h ∷ remove_handle hdl hs

unfoldable pub handle_closed : ℕ → BrokerState → BrokerState × List Effect
unfolding remove_handle erase find
handle_closed hdl s =
    let si = instance_of hdl s in
    (
      record s { handles = remove_handle hdl s.handles; daemons = erase hdl s.daemons },
      Effect.reconnect si.host si.port ∷ [],
    )

-- the actor that waits for a user id
abbrev waiting : ℕ → BrokerState → Option ℕ
waiting userid s = find userid s.in_progress

unfoldable pub handle_probed : Reply → BrokerState → BrokerState × List Effect
unfolding find erase
handle_probed rep s = elim (waiting rep.userid s) [
  | none ↦ (s, Effect.collect rep ∷ [])
  | some shard ↦ (
    record s {
      stats_rst_completed =
          if is_rst rep.probe_method
          then u32 (s.stats_rst_completed + 1)
          else s.stats_rst_completed;
      stats_rst_in_progress =
          if is_rst rep.probe_method
          then sub32 s.stats_rst_in_progress 1
          else s.stats_rst_in_progress;
      in_progress = erase rep.userid s.in_progress;
      stats_completed = u32 (s.stats_completed + 1);
    },
    Effect.collect rep ∷ Effect.forward shard rep.userid rep.probe_method ∷ [],
  )
]

module _ (print : Address → Bytes) where
  -- `send_requests()` over the handles
  unfoldable pub send_all : List ℕ → BrokerState → BrokerState × List Effect
  unfolding send_requests find put
  send_all [] s = (s, [])
  send_all (hdl ∷ hdls) s =
      let once = with_instance hdl (send_requests print hdl) s in
      let rest = send_all hdls once.0 in (rest.0, once.1 ++ rest.1)

  unfoldable pub handle_request : Request → BrokerState → BrokerState × List Effect
  unfolding send_all has
  handle_request req s =
      let queued = record s {
        stats_rst_new =
            if is_rst req.probe_method then u32 (s.stats_rst_new + 1) else s.stats_rst_new;
        stats_rst_in_progress =
            if is_rst req.probe_method
            then u32 (s.stats_rst_in_progress + 1)
            else s.stats_rst_in_progress;
        request_queue = s.request_queue ++ req ∷ [];
        stats_new = u32 (s.stats_new + 1);
      } in
      if has req.user_id s.in_progress
      then (s, Effect.refuse req.user_id req.probe_method ∷ [])
      else send_all s.handles queued

abbrev zeroed : List (ℕ × ℕ) → List (ℕ × ℕ)
zeroed = map (λ (elem : ℕ × ℕ). (elem.0, 0))

-- the report of every second
unfoldable pub handle_stats : BrokerState → BrokerState × List Effect
handle_stats s = (
  record s {
    stats_completed = 0;
    stats_more = 0;
    stats_new = 0;
    stats_requested = 0;
    stats_rst_completed = 0;
    stats_rst_new = 0;
    stats_more_per_broker = zeroed s.stats_more_per_broker;
    stats_requested_per_broker = zeroed s.stats_requested_per_broker;
  },
  Effect.stats_later ∷ [],
)

module _ (print : Address → Bytes) (uudecode : Bytes → Option Bytes) where
  unfoldable pub handle : Message → BrokerState → BrokerState × List Effect
  unfolding handle_connect handle_reconnect handle_closed new_data handle_probed handle_request
      handle_stats
  handle (connect host port decoder econn) s = handle_connect host port decoder econn s
  handle (reconnect host port econn decoder) s = handle_reconnect host port econn decoder s
  handle (connection_closed hdl) s = handle_closed hdl s
  handle (new_data_msg hdl bytes) s = new_data print uudecode hdl bytes s
  handle (probed rep) s = handle_probed rep s
  handle (request req) s = handle_request print req s
  handle stats s = handle_stats s
  handle done s = (s, map Effect.close s.handles ++ Effect.quit ∷ [])

  -- all messages in the order in which they come
  unfoldable pub handle_all : List Message → BrokerState → BrokerState × List Effect
  unfolding handle
  handle_all [] s = (s, [])
  handle_all (m ∷ ms) s =
      let once = handle m s in let rest = handle_all ms once.0 in (rest.0, once.1 ++ rest.1)

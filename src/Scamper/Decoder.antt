-- ===== src/Scamper/Decoder.antt =====
-- `scamper::async_decoder` (spoki/libspoki/src/scamper/async_decoder.cpp), with the poll backend: the
-- buffer of bytes for the warts decoder, the callbacks of the multiplexer, and its loop. The
-- library's `scamper_writebuf_send` always finds memory.
pub mod Opening
pub mod Flow
mod Tests
use spoki.Prelude.{
  ℕ, Bool, true, false, not, ◌&&◌, List, [], ◌∷◌, ◌++◌, if◌then◌else◌, is_empty, drop,
}
use spoki.Multiplexing.{Operation, Events, events_of}
use spoki.Scamper.{Bytes}

pub data Fd : Type 0 where
  notify_in decode_out decode_in : Fd

pub record AsyncDecoder : Type 0 where
  pub done : Bool
  pub decoding : Bool
  pub decode_wb : Bytes
  pub notify_events : Events
  pub out_events : Events
  pub in_events : Events

-- the constructor, and the events that `run` sets up before its loop
unfoldable pub async_decoder : AsyncDecoder
async_decoder = record {
  done = false;
  decoding = false;
  decode_wb = [];
  notify_events = Events.pollin;
  out_events = Events.no_events;
  in_events = Events.pollin;
}

-- the entry of `mods_`
abbrev set_events : Fd → Events → AsyncDecoder → AsyncDecoder
set_events Fd.notify_in e d = record d { notify_events = e }
set_events Fd.decode_out e d = record d { out_events = e }
set_events Fd.decode_in e d = record d { in_events = e }

unfoldable pub enable : Fd → Operation → AsyncDecoder → AsyncDecoder
enable fd op d = set_events fd (events_of op) d

unfoldable pub disable : Fd → AsyncDecoder → AsyncDecoder
disable fd d = set_events fd Events.no_events d

-- one message of `handle_notify_read`
unfoldable pub receive : AsyncDecoder → Bytes → AsyncDecoder
unfolding enable
receive d buf =
    let d' = record d { decode_wb = d.decode_wb ++ buf } in
    if d.decoding then d' else record (enable Fd.decode_out Operation.write d') { decoding = true }

-- `handle_notify_read`, behind its `recv`: all messages that wait
unfoldable pub handle_notify_read : AsyncDecoder → List Bytes → AsyncDecoder
unfolding receive
handle_notify_read d [] = d
handle_notify_read d (buf ∷ bufs) = handle_notify_read (receive d buf) bufs

-- `handle_decode_write`, where `scamper_writebuf_write` passed on `n` bytes
unfoldable pub handle_decode_write : AsyncDecoder → ℕ → AsyncDecoder
unfolding disable
handle_decode_write d n =
    let d' = record d { decode_wb = drop n d.decode_wb } in
    if is_empty d'.decode_wb && d.decoding
    then record (disable Fd.decode_out d') { decoding = false }
    else d'

-- What a round finds: which sockets have events, the messages that wait, and the bytes that the
-- decoder's socket takes.
pub data PollResult : Type 0 where
  failed : PollResult
  ready : Bool → Bool → Bool → List Bytes → ℕ → PollResult

-- the callbacks that `start` sets; reading from the decoder leaves the state as it is
unfoldable pub callback : Fd → List Bytes → ℕ → AsyncDecoder → AsyncDecoder
unfolding handle_notify_read handle_decode_write
callback Fd.notify_in bufs n d = handle_notify_read d bufs
callback Fd.decode_out bufs n d = handle_decode_write d n
callback Fd.decode_in bufs n d = d

-- one round of the loop of `run`
unfoldable pub loop_round : PollResult → AsyncDecoder → AsyncDecoder
unfolding callback
loop_round failed d = record d { done = true }
loop_round (ready on_notify on_out on_in bufs n) d =
    let d1 = if on_notify then callback Fd.notify_in bufs n d else d in
    let d2 = if on_out then callback Fd.decode_out bufs n d1 else d1 in
    if on_in then callback Fd.decode_in bufs n d2 else d2

loop : List PollResult → AsyncDecoder → AsyncDecoder
unfolding loop_round
loop [] d = d
loop (r ∷ rs) d = let rest = loop rs (loop_round r d) in if d.done then d else rest

-- `run`, over what the calls of `::poll` return
unfoldable pub run : List PollResult → AsyncDecoder → AsyncDecoder
unfolding loop
run rs d = loop rs (record d { done = false })

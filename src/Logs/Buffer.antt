-- ===== src/Logs/Buffer.antt =====
-- `buffer_state` and its behavior (spoki/libspoki/src/buffer.cpp): rows are collected and passed to
-- the collector hour by hour.
pub mod Hours
mod Tests
use spoki.Prelude.{
  ℕ, Bool, true, false, Option, none, some, List, [], ◌∷◌, ◌++◌, ltb, ◌==◌, not, if◌then◌else◌,
  length, is_empty,
}
use spoki.Logs.{Bytes, align_to_hour}

pub record BufferState : Type 0 where
  pub buffer : Bytes
  pub next_buffer : Bytes
  pub got_backup_buffer : Bool
  pub unix_ts : ℕ
  pub write_threshold : ℕ

-- a buffer that is sent to the collector, and its hour
abbrev pub Chunk : Type 0
Chunk = Bytes × ℕ

-- `buffer`
unfoldable pub buffer : ℕ → BufferState
buffer write_threshold = record {
  buffer = [];
  next_buffer = [];
  got_backup_buffer = false;
  unix_ts = 0;
  write_threshold = write_threshold;
}

-- The buffer is moved into the message; a buffer that came back takes its place, by a swap.
unfoldable pub send : BufferState → BufferState × List Chunk
send s = (
  (if s.got_backup_buffer
      then record s { buffer = s.next_buffer; next_buffer = []; got_backup_buffer = false }
      else record s { buffer = [] }),
  (s.buffer, s.unix_ts) ∷ [],
)

-- the test of the hour, before the entry is added
unfoldable pub turn_hour : ℕ → BufferState → BufferState × List Chunk
unfolding send
turn_hour aligned s =
    let (s', chunks) = send s in
    if is_empty s.buffer
    then (record s { unix_ts = aligned }, [])
    else if not (aligned == s.unix_ts)
    then (record s' { unix_ts = aligned }, chunks)
    else (s, [])

-- the entry and its newline, and the test of the threshold
unfoldable pub append : Bytes → BufferState → BufferState × List Chunk
unfolding send
append entry s =
    let s' = record s { buffer = s.buffer ++ entry ++ 10 ∷ [] } in
    if ltb s.write_threshold (length s'.buffer) then send s' else (s', [])

-- what `append_log_entry` writes for a packet, a packet and its request, or a reply, with its time
-- stamp in seconds; or the buffer that the collector gives back
pub data Message : Type 0 where
  entry : Bytes → ℕ → Message
  returned : Bytes → Message

unfoldable pub handle : Message → BufferState → BufferState × List Chunk
unfolding turn_hour append
handle (entry text unix_ts) s =
    let (s1, first) = turn_hour (align_to_hour unix_ts) s in
    let (s2, second) = append text s1 in (s2, first ++ second)
handle (returned buf) s = (record s { next_buffer = []; got_backup_buffer = true }, [])

-- the messages in order, and all that is sent
unfoldable pub handle_all : List Message → BufferState → BufferState × List Chunk
unfolding handle
handle_all [] s = (s, [])
handle_all (m ∷ ms) s =
    let (s1, first) = handle m s in let (s2, rest) = handle_all ms s1 in (s2, first ++ rest)

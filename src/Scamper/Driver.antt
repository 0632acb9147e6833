-- ===== src/Scamper/Driver.antt =====
-- `scamper::driver` (spoki/libspoki/src/scamper/driver.cpp), with the epoll backend: the state, the
-- interest in socket events, and the handlers of these events.
pub mod Opening
pub mod Replies
pub mod Interest
pub mod Writing
pub mod Order
pub mod Delivery
pub mod Credits
pub mod Framing
pub mod Blocks
pub mod Loop
mod Tests
use spoki.Prelude.{
  ℕ, suc, ◌+◌, ◌-◌, Bool, true, false, not, ◌&&◌, ◌||◌, Option, none, some, List, [], ◌∷◌, ◌++◌,
  ltb, leb, ◌==◌, if◌then◌else◌, length, is_empty, take, drop,
}
use spoki.Prelude.Words.{u64, sub64, u32}
use spoki.Prelude.Int.{ℤ, pos, negsuc}
use spoki.Multiplexing.{Operation}
use spoki.Scamper.{Bytes}
use spoki.Scamper.Text.{strtoul}
use spoki.Scamper.Sockets.{SendResult, sent, full, RecvResult, received, nothing, closed}
use spoki.Scamper.Sockets

pub data Fd : Type 0 where
  notify_read decode_write decode_read scamper : Fd

-- the bits EPOLLIN and EPOLLOUT
pub record Mask : Type 0 where
  pub epollin : Bool
  pub epollout : Bool

-- `masks_`, which `mod` keeps equal to what epoll has
pub record Masks : Type 0 where
  pub notify_read : Mask
  pub decode_write : Mask
  pub decode_read : Mask
  pub scamper : Mask

pub record Driver : Type 0 where
  pub masks : Masks
  -- the first `scamper_bytes_in_buffer_` bytes of `scamper_read_buf_`
  pub read_buf : Bytes
  pub expected_data : ℕ  -- size_t
  pub more : ℕ  -- size_t
  pub writing : Bool
  pub requests : List Bytes  -- the deque `scamper_probe_requests_`
  pub written : ℕ  -- size_t
  pub decoding : Bool
  pub decode_wb : Bytes
  pub count_batch : ℕ  -- uint32_t

-- `attach_cmd`
abbrev pub attach_cmd : Bytes
attach_cmd = b'a' ∷ b't' ∷ b't' ∷ b'a' ∷ b'c' ∷ b'h' ∷ 10 ∷ []

abbrev mask : Bool → Bool → Mask
mask i o = record { epollin = i; epollout = o }

-- the constructor, and the interest that `run` registers before its loop
unfoldable pub start : Driver
start = record {
  masks = record {
    notify_read = mask true false;
    decode_write = mask false false;
    decode_read = mask true false;
    scamper = mask true true;
  };
  read_buf = [];
  expected_data = 0;
  more = 1;
  writing = false;
  requests = attach_cmd ∷ [];
  written = 0;
  decoding = false;
  decode_wb = [];
  count_batch = 0;
}

abbrev pub mask_of : Fd → Masks → Mask
mask_of Fd.notify_read m = m.notify_read
mask_of Fd.decode_write m = m.decode_write
mask_of Fd.decode_read m = m.decode_read
mask_of Fd.scamper m = m.scamper

abbrev set_mask : Fd → Mask → Masks → Masks
set_mask Fd.notify_read k m = record m { notify_read = k }
set_mask Fd.decode_write k m = record m { decode_write = k }
set_mask Fd.decode_read k m = record m { decode_read = k }
set_mask Fd.scamper k m = record m { scamper = k }

abbrev switch_on : Operation → Mask → Mask
switch_on Operation.read k = record k { epollin = true }
switch_on Operation.write k = record k { epollout = true }

abbrev switch_off : Operation → Mask → Mask
switch_off Operation.read k = record k { epollin = false }
switch_off Operation.write k = record k { epollout = false }

-- `enable` and `disable`; storing a mask that did not change does nothing
unfoldable pub enable : Fd → Operation → Driver → Driver
enable fd op d = record d { masks = set_mask fd (switch_on op (mask_of fd d.masks)) d.masks }

unfoldable pub disable : Fd → Operation → Driver → Driver
disable fd op d = record d { masks = set_mask fd (switch_off op (mask_of fd d.masks)) d.masks }

-- one message of `handle_notify_read`: a command is queued
unfoldable pub queue : Driver → Bytes → Driver
unfolding enable
queue d cmd =
    let d' = record d { requests = d.requests ++ cmd ∷ [] } in
    if ltb 0 d.more && not d.writing
    then record (enable Fd.scamper Operation.write d') { writing = true }
    else d'

-- `handle_notify_read`: all the commands that are waiting
unfoldable pub handle_notify_read : Driver → List Bytes → Driver
unfolding queue
handle_notify_read d [] = d
handle_notify_read d (cmd ∷ cmds) = handle_notify_read (queue d cmd) cmds

-- `handle_decode_write`, where `scamper_writebuf_write` passed on `n` bytes
unfoldable pub handle_decode_write : Driver → ℕ → Driver
unfolding disable
handle_decode_write d n =
    let d' = record d { decode_wb = drop n d.decode_wb } in
    if is_empty d'.decode_wb && d.decoding
    then record (disable Fd.decode_write Operation.write d') { decoding = false }
    else d'

-- What a write event did: the state, the bytes that the socket took, and the batch that was
-- reported to the collector (the count, and the requests that are left).
pub record WriteResult : Type 0 where
  pub driver : Driver
  pub wire : Bytes
  pub report : Option (ℕ × ℕ)

-- the bytes of the front command that `::send` took, from `scamper_written_` on
abbrev pub taken : Driver → Bytes → SendResult → Bytes
taken d buf (sent n) = take n (drop d.written buf)
taken d buf _ = []

-- a request has been written completely
unfoldable pub complete : Driver → List Bytes → Driver × Option (ℕ × ℕ)
unfolding disable
complete d rest =
    let counted = u32 (d.count_batch + 1) in
    let d' = record d {
      more = sub64 d.more 1;
      requests = rest;
      written = 0;
      count_batch = if leb 100 counted then 0 else counted;
    } in
    (
      (if d'.more == 0 || is_empty rest
          then record (disable Fd.scamper Operation.write d') { writing = false }
          else d'),
      (if leb 100 counted then some (counted, length rest) else none),
    )

-- the guard at the top, which does not return
unfoldable pub guard_write : Driver → Driver
unfolding disable
guard_write d =
    if is_empty d.requests || d.more == 0
    then record (disable Fd.scamper Operation.write d) { writing = false }
    else d

abbrev pub eq_ℤ : ℤ → ℕ → Bool
eq_ℤ (pos n) m = n == m
eq_ℤ (negsuc n) m = false

-- The write of the front request `buf`. The loop around it runs once: its condition reads an outer
-- `res`, which stays 0.
unfoldable pub write_front : Driver → SendResult → Bytes → List Bytes → WriteResult
unfolding complete guard_write
write_front d res buf rest =
    let g = guard_write d in
    let done = complete g rest in
    if eq_ℤ (Sockets.write res) (length buf - d.written)
    then record { driver = done.0; wire = taken d buf res; report = done.1 }
    else record { driver = g; wire = taken d buf res; report = none }

-- `handle_scamper_write`, over what `::send` returns; `none` is a `front` of an empty deque
unfoldable pub handle_scamper_write : Driver → SendResult → Option WriteResult
unfolding write_front
handle_scamper_write d res = elim d.requests [
  | [] ↦ none
  | buf ∷ rest ↦ some (write_front d res buf rest)
]

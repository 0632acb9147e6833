-- ===== src/Scamper/Decoder/Opening.antt =====
-- How a decoder is made and destroyed (spoki/libspoki/src/scamper/async_decoder.cpp): which sockets,
-- files and buffers are open after `make`, over which of the calls in between succeed.
use spoki.Prelude.{◌≡◌, arith, Bool, true, false, not, ◌&&◌, if◌then◌else◌}

-- what is open
pub record Held : Type 0 where
  pub decode_in_fd : Bool
  pub decode_out_fd : Bool
  pub decode_in : Bool  -- the file that the warts decoder reads
  pub ffilter : Bool
  pub decode_wb : Bool
  pub notify_in_fd : Bool
  pub notify_out_fd : Bool

-- the calls that may fail, in their order
pub record Calls : Type 0 where
  pub decode_pair : Bool
  pub file_openfd : Bool
  pub decode_nonblock : Bool
  pub filter_alloc : Bool
  pub writebuf_alloc : Bool
  pub notify_pair : Bool
  pub notify_nonblock : Bool

abbrev pub nothing : Held
nothing = record {
  decode_in_fd = false;
  decode_out_fd = false;
  decode_in = false;
  ffilter = false;
  decode_wb = false;
  notify_in_fd = false;
  notify_out_fd = false;
}

-- `make`: whether there is a decoder, and what is open
unfoldable pub make : Calls → Bool × Held
make c =
    let h1 = record nothing { decode_in_fd = true; decode_out_fd = true } in
    let h2 = record h1 { decode_in = true } in
    let h3 = record h2 { ffilter = true } in
    let h4 = record h3 { decode_wb = true } in
    let h5 = record h4 { notify_in_fd = true; notify_out_fd = true } in
    if not c.decode_pair
    then (false, nothing)
    else if not c.file_openfd
    then (false, h1)
    else if not c.decode_nonblock
    then (false, h2)
    else if not c.filter_alloc
    then (false, h2)
    else if not c.writebuf_alloc
    then (false, h3)
    else if not c.notify_pair
    then (false, h4)
    else if not c.notify_nonblock
    then (false, h5)
    else (true, h5)

-- the destructor
unfoldable pub destroy : Held → Held
destroy h =
    let freed = record h { ffilter = false; decode_wb = false; decode_in = false } in
    record freed {
      decode_out_fd = false;
      decode_in_fd = false;
      notify_in_fd = false;
      notify_out_fd = false;
    }

-- A decoder is made exactly if all calls succeed, and then its destructor leaves nothing open. Where
-- one fails there is no decoder to destroy, and the pair of sockets for decoding stays open exactly if
-- it was opened, as do the filter and the buffer.
pub make-leaks :
    (c : Calls)
    → let h = (make c).1 in
      ((make c).0 ≡ (
        c.decode_pair && c.file_openfd && c.decode_nonblock && c.filter_alloc && c.writebuf_alloc
        && c.notify_pair && c.notify_nonblock))
      × (destroy h ≡ nothing)
      × (h.decode_in_fd ≡ c.decode_pair)
      × (h.decode_out_fd ≡ c.decode_pair)
      × (h.ffilter ≡ (c.decode_pair && c.file_openfd && c.decode_nonblock && c.filter_alloc))
      × (h.decode_wb ≡ (
          c.decode_pair && c.file_openfd && c.decode_nonblock && c.filter_alloc
          && c.writebuf_alloc))
unfolding make destroy
make-leaks c = (ground arith, ground arith, ground arith, ground arith, ground arith, ground arith)

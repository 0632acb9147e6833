-- ===== src/Scamper/Driver/Opening.antt =====
-- How a driver is made and destroyed (spoki/libspoki/src/scamper/driver.cpp): which sockets, files and
-- buffers are open after `make` and after the destructor, over which of the calls in between succeed.
use spoki.Prelude.{◌≡◌, arith, Bool, true, false, not, ◌&&◌, if◌then◌else◌}

-- what is open
record Held : Type 0 where
  scamper_fd : Bool
  decode_read_fd : Bool
  decode_write_fd : Bool
  decode_in : Bool  -- the file that the warts decoder reads
  ffilter : Bool
  decode_wb : Bool
  notify_read_fd : Bool
  notify_write_fd : Bool

-- the calls that may fail, in their order
record Calls : Type 0 where
  socketpair : Bool
  file_openfd : Bool
  filter_alloc : Bool
  writebuf_alloc : Bool
  pipe : Bool

abbrev nothing : Held
nothing = record {
  scamper_fd = false;
  decode_read_fd = false;
  decode_write_fd = false;
  decode_in = false;
  ffilter = false;
  decode_wb = false;
  notify_read_fd = false;
  notify_write_fd = false;
}

abbrev everything : Held
everything = record {
  scamper_fd = true;
  decode_read_fd = true;
  decode_write_fd = true;
  decode_in = true;
  ffilter = true;
  decode_wb = true;
  notify_read_fd = true;
  notify_write_fd = true;
}

-- the guard of the socket, and the two of the pair
abbrev drop_scamper : Held → Held
drop_scamper h = record h { scamper_fd = false }

abbrev drop_guards : Held → Held
drop_guards h = drop_scamper (record h { decode_read_fd = false; decode_write_fd = false })

-- `make` on a socket that is connected: whether there is a driver, and what is open
unfoldable make : Calls → Bool × Held
make c =
    let h1 = record nothing { scamper_fd = true } in
    let h2 = record h1 { decode_read_fd = true; decode_write_fd = true } in
    let h3 = record h2 { decode_in = true } in
    let h4 = record h3 { ffilter = true } in
    let h5 = record h4 { decode_wb = true } in
    let h6 = record h5 { notify_read_fd = true; notify_write_fd = true } in
    if not c.socketpair
    then (false, drop_scamper h1)
    else if not c.file_openfd
    then (false, drop_guards h2)
    else if not c.filter_alloc
    then (false, drop_guards (record h3 { decode_in = false }))
    else if not c.writebuf_alloc
    then (false, drop_guards (record h4 { decode_in = false; ffilter = false }))
    else if not c.pipe
    then (false, drop_guards (record h5 { decode_in = false; decode_wb = false; ffilter = false }))
    else (true, h6)

-- the destructor
unfoldable destroy : Held → Held
destroy h =
    let freed = record h { ffilter = false; decode_wb = false; decode_in = false } in
    record freed {
      decode_write_fd = false;
      decode_read_fd = false;
      notify_read_fd = false;
      notify_write_fd = false;
      scamper_fd = false;
    }

-- A driver is made exactly if all calls succeed, with everything open, and then its destructor leaves
-- nothing open; whichever call fails, nothing stays open, the socket to scamper included.
make-clean :
    (c : Calls)
    → (make c ≡ (
        if c.socketpair && c.file_openfd && c.filter_alloc && c.writebuf_alloc && c.pipe
        then (true, everything)
        else (false, nothing)))
      × (destroy (make c).1 ≡ nothing)
unfolding make destroy
make-clean c = (ground arith, ground arith)

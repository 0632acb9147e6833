-- ===== src/Probe/UdpProber/Opening.antt =====
-- How a UDP prober is made and destroyed (spoki/libspoki/src/probe/udp_prober.cpp): which sockets are open
-- after `make` and after the destructor, over which of the calls in between succeed.
use spoki.Prelude.{◌≡◌, arith, Bool, true, false, not, ◌&&◌, if◌then◌else◌}

-- what is open
record Held : Type 0 where
  probe_out_fd : Bool
  notify_in_fd : Bool
  notify_out_fd : Bool

-- the calls that may fail, in their order
record Calls : Type 0 where
  socket : Bool
  setsockopt : Bool
  socketpair : Bool
  nonblocking : Bool

-- a prober, no prober, or the end of the whole process
data Outcome : Type 0 where
  prober null exit : Outcome

abbrev nothing : Held
nothing = record { probe_out_fd = false; notify_in_fd = false; notify_out_fd = false }

unfoldable make_sockets : Calls → Outcome × Held
make_sockets c =
    let h1 = record nothing { probe_out_fd = true } in
    let h2 = record h1 { notify_in_fd = true; notify_out_fd = true } in
    if not c.socket
    then (Outcome.null, nothing)
    else if not c.setsockopt
    then (Outcome.exit, record h1 { probe_out_fd = false })
    else if not c.socketpair
    then (Outcome.null, record h1 { probe_out_fd = false })
    else if not c.nonblocking
    then (
      Outcome.null,
      record h2 { probe_out_fd = false; notify_in_fd = false; notify_out_fd = false },
    )
    else (Outcome.prober, h2)

-- the destructor
unfoldable destroy : Held → Held
destroy h = record h { notify_in_fd = false; notify_out_fd = false; probe_out_fd = false }

abbrev everything : Held
everything = record { probe_out_fd = true; notify_in_fd = true; notify_out_fd = true }

-- A prober is made exactly if all calls succeed, with its three sockets open, and then its destructor
-- leaves none open. Whichever call fails, no socket stays open, and there is no prober; but where the
-- option of the raw socket cannot be set the process ends.
make_sockets-clean :
    (c : Calls)
    → (make_sockets c ≡ (
        if c.socket && c.setsockopt && c.socketpair && c.nonblocking
        then (Outcome.prober, everything)
        else (if c.socket && not c.setsockopt then Outcome.exit else Outcome.null, nothing)))
      × (destroy (make_sockets c).1 ≡ nothing)
unfolding make_sockets destroy
make_sockets-clean c = (ground arith, ground arith)

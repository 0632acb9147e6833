-- ===== src/Probe/UdpProber/Waking.antt =====
-- The threads that use the UDP prober (spoki/libspoki/src/probe/udp_prober.cpp): others add requests
-- at any time, and the loop's thread takes the bytes of the notification socket, and then handles
-- them. `room` bytes fit into that socket.
use spoki.Prelude.{
  ℕ, ◌+◌, ◌-◌, ◌<◌, ◌≡◌, ◌∙◌, Bool, true, false, ◌||◌, List, [], ◌∷◌, ◌++◌, arith, ltb,
  if◌then◌else◌, is_empty,
}
use spoki.Multiplexing.{Events}
use spoki.Net.{Address, Payload}
use spoki.Probe.Datagrams.{Bytes}
use spoki.Probe.UdpProber.{
  UdpRequest, UdpProber, udp_prober, Effect, add_request, handle_notify_read, Sent,
  handle_probe_write,
}

pub record System : Type 0 where
  pub prober : UdpProber
  pub pipe : ℕ  -- the bytes in the notification socket
  pub notifying : Bool  -- the loop's thread is between `recv` and what follows it

abbrev pub wake : ℕ → List Effect → ℕ → ℕ
wake room [] pipe = pipe
wake room (e ∷ es) pipe = if ltb pipe room then pipe + 1 else pipe

abbrev pub waits_to_write : UdpProber → Bool
waits_to_write p = elim p.probe_events [ Events.pollout ↦ true | _ ↦ false ]

abbrev pub begin : UdpProber → System
begin p = record { prober = p; pipe = 0; notifying = false }

module _ (print : Address → Bytes) (inet_addr : Bytes → ℕ) (room : ℕ) where
  -- The states that a prober gets into, with the requests added so far, and the datagrams sent.
  pub data Reach (p : UdpProber) : System → List UdpRequest → List Sent → Type 0 where
    here : Reach p (begin p) [] []
    added :
        {s : System} {reqs : List UdpRequest} {out : List Sent} (req : UdpRequest)
        → Reach p s reqs out
        → Reach p
            (record s {
              prober = (add_request req s.prober).0;
              pipe = wake room (add_request req s.prober).1 s.pipe;
            })
            (reqs ++ req ∷ [])
            out
    taken :
        {s : System} {reqs : List UdpRequest} {out : List Sent}
        → s.notifying ≡ false
        → Reach p s reqs out
        → Reach p (record s { pipe = s.pipe - 16; notifying = true }) reqs out
    notified :
        {s : System} {reqs : List UdpRequest} {out : List Sent}
        → s.notifying ≡ true
        → Reach p s reqs out
        → Reach p (record s { prober = handle_notify_read s.prober; notifying = false }) reqs out
    written :
        {s : System} {reqs : List UdpRequest} {out : List Sent}
        → s.notifying ≡ false
        → waits_to_write s.prober ≡ true
        → Reach p s reqs out
        → Reach p
            (record s { prober = (handle_probe_write print inet_addr s.prober).0 })
            reqs
            (out ++ (handle_probe_write print inet_addr s.prober).1)

pub record IsAwake (s : System) : Type 0 where
  pub listens : s.prober.notify_events ≡ Events.pollin
  pub writes : s.prober.writing ≡ waits_to_write s.prober
  pub wakes : (is_empty s.prober.requests || s.prober.writing || s.notifying || ltb 0 s.pipe) ≡ true

handle_probe_write-awake :
    (print : Address → Bytes) (inet_addr : Bytes → ℕ) (p : UdpProber)
    → p.notify_events ≡ Events.pollin
    → p.writing ≡ true
    → waits_to_write p ≡ true
    → let q = (handle_probe_write print inet_addr p).0 in
      (q.notify_events ≡ Events.pollin)
      × (q.writing ≡ waits_to_write q)
      × ((is_empty q.requests || q.writing) ≡ true)
unfolding handle_probe_write
handle_probe_write-awake print inet_addr p l w e = ground arith

module _ (print : Address → Bytes) (inet_addr : Bytes → ℕ) (room : ℕ) where
  -- No wakeup is lost, whatever the order in which threads add requests and the loop reads and
  -- writes: while a request waits, the loop waits to write or is about to, or a byte is in the
  -- notification socket; the loop waits to write exactly while `writing_` is set, and always for
  -- notifications. The socket has room for a byte.
  pub Reach-IsAwake :
      (payloads : List (ℕ × Payload)) (reflect : Bool) {s : System} {reqs : List UdpRequest}
      {out : List Sent}
      → 0 < room
      → Reach print inet_addr room (udp_prober payloads reflect) s reqs out
      → IsAwake s
  unfolding udp_prober add_request handle_notify_read
  Reach-IsAwake payloads reflect h here = ground arith
  Reach-IsAwake payloads reflect h (added {s = s} req r) =
      let v = Reach-IsAwake payloads reflect h r in ground arith
  Reach-IsAwake payloads reflect h (taken {s = s} n r) =
      let v = Reach-IsAwake payloads reflect h r in ground arith
  Reach-IsAwake payloads reflect h (notified {s = s} n r) =
      let v = Reach-IsAwake payloads reflect h r in ground arith
  Reach-IsAwake payloads reflect h (written {s = s} n w r) =
      let v = Reach-IsAwake payloads reflect h r in
      ground (arith, handle_probe_write-awake print inet_addr s.prober v.listens (v.writes ∙ w) w)

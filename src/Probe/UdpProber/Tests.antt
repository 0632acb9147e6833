-- ===== src/Probe/UdpProber/Tests.antt =====
-- A UDP prober that two threads give requests, and the prober's theorems at it.
use spoki.Prelude.{ℕ, ◌≡◌, refl, arith, true, false, List, [], ◌∷◌, ◌++◌, map}
use spoki.Net.{Address}
use spoki.Probe.Datagrams.{Bytes}
use spoki.Probe.UdpProber.{
  UdpRequest, UdpProber, udp_prober, make, add_request, Sent, handle_notify_read,
  handle_probe_write, run, ready, failed, send_front,
}
use spoki.Probe.UdpProber.Waking.{
  System, IsAwake, Reach, here, added, taken, notified, written, Reach-IsAwake,
}
use spoki.Probe.UdpProber.Sending.{plain, Reach-sends}

-- stand-ins: an address is printed as one character, and read back
abbrev show : Address → Bytes
show a = a ∷ []

abbrev read_back : Bytes → ℕ
read_back [] = 0
read_back (a ∷ cs) = a

abbrev to_dns : UdpRequest
to_dns = record { saddr = 1; daddr = 2; sport = 40000; dport = 53; payload = [] }

abbrev to_ntp : UdpRequest
to_ntp = record { saddr = 1; daddr = 3; sport = 40001; dport = 123; payload = b'x' ∷ [] }

abbrev prober : UdpProber
prober = make true true

abbrev first_in : UdpProber
first_in = (add_request to_dns prober).0

abbrev both_in : UdpProber
both_in = (add_request to_ntp first_in).0

abbrev told : UdpProber
told = handle_notify_read both_in

abbrev one_left : UdpProber
one_left = (handle_probe_write show read_back told).0

-- one request, the loop takes the byte, the second request comes in between, and one is sent
abbrev last : System
last = record { prober = one_left; pipe = 1; notifying = false }

abbrev out : List Sent
out = plain show read_back true to_dns ∷ []

session : Reach show read_back 8 prober last (to_dns ∷ to_ntp ∷ []) out
unfolding make udp_prober add_request handle_notify_read handle_probe_write send_front
session = written refl refl (notified refl (added to_ntp (taken refl (added to_dns here))))

Reach-IsAwake_example : IsAwake last
unfolding make
Reach-IsAwake_example = Reach-IsAwake show read_back 8 [] true (omega arith) session

Reach-sends_example :
    out ++ map (plain show read_back true) one_left.requests
    ≡ map (plain show read_back true) (to_dns ∷ to_ntp ∷ [])
Reach-sends_example = Reach-sends show read_back 8 true true session

-- a failing poll ends the loop
failing : (run show read_back (failed ∷ ready true true ∷ []) both_in).1 ≡ []
unfolding run
failing = refl

-- a poll that reports both sockets reads and writes in one round
one_round :
    (run show read_back (ready true true ∷ []) both_in).1 ≡ plain show read_back true to_dns ∷ []
unfolding run make udp_prober add_request
one_round = refl

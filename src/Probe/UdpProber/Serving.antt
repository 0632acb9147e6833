-- ===== src/Probe/UdpProber/Serving.antt =====
-- The loop of the UDP prober (spoki/libspoki/src/probe/udp_prober.cpp) gets through its requests.
use spoki.Prelude.{
  ℕ, zero, suc, ◌-◌, ◌≡◌, Bool, true, ◌||◌, List, [], ◌∷◌, ◌++◌, ltb, if◌then◌else◌, is_empty,
}
use spoki.Prelude.Eq.{nat_has_eq}
use spoki.Net.{Address}
use spoki.Probe.Datagrams.{Bytes}
use spoki.Probe.UdpProber.{
  UdpRequest, UdpProber, handle_notify_read, Sent, loop_round, ready, PollResult,
}
use spoki.Probe.UdpProber.Waking.{waits_to_write}
use spoki.Probe.UdpProber.Sending.{IsPlain, plain}

-- one round of the loop on a prober that nothing disturbs: the poll does not fail, the bytes in the
-- notification socket are reported, and the raw socket can take a datagram
abbrev pub polled : UdpProber → ℕ → PollResult
polled p pipe = ready (ltb 0 pipe) (waits_to_write p)

module _ (print : Address → Bytes) (inet_addr : Bytes → ℕ) where
  -- so many rounds of the loop
  unfoldable pub rounds : ℕ → UdpProber → ℕ → UdpProber × List Sent
  rounds zero p pipe = (p, [])
  rounds (suc n) p pipe =
      let once = loop_round print inet_addr (polled p pipe) p in
      let later = rounds n once.0 (pipe - 16) in (later.0, once.1 ++ later.1)

-- the first socket's callback, if it has an event
abbrev notice : Bool → UdpProber → UdpProber
notice a p = if a then handle_notify_read p else p

module _ (print : Address → Bytes) (inet_addr : Bytes → ℕ) (reflect : Bool) where
  -- what a write does to the requests
  abbrev Writes : List UdpRequest → UdpRequest → UdpProber × List Sent → Type 0
  Writes rest next q =
      IsPlain reflect q.0
      × (q.0.requests ≡ rest)
      × ((is_empty rest || waits_to_write q.0) ≡ true)
      × (q.1 ≡ plain print inet_addr reflect next ∷ [])

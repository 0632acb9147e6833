-- ===== src/Cache/Shard/Resets.antt =====
-- The RSTs that are scheduled for handshakes: `rst_scheduled` against the delayed requests that
-- the actor system still holds (src/cache/shard.cpp).
use spoki.Prelude.{
  ℕ, ◌+◌, ◌≡◌, refl, true, List, [], ◌∷◌, ◌++◌, arith, All, All-append, if◌then◌else◌,
}
use spoki.Prelude.Assoc.{has, find-put, find-erase}
use spoki.Net.{Packet, PacketData, Tcp, Endpoint, icmp, tcp, udp}
use spoki.Net.Keys.{endpoint_eq, endpoint_eq_iff, endpoint_has_eq}
use spoki.Probe.{Request}
use spoki.Cache.Shard.{ShardState, Effect, delayed, source, handle_tcp, handle_packet}
use spoki.Cache.Shard.Actor.{target, is_tcp_rst, handle_request}

-- the requests that the effects delay
abbrev pub delays : List Effect → List Request
delays [] = []
delays (delayed d r ∷ es) = r ∷ delays es
delays (e ∷ es) = delays es

-- how many of the requests go to an endpoint
abbrev pub due : Endpoint → List Request → ℕ
due ep [] = 0
due ep (r ∷ rs) = (if endpoint_eq (target r) ep then 1 else 0) + due ep rs

due-append : (ep : Endpoint) (xs ys : List Request) → due ep (xs ++ ys) ≡ due ep xs + due ep ys
due-append ep [] ys = omega arith
due-append ep (x ∷ xs) ys = omega (arith, due-append ep xs ys)

-- The shard and the messages that it has delayed to itself, delivered in any order.
pub record System : Type 0 where
  pub shard : ShardState
  pub pending : List Request

pub data Step : System → System → Type 0 where
  arrive :
      (y : System) (pkt : Packet)
      → Step y (record {
        shard = (handle_packet y.shard pkt).0;
        pending = y.pending ++ delays (handle_packet y.shard pkt).1;
      })
  deliver :
      (s : ShardState) (xs ys : List Request) (r : Request)
      → Step
          (record { shard = s; pending = xs ++ r ∷ ys })
          (record { shard = (handle_request s r).0; pending = xs ++ ys })

pub data Reach (y : System) : System → Type 0 where
  here : Reach y y
  next : {z w : System} → Reach y z → Step z w → Reach y w

-- An endpoint is in `rst_scheduled` exactly while one RST for it is under way, and no other
-- request is ever delayed.
pub record IsSound (y : System) : Type 0 where
  pub one_each :
      (ep : Endpoint) → due ep y.pending ≡ (if has ep y.shard.rst_scheduled then 1 else 0)
  pub only_rst : All (λ r. is_tcp_rst r.probe_method ≡ true) y.pending

handle_tcp-due :
    (s : ShardState) (pkt : Packet) (x : Tcp) (ep : Endpoint)
    → due ep (delays (handle_tcp s pkt x).1) + (if has ep s.rst_scheduled then 1 else 0)
      ≡ (if has ep (handle_tcp s pkt x).0.rst_scheduled then 1 else 0)
unfolding handle_tcp has
handle_tcp-due s pkt x ep = ground (
  arith,
  find-put (source pkt x.sport) ep tt s.rst_scheduled,
  endpoint_eq_iff (source pkt x.sport) ep,
)

handle_packet-due :
    (s : ShardState) (pkt : Packet) (ep : Endpoint)
    → due ep (delays (handle_packet s pkt).1) + (if has ep s.rst_scheduled then 1 else 0)
      ≡ (if has ep (handle_packet s pkt).0.rst_scheduled then 1 else 0)
handle_packet-due s pkt ep = by_data pkt.proto refl
  where
    by_data :
        (d : PacketData)
        → pkt.proto ≡ d
        → due ep (delays (handle_packet s pkt).1) + (if has ep s.rst_scheduled then 1 else 0)
          ≡ (if has ep (handle_packet s pkt).0.rst_scheduled then 1 else 0)
    by_data (icmp x) e = unfold handle_packet in rw (e, handle_packet) (ground arith)
    by_data (tcp x) e = unfold handle_packet in rw (e, handle_packet) (handle_tcp-due s pkt x ep)
    by_data (udp x) e = unfold handle_packet in rw (e, handle_packet) (ground arith)

handle_packet-only_rst :
    (s : ShardState) (pkt : Packet)
    → All (λ r. is_tcp_rst r.probe_method ≡ true) (delays (handle_packet s pkt).1)
unfolding handle_packet
handle_packet-only_rst s pkt = ground arith

handle_request-due :
    (s : ShardState) (r : Request) (ep : Endpoint) (n : ℕ)
    → is_tcp_rst r.probe_method ≡ true
    → n + (if endpoint_eq (target r) ep then 1 else 0) ≡ (if has ep s.rst_scheduled then 1 else 0)
    → n ≡ (if has ep (handle_request s r).0.rst_scheduled then 1 else 0)
unfolding handle_request has
handle_request-due s r ep n m h =
    ground (arith, find-erase (target r) ep s.rst_scheduled, endpoint_eq_iff (target r) ep)

All-middle {ℓ κ} :
    {A : Type ℓ} (P : A → Type κ) (xs ys : List A) (a : A)
    → All P (xs ++ a ∷ ys)
    → P a × All P (xs ++ ys)
All-middle P [] ys a h = h
All-middle P (x ∷ xs) ys a h = let (p, q) = All-middle P xs ys a h.1 in (p, (h.0, q))

Step-IsSound : {y z : System} → Step y z → IsSound y → IsSound z
Step-IsSound (arrive y pkt) v = record {
  one_each = λ ep. omega (
    arith,
    due-append ep y.pending (delays (handle_packet y.shard pkt).1),
    handle_packet-due y.shard pkt ep,
    v.one_each ep,
  );
  only_rst = All-append _ y.pending _ v.only_rst (handle_packet-only_rst y.shard pkt);
}
Step-IsSound (deliver s xs ys r) v = record {
  one_each = λ ep.
      handle_request-due s r ep (due ep (xs ++ ys)) (All-middle _ xs ys r v.only_rst).0
        (omega (arith, due-append ep xs ys, due-append ep xs (r ∷ ys), v.one_each ep));
  only_rst = (All-middle _ xs ys r v.only_rst).1;
}

-- However packets arrive and delayed requests are delivered, an endpoint is marked exactly while
-- one RST for it is under way.
pub Reach-IsSound : {y z : System} → IsSound y → Reach y z → IsSound z
Reach-IsSound v here = v
Reach-IsSound v (next r st) = Step-IsSound st (Reach-IsSound v r)

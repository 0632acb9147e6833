-- ===== src/Probe/UdpProber/Sending.antt =====
-- What the UDP prober sends, and in which order (spoki/libspoki/src/probe/udp_prober.cpp).
use spoki.Prelude.{
  ℕ, ◌≡◌, refl, ap, ◌∙◌, sym, Bool, true, false, List, [], ◌∷◌, ◌++◌, map, arith, if◌then◌else◌,
  append_assoc,
}
use spoki.Prelude.Eq.{nat_has_eq}
use spoki.Net.{Address}
use spoki.Probe.Datagrams.{Bytes}
use spoki.Probe.UdpProber.{
  UdpRequest, UdpProber, make, udp_prober, add_request, handle_notify_read, Sent, wire,
  handle_probe_write, choose_payload, send_front, rest_if_empty, disable, enable,
}
use spoki.Probe.UdpProber.Waking.{System, Reach, here, added, taken, notified, written}

-- no payload is specific to a port, as in the probers that `make` returns
pub record IsPlain (reflect : Bool) (p : UdpProber) : Type 0 where
  pub unspecific : p.payloads ≡ []
  pub mode : p.reflect ≡ reflect
  pub default : (if reflect then 10 ∷ [] else p.default_payload) ≡ 10 ∷ []

module _ (print : Address → Bytes) (inet_addr : Bytes → ℕ) (reflect : Bool) where
  -- the payload that came, or a newline
  abbrev pub plain : UdpRequest → Sent
  plain req = wire print inet_addr (if reflect then req.payload else 10 ∷ []) req

  pub choose_payload-plain :
      (next : UdpRequest) (p : UdpProber)
      → IsPlain reflect p
      → choose_payload next p ≡ (if reflect then next.payload else 10 ∷ [])
  unfolding choose_payload
  choose_payload-plain next p v = rw v.unspecific (by_mode reflect v.mode v.default)
    where
      by_mode :
          (b : Bool)
          → p.reflect ≡ b
          → (if b then 10 ∷ [] else p.default_payload) ≡ 10 ∷ []
          → (if p.reflect then next.payload else p.default_payload)
            ≡ (if b then next.payload else 10 ∷ [])
      by_mode true e d = rw e refl
      by_mode false e d = rw e d

  written-plain :
      (reqs : List UdpRequest) (p : UdpProber)
      → p.requests ≡ reqs
      → IsPlain reflect p
      → let q = handle_probe_write print inet_addr p in
        IsPlain reflect q.0 × (q.1 ++ map plain q.0.requests ≡ map plain reqs)
  unfolding handle_probe_write send_front rest_if_empty disable
  written-plain [] p e v = ground arith
  written-plain (next ∷ rest) p e v = ground (arith, choose_payload-plain next p v)

  handle_probe_write-plain :
      (p : UdpProber)
      → IsPlain reflect p
      → let q = handle_probe_write print inet_addr p in
        IsPlain reflect q.0 × (q.1 ++ map plain q.0.requests ≡ map plain p.requests)
  handle_probe_write-plain p v = written-plain p.requests p refl v

map-snoc :
    {A B : Type 0} (f : A → B) (xs : List A) (x : A) → map f (xs ++ x ∷ []) ≡ map f xs ++ f x ∷ []
map-snoc f [] x = refl
map-snoc f (y ∷ ys) x = ap (◌∷◌ (f y)) (map-snoc f ys x)

make-IsPlain : (service_specific reflect : Bool) → IsPlain reflect (make service_specific reflect)
unfolding make udp_prober
make-IsPlain service_specific true = record {
  unspecific = ground arith;
  mode = refl;
  default = refl;
}
make-IsPlain service_specific false = record {
  unspecific = ground arith;
  mode = refl;
  default = refl;
}

-- the parts of `IsPlain` say nothing of the other fields
pub keep-IsPlain :
    (reflect : Bool) {p : UdpProber} (q : UdpProber)
    → q.payloads ≡ p.payloads
    → q.reflect ≡ p.reflect
    → q.default_payload ≡ p.default_payload
    → IsPlain reflect p
    → IsPlain reflect q
keep-IsPlain reflect q a b c v = record {
  unspecific = a ∙ v.unspecific;
  mode = b ∙ v.mode;
  default = ap (λ z. if reflect then 10 ∷ [] else z) c ∙ v.default;
}

module _ (print : Address → Bytes) (inet_addr : Bytes → ℕ) (room : ℕ) where
  pub Reach-plain :
      (service_specific reflect : Bool) {s : System} {reqs : List UdpRequest} {out : List Sent}
      → Reach print inet_addr room (make service_specific reflect) s reqs out
      → IsPlain reflect s.prober
        × (out ++ map (plain print inet_addr reflect) s.prober.requests
            ≡ map (plain print inet_addr reflect) reqs)
  unfolding add_request handle_notify_read enable
  Reach-plain service_specific reflect here =
      (make-IsPlain service_specific reflect, unfold make udp_prober in refl)
  Reach-plain service_specific reflect (added {s = s} {reqs = reqs} {out = out} req r) =
      let f = plain print inet_addr reflect in
      let (v, e) = Reach-plain service_specific reflect r in
      (
        keep-IsPlain reflect _ refl refl refl v,
        ap (λ z. out ++ z) (map-snoc f s.prober.requests req)
            ∙ sym (append_assoc out (map f s.prober.requests) (f req ∷ []))
            ∙ ap (λ z. z ++ f req ∷ []) e
            ∙ sym (map-snoc f reqs req),
      )
  Reach-plain service_specific reflect (taken n r) = Reach-plain service_specific reflect r
  Reach-plain service_specific reflect (notified {s = s} n r) =
      let (v, e) = Reach-plain service_specific reflect r in
      (keep-IsPlain reflect _ refl refl refl v, e)
  Reach-plain service_specific reflect (written {s = s} {out = out} n w r) =
      let (v, e) = Reach-plain service_specific reflect r in
      let (v', e') = handle_probe_write-plain print inet_addr reflect s.prober v in
      (v', append_assoc out _ _ ∙ ap (λ z. out ++ z) e' ∙ e)

  -- What a prober that `make` returns sent, followed by the datagrams for the requests that wait, is
  -- the datagrams for all requests that were added, in their order, whatever threads added them: each
  -- carries a newline, or with `reflect` the payload that came.
  pub Reach-sends :
      (service_specific reflect : Bool) {s : System} {reqs : List UdpRequest} {out : List Sent}
      → Reach print inet_addr room (make service_specific reflect) s reqs out
      → out ++ map (plain print inet_addr reflect) s.prober.requests
        ≡ map (plain print inet_addr reflect) reqs
  Reach-sends service_specific reflect r = (Reach-plain service_specific reflect r).1

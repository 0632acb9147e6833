-- ===== src/Tools/UdpProcessor/Requests.antt =====
-- How the probe of an address takes the front of its queue (spoki/tools/src/udp_processor.cpp).
use spoki.Prelude.{
  ℕ, ◌≡◌, refl, sym, ap, ◌∙◌, Bool, true, false, List, [], ◌∷◌, ◌++◌, arith, if-both, ◌==◌, ==_iff,
  if◌then◌else◌, append_assoc,
}
use mathlib.Core.Path.{subst}
use spoki.Prelude.Eq.{nat_has_eq}
use spoki.Prelude.Assoc.{put, find-put}
use spoki.Net.{Address}
use spoki.Tools.UdpProcessor.{Target, Probe, Ups, Effect, queue_of, start_probe}

unfoldable pub targets_to : Address → List Target → List Target
targets_to a [] = []
targets_to a (ep ∷ eps) = let rest = targets_to a eps in if ep.daddr == a then ep ∷ rest else rest

-- the first requests for probes of `a`, in their order
unfoldable pub requested_to : Address → List Effect → List Target
requested_to a [] = []
requested_to a (Effect.requested ep ∷ es) =
    let rest = requested_to a es in if ep.daddr == a then ep ∷ rest else rest
requested_to a (_ ∷ es) = requested_to a es

abbrev pub AllTo : Address → List Target → Type 0
AllTo a [] = Unit
AllTo a (ep ∷ eps) = (ep.daddr ≡ a) × AllTo a eps

unfoldable pub Keyed : Ups → Type 0
Keyed s = (a : Address) → AllTo a (queue_of a s)

-- what a part of a handler does to the queues: the requests come off their fronts
pub record Ordered (s t : Ups) (es : List Effect) : Type 0 where
  pub keyed : Keyed t
  pub in_order : (a : Address) → queue_of a s ≡ requested_to a es ++ queue_of a t

pub requested_to-append :
    (a : Address) (es fs : List Effect)
    → requested_to a (es ++ fs) ≡ requested_to a es ++ requested_to a fs
unfolding requested_to
requested_to-append a [] fs = refl
requested_to-append a (Effect.requested ep ∷ es) fs = ground (arith, requested_to-append a es fs)
requested_to-append a (Effect.retransmitted ep ∷ es) fs = requested_to-append a es fs
requested_to-append a (Effect.more n ∷ es) fs = requested_to-append a es fs
requested_to-append a (Effect.header ∷ es) fs = requested_to-append a es fs
requested_to-append a (Effect.row x n p pl ∷ es) fs = requested_to-append a es fs
requested_to-append a (Effect.next_tick ∷ es) fs = requested_to-append a es fs
requested_to-append a (Effect.next_rotate ∷ es) fs = requested_to-append a es fs
requested_to-append a (Effect.done ∷ es) fs = requested_to-append a es fs
requested_to-append a (Effect.quit ∷ es) fs = requested_to-append a es fs

pub Ordered-then :
    (s t u : Ups) (es fs : List Effect) → Ordered s t es → Ordered t u fs → Ordered s u (es ++ fs)
Ordered-then s t u es fs o p = record {
  keyed = p.keyed;
  in_order = λ a.
      o.in_order a
      ∙ ap (λ x. requested_to a es ++ x) (p.in_order a)
      ∙ sym (append_assoc (requested_to a es) (requested_to a fs) (queue_of a u))
      ∙ ap (λ x. x ++ queue_of a u) (sym (requested_to-append a es fs));
}

-- a part that leaves the queues alone, and requests nothing
pub apart :
    (s t : Ups) (es : List Effect)
    → Keyed s
    → t.pending ≡ s.pending
    → ((a : Address) → requested_to a es ≡ [])
    → Ordered s t es
unfolding Keyed queue_of
apart s t es k q none_requested = record {
  keyed = λ a. rw q (k a);
  in_order = λ a. rw (q, none_requested a) refl;
}

pub queue_of-put :
    (a b : Address) (q : List Target) (s : Ups) (p : List (Address × Probe))
    → queue_of b (record s { pending = put a q s.pending; in_progress = p })
      ≡ (if a == b then q else queue_of b s)
unfolding queue_of
queue_of-put a b q s p = ground (arith, find-put a b q s.pending)

unfoldable pub OrderedTo : Ups → Ups × List Effect → Type 0
OrderedTo s r = Ordered s r.0 r.1

pub start_probe-empty :
    (now : ℕ) (a : Address) (s : Ups)
    → queue_of a s ≡ []
    → start_probe now a s ≡ (record s { pending = put a [] s.pending }, [])
unfolding start_probe
start_probe-empty now a s e = rw (e, start_probe) refl

pub start_probe-front :
    (now : ℕ) (a : Address) (s : Ups) (next : Target) (rest : List Target)
    → queue_of a s ≡ next ∷ rest
    → start_probe now a s ≡ (
      record s {
        pending = put a rest s.pending;
        in_progress = put next.daddr (record { target = next; since = now }) s.in_progress;
      },
      Effect.requested next ∷ [],
    )
unfolding start_probe
start_probe-front now a s next rest e = rw (e, start_probe) refl

pub put_rest-Keyed :
    (a : Address) (q : List Target) (s : Ups) (p : List (Address × Probe))
    → AllTo a q
    → Keyed s
    → Keyed (record s { pending = put a q s.pending; in_progress = p })
unfolding Keyed
put_rest-Keyed a q s p h k b = subst (AllTo b) (sym (queue_of-put a b q s p)) (by_key (a == b) refl)
  where
    by_key : (e : Bool) → (a == b) ≡ e → AllTo b (if e then q else queue_of b s)
    by_key true e = subst (λ c. AllTo c q) ((==_iff a b).0 e) h
    by_key false e = k b

put_rest-in_order :
    (a : Address) (front rest : List Target) (s : Ups) (p : List (Address × Probe))
    (es : List Effect)
    → queue_of a s ≡ front ++ rest
    → ((b : Address) → requested_to b es ≡ (if a == b then front else []))
    → (b : Address)
    → queue_of b s
      ≡ requested_to b es
        ++ queue_of b (record s { pending = put a rest s.pending; in_progress = p })
put_rest-in_order a front rest s p es e r b =
    by_key (a == b) refl
    ∙ ap (λ x. x ++ (if a == b then rest else queue_of b s)) (sym (r b))
    ∙ ap (λ x. requested_to b es ++ x) (sym (queue_of-put a b rest s p))
  where
    by_key :
        (c : Bool)
        → (a == b) ≡ c
        → queue_of b s ≡ (if a == b then front else []) ++ (if a == b then rest else queue_of b s)
    by_key true h = rw h (subst (λ c. queue_of c s ≡ front ++ rest) ((==_iff a b).0 h) e)
    by_key false h = rw h refl

requested_to-one :
    (a b : Address) (ep : Target)
    → ep.daddr ≡ a
    → requested_to b (Effect.requested ep ∷ []) ≡ (if a == b then ep ∷ [] else [])
unfolding requested_to
requested_to-one a b ep h = rw h refl

pub start_probe-Ordered :
    (now : ℕ) (a : Address) (s : Ups) → Keyed s → OrderedTo s (start_probe now a s)
unfolding OrderedTo Keyed requested_to
start_probe-Ordered now a s k = by_queue (queue_of a s) refl
  where
    by_queue : (q : List Target) → queue_of a s ≡ q → OrderedTo s (start_probe now a s)
    by_queue [] e = subst (OrderedTo s) (sym (start_probe-empty now a s e)) (record {
      keyed = put_rest-Keyed a [] s s.in_progress tt k;
      in_order =
          put_rest-in_order a [] [] s s.in_progress [] e
            (λ b. if-both (λ (x : List Target). [] ≡ x) (a == b) refl refl);
    })
    by_queue (next ∷ rest) e =
        subst (OrderedTo s) (sym (start_probe-front now a s next rest e)) (record {
          keyed =
              put_rest-Keyed a rest s
                (put next.daddr (record { target = next; since = now }) s.in_progress)
                (subst (AllTo a) e (k a)).1 k;
          in_order =
              put_rest-in_order a (next ∷ []) rest s
                (put next.daddr (record { target = next; since = now }) s.in_progress)
                (Effect.requested next ∷ []) e
                (λ b. requested_to-one a b next (subst (AllTo a) e (k a)).0);
        })

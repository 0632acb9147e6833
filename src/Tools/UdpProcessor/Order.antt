-- ===== src/Tools/UdpProcessor/Order.antt =====
-- In which order targets are probed (spoki/tools/src/udp_processor.cpp).
use spoki.Prelude.{
  ℕ, ◌≡◌, refl, sym, ap, ◌∙◌, Bool, true, false, List, [], ◌∷◌, ◌++◌, arith, if-both, ◌==◌, ==_iff,
  if◌then◌else◌, append_assoc, append-nil, is_empty,
}
use spoki.Prelude.Eq.{nat_has_eq}
use spoki.Prelude.Assoc.{find}
use spoki.Net.{Address}
use spoki.Tools.UdpProcessor.{
  Target, Ups, Effect, next_tick, queue_of, new_target, new_targets, start_probes, keys,
  expire_each, handle_packets, request_more, next_out_file, then_do, Message, event, targets, tick,
  rotate, start, handle, handle_all, udp_processor,
}
use spoki.Tools.UdpProcessor.Requests.{
  targets_to, requested_to, AllTo, Keyed, Ordered, requested_to-append, Ordered-then, apart,
  queue_of-put, OrderedTo, put_rest-Keyed,
}
use spoki.Tools.UdpProcessor.Steps.{
  OrderedTo-then, start_each-Ordered, handle_packets-Ordered, expire_each-Ordered,
  request_more-Ordered, next_out_file-Ordered,
}

AllTo-append : (a : Address) (xs ys : List Target) → AllTo a xs → AllTo a ys → AllTo a (xs ++ ys)
AllTo-append a [] ys h k = k
AllTo-append a (x ∷ xs) ys h k = (h.0, AllTo-append a xs ys h.1 k)

new_target-queue :
    (ep : Target) (s : Ups) (a : Address)
    → queue_of a (new_target ep s) ≡ queue_of a s ++ targets_to a (ep ∷ [])
unfolding new_target targets_to
new_target-queue ep s a =
    queue_of-put ep.daddr a (queue_of ep.daddr s ++ ep ∷ []) s s.in_progress
    ∙ by_key (ep.daddr == a) refl
  where
    by_key :
        (c : Bool)
        → (ep.daddr == a) ≡ c
        → (if ep.daddr == a then queue_of ep.daddr s ++ ep ∷ [] else queue_of a s)
          ≡ queue_of a s ++ (if ep.daddr == a then ep ∷ [] else [])
    by_key true h = rw h (ap (λ c. queue_of c s ++ ep ∷ []) ((==_iff ep.daddr a).0 h))
    by_key false h = rw h (sym (append-nil (queue_of a s)))

new_target-Keyed : (ep : Target) (s : Ups) → Keyed s → Keyed (new_target ep s)
unfolding Keyed new_target
new_target-Keyed ep s k =
    put_rest-Keyed ep.daddr (queue_of ep.daddr s ++ ep ∷ []) s s.in_progress
      (AllTo-append ep.daddr (queue_of ep.daddr s) (ep ∷ []) (k ep.daddr) (refl, tt)) k

pub new_targets-Keyed : (eps : List Target) (s : Ups) → Keyed s → Keyed (new_targets eps s)
unfolding new_targets
new_targets-Keyed [] s k = k
new_targets-Keyed (ep ∷ eps) s k = new_targets-Keyed eps (new_target ep s) (new_target-Keyed ep s k)

targets_to-append :
    (a : Address) (xs ys : List Target)
    → targets_to a (xs ++ ys) ≡ targets_to a xs ++ targets_to a ys
unfolding targets_to
targets_to-append a [] ys = refl
targets_to-append a (x ∷ xs) ys = ground (arith, targets_to-append a xs ys)

new_targets-queue :
    (eps : List Target) (s : Ups) (a : Address)
    → queue_of a (new_targets eps s) ≡ queue_of a s ++ targets_to a eps
unfolding new_targets targets_to
new_targets-queue [] s a = sym (append-nil (queue_of a s))
new_targets-queue (ep ∷ eps) s a =
    new_targets-queue eps (new_target ep s) a
    ∙ ap (λ x. x ++ targets_to a eps) (new_target-queue ep s a)
    ∙ append_assoc (queue_of a s) (targets_to a (ep ∷ [])) (targets_to a eps)
    ∙ ap (λ x. queue_of a s ++ x) (sym (targets_to-append a (ep ∷ []) eps))

abbrev pub given : Message → List Target
given (targets eps) = eps
given _ = []

pub received : List (ℕ × Message) → List Target
received [] = []
received ((now, m) ∷ ms) = given m ++ received ms

-- what a handler does: the targets it is given go to the back of the queues, and the requests come off
-- the fronts
pub record Handled (s : Ups) (m : Message) (r : Ups × List Effect) : Type 0 where
  pub keyed : Keyed r.0
  pub in_order :
      (a : Address) → queue_of a s ++ targets_to a (given m) ≡ requested_to a r.1 ++ queue_of a r.0

no_targets :
    (s : Ups) (m : Message) (r : Ups × List Effect) → given m ≡ [] → OrderedTo s r → Handled s m r
unfolding OrderedTo targets_to
no_targets s m r q o = record {
  keyed = o.keyed;
  in_order = λ a. rw q (append-nil (queue_of a s) ∙ o.in_order a);
}

start_probes-Ordered : (now : ℕ) (s : Ups) → Keyed s → OrderedTo s (start_probes now s)
unfolding start_probes
start_probes-Ordered now s k = start_each-Ordered now (keys s.pending) s k

-- the source is asked again after new targets
ask_again :
    (b : Bool) (t : Ups)
    → Keyed t
    → OrderedTo t (request_more (if b then t else record t { asked = false }))
unfolding OrderedTo requested_to
ask_again b t k =
    let u : Ups = record t { asked = false } in
    let told : Ordered t u [] = apart t u [] k refl (λ a. refl) in
    if-both (λ x. OrderedTo t (request_more x)) b (request_more-Ordered t k)
      (Ordered-then t u _ [] _ told (request_more-Ordered u told.keyed))

targets-Ordered :
    (now : ℕ) (eps : List Target) (s : Ups)
    → Keyed s
    → OrderedTo (new_targets eps s) (handle now (targets eps) s)
unfolding handle start_probes
targets-Ordered now eps s k =
    let t = new_targets eps s in
    let kt = new_targets-Keyed eps s k in
    OrderedTo-then t (start_probes now t)
      (λ r. request_more (if is_empty eps then r else record r { asked = false }))
      (start_each-Ordered now (keys t.pending) t kt)
      (ask_again (is_empty eps) (start_probes now t).0)

pub handle-Handled : (now : ℕ) (m : Message) (s : Ups) → Keyed s → Handled s m (handle now m s)
unfolding handle start_probes requested_to OrderedTo
handle-Handled now (event packets) s k = no_targets s (event packets) _ refl (
    OrderedTo-then s (handle_packets now packets s) request_more
      (handle_packets-Ordered now packets s k) (request_more-Ordered _))
handle-Handled now (targets eps) s k =
    let o = targets-Ordered now eps s k in
    record { keyed = o.keyed; in_order = λ a. sym (new_targets-queue eps s a) ∙ o.in_order a }
handle-Handled now tick s k =
    let expired = expire_each now s.in_progress s in
    let started = then_do expired (start_probes now) in
    let asked = then_do started request_more in
    let o1 : OrderedTo s started =
      OrderedTo-then s expired (start_probes now) (expire_each-Ordered now s.in_progress s k)
        (start_probes-Ordered now expired.0) in
    let o2 : OrderedTo s asked =
      OrderedTo-then s started request_more o1 (request_more-Ordered started.0) in
    no_targets s tick _ refl (
      OrderedTo-then s asked (λ t. (t, next_tick ∷ [])) o2
        (λ kr. apart asked.0 asked.0 (next_tick ∷ []) kr refl (λ a. refl)))
handle-Handled now (rotate opens) s k =
    no_targets s (rotate opens) _ refl (next_out_file-Ordered opens s k)
handle-Handled now start s k = no_targets s start _ refl (request_more-Ordered s k)
handle-Handled now Message.done s k =
    no_targets s Message.done _ refl (apart s s _ k refl (λ a. refl))

pub handle_all-Keyed : (ms : List (ℕ × Message)) (s : Ups) → Keyed s → Keyed (handle_all ms s).0
unfolding handle_all
handle_all-Keyed [] s k = k
handle_all-Keyed ((now, m) ∷ ms) s k =
    handle_all-Keyed ms (handle now m s).0 (handle-Handled now m s k).keyed

handle_all-queue :
    (ms : List (ℕ × Message)) (s : Ups) (a : Address)
    → Keyed s
    → queue_of a s ++ targets_to a (received ms)
      ≡ requested_to a (handle_all ms s).1 ++ queue_of a (handle_all ms s).0
unfolding handle_all received targets_to requested_to
handle_all-queue [] s a k = append-nil (queue_of a s)
handle_all-queue ((now, m) ∷ ms) s a k =
    let once = handle now m s in
    let h = handle-Handled now m s k in
    ap (λ x. queue_of a s ++ x) (targets_to-append a (given m) (received ms))
    ∙ sym (append_assoc (queue_of a s) (targets_to a (given m)) (targets_to a (received ms)))
    ∙ ap (λ x. x ++ targets_to a (received ms)) (h.in_order a)
    ∙ append_assoc (requested_to a once.1) (queue_of a once.0) (targets_to a (received ms))
    ∙ ap (λ x. requested_to a once.1 ++ x) (handle_all-queue ms once.0 a h.keyed)
    ∙ sym (append_assoc (requested_to a once.1) (requested_to a (handle_all ms once.0).1) _)
    ∙ ap (λ x. x ++ queue_of a (handle_all ms once.0).0)
        (sym (requested_to-append a once.1 (handle_all ms once.0).1))

-- Whatever messages come, at whatever times: the targets of an address are probed in the order in which
-- they come, each is requested for the first time exactly once, and those that are not yet requested
-- are the queue of the address.
pub handle_all-in_order :
    (opens : Bool) (ms : List (ℕ × Message)) (a : Address)
    → let r = handle_all ms (udp_processor opens).0 in
      targets_to a (received ms) ≡ requested_to a r.1 ++ queue_of a r.0
unfolding Keyed queue_of find udp_processor next_out_file then_do
handle_all-in_order opens ms a = handle_all-queue ms (udp_processor opens).0 a (λ b. tt)

-- ===== src/Tools/UdpProcessor/Advancing.antt =====
-- How a reply moves the queue of its address on (spoki/tools/src/udp_processor.cpp).
use spoki.Prelude.{ℕ, ◌≡◌, none, some, List, [], ◌∷◌}
use spoki.Prelude.Eq.{nat_has_eq}
use spoki.Prelude.Assoc.{find}
use spoki.Net.{Address}
use spoki.Tools.UdpProcessor.{Target, Ups, Effect, queue_of}

-- where the queue `q` of `a` has moved on: its front is probed from `now` on, and the rest waits; or no
-- probe to `a` is in progress, if it was empty
pub data IsMovedOn (now : ℕ) (a : Address) : List Target → Ups → Type 0 where
  at_end : {t : Ups} → find a t.in_progress ≡ none → queue_of a t ≡ [] → IsMovedOn now a [] t
  to_next :
      {t : Ups} {next : Target} {rest : List Target}
      → find a t.in_progress ≡ some (record { target = next; since = now })
      → queue_of a t ≡ rest
      → IsMovedOn now a (next ∷ rest) t

abbrev pub asked_for : List Target → List Effect
asked_for [] = []
asked_for (next ∷ rest) = Effect.requested next ∷ []

MovesOn : ℕ → Address → List Target → Ups × List Effect → Type 0
MovesOn now a q r = IsMovedOn now a q r.0 × (r.1 ≡ asked_for q)

-- ===== src/Scamper/Manager/Tests.antt =====
-- Two requests for a target and their reply, and the manager's theorems at them.
use spoki.Prelude.{ℕ, ◌≡◌, refl, [], arith, true}
use spoki.Prelude.Eq.{nat_has_eq}
use spoki.Prelude.Assoc.{find, has, put}
use spoki.Net.{TargetKey}
use spoki.Net.Keys.{target_key_has_eq}
use spoki.Probe.{Request, empty_request}
use spoki.Scamper.Manager.{MgntData, request, manager, handle}
use spoki.Scamper.Manager.Targets.{IsMatched, handle-IsMatched}

abbrev request_to : ℕ → ℕ → Request
request_to daddr id = record empty_request { daddr = daddr; user_id = id }

abbrev asked : MgntData
asked = (handle (request (request_to 9 1) true) manager).0

-- the second request for the target is dropped
asked_twice : (handle (request (request_to 9 2) true) asked).1 ≡ []
unfolding handle manager has put find
asked_twice = refl

manager-IsMatched : IsMatched manager
unfolding manager find has
manager-IsMatched = record {
  in_set = λ id key. ground arith;
  own = λ id id' key. ground arith;
  owner = λ key h. (0, ground arith);
}

handle-IsMatched_example : IsMatched asked
unfolding manager find
handle-IsMatched_example =
    handle-IsMatched (request (request_to 9 1) true) manager refl manager-IsMatched

abbrev key : TargetKey
key = record { saddr = 9; is_scanner_like = true }

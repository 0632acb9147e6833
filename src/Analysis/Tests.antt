-- ===== src/Analysis/Tests.antt =====
-- Runs of the classifiers, and their theorems at concrete packets.
use spoki.Prelude.{ℕ, ◌≡◌, refl, List, [], ◌∷◌, map, none}
use spoki.Prelude.Assoc.{find, put}
use spoki.Net.{Packet, icmp, IcmpType}
use spoki.Analysis.{Task, task, constant, monotonic, random}
use spoki.Analysis.Ipid.{ipid_distances}
use spoki.Analysis.Classify.{trivial, midarmm, count_id, histogram, exceeds}

abbrev with_id : ℕ → Packet
with_id id = record {
  saddr = 1;
  daddr = 2;
  ipid = id;
  ttl = 64;
  observed = 0;
  proto = icmp (record { type = IcmpType.echo_reply; unreachable = none });
}

abbrev probed : List ℕ → Task
probed ids = task (with_id 9) (map with_id ids)

classified :
    (trivial (probed (65530 ∷ 65534 ∷ 4 ∷ [])) ≡ monotonic)
    × (trivial (probed (1 ∷ 30000 ∷ 2 ∷ [])) ≡ random)
    × (midarmm (probed (5 ∷ 5 ∷ 5 ∷ 9 ∷ [])) ≡ constant)
unfolding trivial midarmm ipid_distances exceeds histogram count_id find put
classified = (refl, refl, refl)

-- 65535 and 0 are neighbours of a counter, and are taken for one value
wrap_is_constant : trivial (probed (65535 ∷ 0 ∷ [])) ≡ constant
unfolding trivial ipid_distances
wrap_is_constant = refl

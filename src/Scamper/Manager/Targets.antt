-- ===== src/Scamper/Manager/Targets.antt =====
-- A target is probed by one request at a time (spoki/libspoki/src/scamper/manager.cpp).
use spoki.Prelude.{ℕ, ◌≡◌, Bool, true, false, Bool-cases, inl, inr, Option, none, some, arith}
use spoki.Prelude.Eq.{nat_has_eq}
use spoki.Prelude.Assoc.{find, has, put, find-put, find-erase, has-put}
use spoki.Net.{TargetKey}
use spoki.Net.Keys.{target_key_has_eq, target_key_eq_iff}
use spoki.Probe.{Request}
use spoki.Scamper.Manager.{
  MgntData, Message, request, plain_request, stats, probed, collect_start, collect_stop, tick,
  request_target, key_of, handle_probed, handle,
}

-- Each target in the set is the one of a user id in flight, and each user id in flight has its own
-- target in the set.
pub record IsMatched (s : MgntData) : Type 0 where
  pub in_set : (id : ℕ) (key : TargetKey) → find id s.userids ≡ some key → has key s.targets ≡ true
  pub own :
      (id id' : ℕ) (key : TargetKey)
      → find id s.userids ≡ some key
      → find id' s.userids ≡ some key
      → id ≡ id'
  pub owner :
      (key : TargetKey) → has key s.targets ≡ true → (id : ℕ) × (find id s.userids ≡ some key)

-- what is expected: a request brings a user id that is not in flight, a reply one that is
abbrev pub Expected : Message → MgntData → Type 0
Expected (request req b) s = find req.user_id s.userids ≡ none
Expected (plain_request req) s = find req.user_id s.userids ≡ none
Expected (probed id) s = has id s.userids ≡ true
Expected _ s = Unit

request_target-owner :
    (req : Request) (b : Bool) (s : MgntData)
    → find req.user_id s.userids ≡ none
    → IsMatched s
    → (k : TargetKey) → has k (request_target req b s).0.targets ≡ true
    → (id : ℕ) × (find id (request_target req b s).0.userids ≡ some k)
unfolding request_target
request_target-owner req b s f v k h =
    let key : TargetKey = record { saddr = req.daddr; is_scanner_like = b } in
    elim (Bool-cases (has k s.targets)) [
      | inl old ↦
          let (id, p) = v.owner k old in (id, ground (arith, find-put req.user_id id key s.userids))
      | inr new ↦ (
        req.user_id,
        ground (
          arith,
          has-put key k tt s.targets,
          target_key_eq_iff key k,
          find-put req.user_id req.user_id key s.userids,
        ),
      )
    ]

request_target-IsMatched :
    (req : Request) (b : Bool) (s : MgntData)
    → find req.user_id s.userids ≡ none
    → IsMatched s
    → IsMatched (request_target req b s).0
unfolding request_target
request_target-IsMatched req b s f v =
    let key : TargetKey = record { saddr = req.daddr; is_scanner_like = b } in
    record {
      in_set = λ id k. ground (
        arith,
        v.in_set id k,
        find-put req.user_id id key s.userids,
        has-put key k tt s.targets,
        target_key_eq_iff key k,
      );
      own = λ id id' k. ground (
        arith,
        v.own id id' k,
        v.in_set id key,
        v.in_set id' key,
        find-put req.user_id id key s.userids,
        find-put req.user_id id' key s.userids,
      );
      owner = request_target-owner req b s f v;
    }

key_of-find :
    (id : ℕ) (s : MgntData) → has id s.userids ≡ true → find id s.userids ≡ some (key_of id s)
unfolding key_of has
key_of-find id s h = ground arith

handle_probed-owner :
    (id : ℕ) (s : MgntData)
    → has id s.userids ≡ true
    → IsMatched s
    → (k : TargetKey) → has k (handle_probed id s).0.targets ≡ true
    → (j : ℕ) × (find j (handle_probed id s).0.userids ≡ some k)
unfolding handle_probed has
handle_probed-owner id s h v k g =
    let key = key_of id s in
    let old : has k s.targets ≡ true = ground (arith, find-erase key k s.targets) in
    let (j, p) = v.owner k old in
    (
      j,
      ground (
        arith,
        find-erase key k s.targets,
        find-erase id j s.userids,
        key_of-find id s h,
        target_key_eq_iff key k,
      ),
    )

handle_probed-IsMatched :
    (id : ℕ) (s : MgntData)
    → has id s.userids ≡ true
    → IsMatched s
    → IsMatched (handle_probed id s).0
unfolding handle_probed has
handle_probed-IsMatched id s h v =
    let key = key_of id s in
    record {
      in_set = λ j k. ground (
        arith,
        v.in_set j k,
        key_of-find id s h,
        v.own id j key,
        find-erase id j s.userids,
        find-erase key k s.targets,
        target_key_eq_iff key k,
      );
      own = λ i j k.
          ground (arith, v.own i j k, find-erase id i s.userids, find-erase id j s.userids);
      owner = handle_probed-owner id s h v;
    }

same_tables :
    {s : MgntData} {pps rps queue_size : ℕ} {collector : Option ℕ}
    → IsMatched s
    → IsMatched (record s { pps = pps; rps = rps; queue_size = queue_size; collector = collector })
same_tables v = record { in_set = v.in_set; own = v.own; owner = v.owner }

-- Targets and user ids in flight stay matched, one to one, by every message: a request with a fresh
-- user id, a reply to a user id in flight, and any other message.
pub handle-IsMatched :
    (m : Message) (s : MgntData) → Expected m s → IsMatched s → IsMatched (handle m s).0
unfolding handle
handle-IsMatched (request req b) s f v = request_target-IsMatched req b s f v
handle-IsMatched (plain_request req) s f v = request_target-IsMatched req false s f v
handle-IsMatched (probed id) s h v = handle_probed-IsMatched id s h v
handle-IsMatched (stats n q) s f v = same_tables v
handle-IsMatched (collect_start c) s f v = same_tables v
handle-IsMatched collect_stop s f v = v
handle-IsMatched tick s f v = same_tables v

-- A request with a fresh user id for a target that is not in flight, followed by the reply to it,
-- leaves the targets and user ids in flight as they were: the target can be probed again.
handle_probed-request :
    (req : Request) (b : Bool) (s : MgntData)
    → find req.user_id s.userids ≡ none
    → has (record { saddr = req.daddr; is_scanner_like = b }) s.targets ≡ false
    → (k : TargetKey) (id : ℕ)
    → (find k (handle_probed req.user_id (request_target req b s).0).0.targets ≡ find k s.targets)
      × (find id (handle_probed req.user_id (request_target req b s).0).0.userids
          ≡ find id s.userids)
unfolding handle_probed request_target key_of has
handle_probed-request req b s f h k id =
    let key : TargetKey = record { saddr = req.daddr; is_scanner_like = b } in
    let user_id = req.user_id in
    let m = put user_id key s.userids in
    let t = put key tt s.targets in
    let own_key : find user_id m ≡ some key =
      ground (arith, find-put user_id user_id key s.userids) in
    rw (h, key_of, own_key)
      (
        ground (arith, find-erase key k t, find-put key k tt s.targets, target_key_eq_iff key k),
        ground (arith, find-erase user_id id m, find-put user_id id key s.userids),
      )

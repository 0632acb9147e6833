-- ===== src/Scamper/Manager.antt =====
-- `scamper::manager` (spoki/libspoki/src/scamper/manager.cpp): which targets are being probed, and
-- for which user id.
pub mod Targets
mod Tests
use spoki.Prelude.{ℕ, ◌+◌, Bool, true, false, Option, none, some, List, [], ◌∷◌, if◌then◌else◌}
use spoki.Prelude.Words.{u32}
use spoki.Prelude.Eq.{nat_has_eq}
use spoki.Prelude.Assoc.{find, has, put, erase}
use spoki.Net.{TargetKey}
use spoki.Net.Keys.{target_key_has_eq}
use spoki.Probe.{Request}

-- `mgnt_data`; the sets are maps to the unit
pub record MgntData : Type 0 where
  pub pps : ℕ  -- uint32_t
  pub rps : ℕ  -- uint32_t
  pub queue_size : ℕ
  pub targets : List (TargetKey × Unit {0})
  pub userids : List (ℕ × TargetKey)
  pub collector : Option ℕ

-- what the manager does outside of its state
pub data Effect : Type 0 where
  probe : Request → Effect
  reply : Option ℕ → ℕ → Effect  -- to a collector, of this user id
  done : Option ℕ → Effect
  tick_later : Effect
  print : ℕ → ℕ → ℕ → Effect

pub data Message : Type 0 where
  request : Request → Bool → Message
  plain_request : Request → Message
  stats : ℕ → ℕ → Message
  probed : ℕ → Message  -- a reply, by its user id
  collect_start : ℕ → Message
  collect_stop : Message
  tick : Message

-- `manager_with_scamper`; the collector is not set yet
unfoldable pub manager : MgntData
manager = record { pps = 0; rps = 0; queue_size = 0; targets = []; userids = []; collector = none }

-- a target that is not being probed is passed to the driver
unfoldable pub request_target : Request → Bool → MgntData → MgntData × List Effect
unfolding has put
request_target req is_irregular s =
    let key : TargetKey = record { saddr = req.daddr; is_scanner_like = is_irregular } in
    if has key s.targets then (s, []) else (
      record s {
        rps = u32 (s.rps + 1);
        targets = put key tt s.targets;
        userids = put req.user_id key s.userids;
      },
      probe req ∷ [],
    )

-- `s.userids[rep.userid]`: an unknown user id stands for the key of the address 0
abbrev pub default_key : TargetKey
default_key = record { saddr = 0; is_scanner_like = false }

unfoldable pub key_of : ℕ → MgntData → TargetKey
unfolding find
key_of userid s = elim (find userid s.userids) [ none ↦ default_key | some key ↦ key ]

-- a reply frees its target
unfoldable pub handle_probed : ℕ → MgntData → MgntData × List Effect
unfolding key_of erase
handle_probed userid s = (
  record s { targets = erase (key_of userid s) s.targets; userids = erase userid s.userids },
  reply s.collector userid ∷ [],
)

unfoldable pub handle : Message → MgntData → MgntData × List Effect
unfolding request_target handle_probed
handle (request req is_irregular) s = request_target req is_irregular s
handle (plain_request req) s = request_target req false s
handle (stats sent_probes queue_size) s =
    (record s { pps = u32 (s.pps + sent_probes); queue_size = queue_size }, [])
handle (probed userid) s = handle_probed userid s
handle (collect_start handler) s = (record s { collector = some handler }, done s.collector ∷ [])
handle collect_stop s = (s, done s.collector ∷ [])
handle tick s = (record s { pps = 0; rps = 0 }, tick_later ∷ print s.rps s.pps s.queue_size ∷ [])

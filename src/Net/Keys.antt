-- ===== src/Net/Keys.antt =====
-- The keys that are read off a packet: `get_key` and `five_tuple` of src/packet.cpp, and the
-- equality operators of target_key.hpp, net/endpoint.hpp and packet.hpp.
use spoki.Prelude.{◌≡◌, Bool, true, false, ◌&&◌, ◌||◌, ◌↔◌, arith, ltb, ◌==◌, is_empty}
use spoki.Prelude.Eq.{HasEq}
use spoki.Net.{Protocol, Packet, TargetKey, Endpoint, FiveTuple, icmp, tcp, udp}

-- the `vis_key_builder` visitor
unfoldable pub get_key : Packet → TargetKey
get_key p = elim p.proto [
  | icmp x ↦ record { saddr = p.saddr; is_scanner_like = p.ipid == 54321 || ltb 200 p.ttl }
  | tcp x ↦ record {
    saddr = p.saddr;
    is_scanner_like = p.ipid == 54321 || ltb 200 p.ttl || is_empty x.options;
  }
  | udp x ↦ record { saddr = p.saddr; is_scanner_like = p.ipid == 54321 || ltb 200 p.ttl }
]

-- the `vis_five_tuple_builder` visitor
unfoldable pub five_tuple : Packet → FiveTuple
five_tuple p = elim p.proto [
  | icmp x ↦ record {
    proto = Protocol.icmp;
    saddr = p.saddr;
    daddr = p.daddr;
    sport = 0;
    dport = 0;
  }
  | tcp x ↦ record {
    proto = Protocol.tcp;
    saddr = p.saddr;
    daddr = p.daddr;
    sport = x.sport;
    dport = x.dport;
  }
  | udp x ↦ record {
    proto = Protocol.udp;
    saddr = p.saddr;
    daddr = p.daddr;
    sport = x.sport;
    dport = x.dport;
  }
]

abbrev bool_eq : Bool → Bool → Bool
bool_eq true b = b
bool_eq false true = false
bool_eq false false = true

-- `operator==` of target_key.hpp
abbrev pub target_key_eq : TargetKey → TargetKey → Bool
target_key_eq a b = a.saddr == b.saddr && bool_eq a.is_scanner_like b.is_scanner_like

-- `operator==` of net/endpoint.hpp
abbrev pub endpoint_eq : Endpoint → Endpoint → Bool
endpoint_eq a b = a.daddr == b.daddr && a.dport == b.dport

pub target_key_eq_iff : (a b : TargetKey) → (target_key_eq a b ≡ true) ↔ (a ≡ b)
target_key_eq_iff a b = ground arith

pub endpoint_eq_iff : (a b : Endpoint) → (endpoint_eq a b ≡ true) ↔ (a ≡ b)
endpoint_eq_iff a b = ground arith

instance abbrev pub target_key_has_eq : HasEq TargetKey
target_key_has_eq = record { eq = target_key_eq; eq_iff = target_key_eq_iff }

instance abbrev pub endpoint_has_eq : HasEq Endpoint
endpoint_has_eq = record { eq = endpoint_eq; eq_iff = endpoint_eq_iff }

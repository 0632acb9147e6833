-- ===== src/Probe/Commands/Lines.antt =====
-- A command is one line for scamper (spoki/libspoki/src/probe/request.cpp).
use spoki.Prelude.{
  ℕ, ◌≡◌, refl, sym, ◌∙◌, Bool, true, false, not, List, [], ◌∷◌, ◌++◌, concat, concat-append, arith,
  ◌==◌, if◌then◌else◌, all_of, All, is_empty, if-both,
}
use spoki.Prelude.Words.{u8}
use spoki.Prelude.Decimal.{to_string, is_digit, to_string-digits}
use spoki.Net.{Address, Payload}
use spoki.Probe.{Method, Request}
use spoki.Probe.Commands.{
  Bytes, probe_name, to_hex_string, default_udp_payload, echo_pieces, udp_pieces, synack_pieces,
  rst_pieces, make_icmp_echo_probe, make_udp_probe, make_tcp_synack_probe, make_tcp_rst_probe,
  make_command, make_tcp_synack_probe_pe, make_tcp_synack_probe_ss,
}

abbrev pub in_line : ℕ → Bool
in_line c = not (c == 10)

abbrev pub OneLine : Bytes → Type 0
OneLine cs = all_of in_line cs ≡ true

all_of-append : (xs ys : Bytes) → OneLine xs → OneLine ys → OneLine (xs ++ ys)
all_of-append [] ys h g = g
all_of-append (x ∷ xs) ys h g = ground (arith, all_of-append xs ys)

concat-OneLine : (xss : List Bytes) → All OneLine xss → OneLine (concat xss)
concat-OneLine [] h = refl
concat-OneLine (xs ∷ xss) h = all_of-append xs (concat xss) h.0 (concat-OneLine xss h.1)

digits-OneLine : (xs : Bytes) → all_of is_digit xs ≡ true → OneLine xs
digits-OneLine [] h = refl
digits-OneLine (x ∷ xs) h = ground (arith, digits-OneLine xs)

pub to_string-OneLine : (n : ℕ) → OneLine (to_string n)
to_string-OneLine n = digits-OneLine (to_string n) (to_string-digits n)

to_hex_string-OneLine : (cs : Payload) → OneLine (to_hex_string cs)
unfolding to_hex_string
to_hex_string-OneLine [] = refl
to_hex_string-OneLine (c ∷ cs) = ground (arith, to_hex_string-OneLine cs)

-- a line and its end
abbrev pub IsLine : Bytes → Type 0
IsLine cs = (line : Bytes) × (cs ≡ line ++ 10 ∷ []) × OneLine line

pieces-IsLine : (xss : List Bytes) → All OneLine xss → IsLine (concat xss ++ 10 ∷ [])
pieces-IsLine xss h = (concat xss, refl, concat-OneLine xss h)

-- the methods that have a command, where an echo request has no user id that ends in a newline
abbrev pub has_command : Request → Bool
has_command req = elim req.probe_method [
  | Method.icmp_echo ↦ in_line (u8 req.user_id)
  | Method.udp ↦ true
  | Method.tcp_synack ↦ true
  | Method.tcp_rst ↦ true
  | _ ↦ false
]

payload-OneLine :
    (req : Request)
    → OneLine (if is_empty req.payload then default_udp_payload else to_hex_string req.payload)
payload-OneLine req =
    if-both OneLine (is_empty req.payload) refl (to_hex_string-OneLine req.payload)

single-OneLine : (c : ℕ) → in_line c ≡ true → OneLine (c ∷ [])
single-OneLine c h = ground arith

module _ (print : Address → Bytes) (req : Request) (p : (a : Address) → OneLine (print a)) where
  make_icmp_echo_probe-IsLine :
      in_line (u8 req.user_id) ≡ true → IsLine (make_icmp_echo_probe print req)
  unfolding make_icmp_echo_probe echo_pieces probe_name
  make_icmp_echo_probe-IsLine h = pieces-IsLine (echo_pieces print req) (
      ground (
        arith,
        to_string-OneLine req.num_probes,
        single-OneLine (u8 req.user_id) h,
        p req.saddr,
        p req.daddr,
      ))

  make_udp_probe-IsLine : IsLine (make_udp_probe print req)
  unfolding make_udp_probe udp_pieces probe_name
  make_udp_probe-IsLine = pieces-IsLine (udp_pieces print req) (
      ground (
        arith,
        to_string-OneLine req.num_probes,
        to_string-OneLine req.user_id,
        to_string-OneLine req.dport,
        to_string-OneLine req.sport,
        payload-OneLine req,
        p req.saddr,
        p req.daddr,
      ))

  make_tcp_synack_probe-IsLine : IsLine (make_tcp_synack_probe print req)
  unfolding make_tcp_synack_probe synack_pieces probe_name
  make_tcp_synack_probe-IsLine = pieces-IsLine (synack_pieces print req) (
      ground (
        arith,
        to_string-OneLine req.num_probes,
        to_string-OneLine req.user_id,
        to_string-OneLine req.dport,
        to_string-OneLine req.sport,
        to_string-OneLine req.anum,
        p req.saddr,
        p req.daddr,
      ))

  make_tcp_rst_probe-IsLine : IsLine (make_tcp_rst_probe print req)
  unfolding make_tcp_rst_probe rst_pieces probe_name
  make_tcp_rst_probe-IsLine = pieces-IsLine (rst_pieces print req) (
      ground (
        arith,
        to_string-OneLine req.num_probes,
        to_string-OneLine req.user_id,
        to_string-OneLine req.dport,
        to_string-OneLine req.sport,
        to_string-OneLine req.snum,
        p req.saddr,
        p req.daddr,
      ))

has_command-echo :
    (req : Request)
    → req.probe_method ≡ Method.icmp_echo
    → has_command req ≡ in_line (u8 req.user_id)
has_command-echo req e = rw e refl

-- The command of a request for an echo, UDP, SYN ACK or RST probe is one line, ended by the only
-- newline in it, whatever the payload is, if the printer of addresses writes no newline; but for an
-- echo request only if the lowest byte of the user id is not a newline.
pub make_command-IsLine :
    (print : Address → Bytes) (req : Request)
    → ((a : Address) → OneLine (print a))
    → has_command req ≡ true
    → IsLine (make_command print req)
make_command-IsLine print req p h = by_method req.probe_method refl
  where
    by_method : (m : Method) → req.probe_method ≡ m → IsLine (make_command print req)
    by_method Method.icmp_echo e =
        unfold make_command in
        rw (make_command, e)
          (make_icmp_echo_probe-IsLine print req p (sym (has_command-echo req e) ∙ h))
    by_method Method.udp e =
        unfold make_command in rw (make_command, e) (make_udp_probe-IsLine print req p)
    by_method Method.tcp_synack e =
        unfold make_command in rw (make_command, e) (make_tcp_synack_probe-IsLine print req p)
    by_method Method.tcp_rst e =
        unfold make_command in rw (make_command, e) (make_tcp_rst_probe-IsLine print req p)
    by_method Method.icmp_time e = ground (arith, h, e)
    by_method Method.tcp_syn e = ground (arith, h, e)
    by_method Method.tcp_ack e = ground (arith, h, e)
    by_method Method.tcp_ack_sport e = ground (arith, h, e)
    by_method Method.udp_dport e = ground (arith, h, e)

-- The two alternative ways to make the command for a SYN ACK, by string and by stream, give what
-- `make_command` gives.
make_tcp_synack_probe-variants :
    (print : Address → Bytes) (req : Request)
    → req.probe_method ≡ Method.tcp_synack
    → (make_tcp_synack_probe_pe print req ≡ make_command print req)
      × (make_tcp_synack_probe_ss print req ≡ make_command print req)
unfolding make_command make_tcp_synack_probe make_tcp_synack_probe_pe make_tcp_synack_probe_ss
    synack_pieces to_string
make_tcp_synack_probe-variants print req e =
    let pieces = synack_pieces print req in
    let joined : concat (pieces ++ (10 ∷ []) ∷ []) ≡ concat pieces ++ 10 ∷ [] =
      concat-append pieces ((10 ∷ []) ∷ []) in
    rw (make_command, e) (joined, joined)

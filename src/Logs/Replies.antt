-- ===== src/Logs/Replies.antt =====
-- The rows of scamper's replies: `append_log_entry` of spoki/libspoki/src/collector.cpp, and
-- `to_log_line` of spoki/libspoki/src/scamper/reply.cpp, read back column by column.
mod Tests
use spoki.Prelude.{
  ℕ, ◌≡◌, refl, ap, ◌∙◌, sym, Bool, true, false, not, ◌&&◌, List, [], ◌∷◌, ◌++◌, concat, ◌==◌,
  arith, all_of, All, if◌then◌else◌, append_assoc, append-nil,
}
use spoki.Prelude.Words.{u8}
use spoki.Prelude.Decimal.{to_string, is_digit, to_string-digits}
use spoki.Probe.{Method}
use spoki.Probe.Commands.{probe_name}
use spoki.Scamper.Records.{Reply, method_string, to_log_line}
use spoki.Logs.{Bytes}
use spoki.Logs.Entries.{delimiter, del}

-- `append_log_entry` for a reply of scamper
unfoldable pub append_reply_entry : Bytes → Reply → Bytes
unfolding probe_name
append_reply_entry buf repl =
    buf
    ++ concat (
        del (to_string repl.start.sec)
        ∷ del (to_string repl.start.usec)
        ∷ del (probe_name repl.probe_method)
        ∷ del (to_string repl.userid)
        ∷ del (to_string repl.ping_sent)
        ∷ del repl.src
        ∷ del repl.dst
        ∷ del (to_string repl.sport)
        ∷ to_string repl.dport
        ∷ [])

-- the text between two delimiters
unfoldable pub split : Bytes → Bytes → List Bytes
split cur [] = cur ∷ []
split cur (c ∷ cs) =
    let bar = c == delimiter in
    let rest = split (if bar then [] else cur ++ c ∷ []) cs in if bar then cur ∷ rest else rest

abbrev pub IsColumn : Bytes → Type 0
IsColumn xs = all_of (λ c. not (c == delimiter)) xs ≡ true

-- columns with delimiters between them
abbrev pub join : Bytes → List Bytes → Bytes
join x [] = x
join x (y ∷ ys) = x ++ delimiter ∷ join y ys

split-column :
    (cur xs rest : Bytes)
    → IsColumn xs
    → split cur (xs ++ delimiter ∷ rest) ≡ (cur ++ xs) ∷ split [] rest
unfolding split
split-column cur [] rest h = rw (append-nil cur) refl
split-column cur (x ∷ xs) rest h =
    let e : (x == delimiter) ≡ false = ground arith in
    let h' : IsColumn xs = ground arith in
    rw (e, split)
      (split-column (cur ++ x ∷ []) xs rest h'
        ∙ ap (λ z. z ∷ split [] rest) (append_assoc cur (x ∷ []) xs))

split-last : (cur xs : Bytes) → IsColumn xs → split cur xs ≡ (cur ++ xs) ∷ []
unfolding split
split-last cur [] h = rw (append-nil cur) refl
split-last cur (x ∷ xs) h =
    let e : (x == delimiter) ≡ false = ground arith in
    let h' : IsColumn xs = ground arith in
    rw (e, split)
      (split-last (cur ++ x ∷ []) xs h' ∙ ap (λ z. z ∷ []) (append_assoc cur (x ∷ []) xs))

split-join :
    (x : Bytes) (xs : List Bytes) → IsColumn x → All IsColumn xs → split [] (join x xs) ≡ x ∷ xs
split-join x [] h hs = split-last [] x h
split-join x (y ∷ ys) h hs =
    split-column [] x (join y ys) h ∙ ap (◌∷◌ x) (split-join y ys hs.0 hs.1)

digits-IsColumn : (xs : Bytes) → all_of is_digit xs ≡ true → IsColumn xs
digits-IsColumn [] h = refl
digits-IsColumn (x ∷ xs) h = ground (arith, digits-IsColumn xs)

number : (n : ℕ) → IsColumn (to_string n)
number n = digits-IsColumn (to_string n) (to_string-digits n)

probe_name-IsColumn : (m : Method) → IsColumn (probe_name m)
unfolding probe_name
probe_name-IsColumn Method.icmp_echo = refl
probe_name-IsColumn Method.icmp_time = refl
probe_name-IsColumn Method.tcp_syn = refl
probe_name-IsColumn Method.tcp_ack = refl
probe_name-IsColumn Method.tcp_ack_sport = refl
probe_name-IsColumn Method.tcp_synack = refl
probe_name-IsColumn Method.tcp_rst = refl
probe_name-IsColumn Method.udp = refl
probe_name-IsColumn Method.udp_dport = refl

method_string-IsColumn : (m : Method) → IsColumn (method_string m)
unfolding method_string
method_string-IsColumn Method.icmp_echo = refl
method_string-IsColumn Method.icmp_time = refl
method_string-IsColumn Method.tcp_syn = refl
method_string-IsColumn Method.tcp_ack = refl
method_string-IsColumn Method.tcp_ack_sport = refl
method_string-IsColumn Method.tcp_synack = refl
method_string-IsColumn Method.tcp_rst = refl
method_string-IsColumn Method.udp = refl
method_string-IsColumn Method.udp_dport = refl

-- the columns of a reply, with its method and its number of pings as they are printed
abbrev pub columns : Reply → Bytes → Bytes → List Bytes
columns repl method pings =
    to_string repl.start.usec
    ∷ method
    ∷ to_string repl.userid
    ∷ pings
    ∷ repl.src
    ∷ repl.dst
    ∷ to_string repl.sport
    ∷ to_string repl.dport
    ∷ []

columns-IsColumn :
    (repl : Reply) (method pings : Bytes)
    → IsColumn repl.src
    → IsColumn repl.dst
    → IsColumn method
    → IsColumn pings
    → All IsColumn (columns repl method pings)
columns-IsColumn repl method pings s d m p =
    let ports : IsColumn (to_string repl.sport) × (IsColumn (to_string repl.dport) × Unit {0}) =
      (number repl.sport, (number repl.dport, tt)) in
    (number repl.start.usec, (m, (number repl.userid, (p, (s, (d, ports))))))

-- If the addresses of a reply hold no delimiter, and the lowest byte of its number of pings is not the
-- delimiter, a row of the collector is read back as its nine columns, the seconds first and the number
-- of pings in digits; and so is a line of `to_log_line`, but its number of pings is this one byte, and
-- its method has its name in C++.
pub split-rows :
    (repl : Reply)
    → IsColumn repl.src
    → IsColumn repl.dst
    → (u8 repl.ping_sent == delimiter) ≡ false
    → (split [] (append_reply_entry [] repl)
        ≡ to_string repl.start.sec
          ∷ columns repl (probe_name repl.probe_method) (to_string repl.ping_sent))
      × (split [] (to_log_line repl delimiter)
          ≡ to_string repl.start.sec
            ∷ columns repl (method_string repl.probe_method) (u8 repl.ping_sent ∷ []))
unfolding append_reply_entry to_log_line
split-rows repl s d p =
    let m =
      columns-IsColumn repl (probe_name repl.probe_method) (to_string repl.ping_sent) s d
        (probe_name-IsColumn repl.probe_method) (number repl.ping_sent) in
    let m' =
      columns-IsColumn repl (method_string repl.probe_method) (u8 repl.ping_sent ∷ []) s d
        (method_string-IsColumn repl.probe_method) (ground (arith, p)) in
    (
      ap (split []) (simp (append_assoc, append-nil))
          ∙ split-join (to_string repl.start.sec) _ (number repl.start.sec) m,
      split-join (to_string repl.start.sec) _ (number repl.start.sec) m',
    )

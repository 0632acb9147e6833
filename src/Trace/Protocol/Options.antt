-- ===== src/Trace/Protocol/Options.antt =====
-- Which TCP options are read (spoki/libspoki/src/trace/state.cpp).
use mathlib.Core.Path.{subst}
use spoki.Prelude.{
  ℕ, ◌+◌, ◌≤◌, ◌≡◌, refl, sym, ap, ◌∙◌, Bool, true, false, not, ◌&&◌, ◌||◌, Option, none, List, [],
  ◌∷◌, arith, ltb, ◌==◌, if◌then◌else◌,
}
use spoki.Net.{TcpOpt}
use spoki.Trace.Protocol.{to_value, entered, add_option, scan_options, get_tcp_opts}

-- how many entries the map has for an option
pub count_option : TcpOpt → List (TcpOpt × Option ℕ) → ℕ
count_option x [] = 0
count_option x ((y, v) ∷ m) =
    let rest = count_option x m in if to_value y == to_value x then rest + 1 else rest

-- the numbers that TCP gives its options; padding and the end of the list are none, and all numbers
-- that are not named stand for one option
abbrev pub has_kind : TcpOpt → ℕ → Bool
has_kind TcpOpt.end_of_list kind = false
has_kind TcpOpt.noop kind = false
has_kind TcpOpt.mss kind = kind == 2
has_kind TcpOpt.window_scale kind = kind == 3
has_kind TcpOpt.sack_permitted kind = kind == 4
has_kind TcpOpt.sack kind = kind == 5
has_kind TcpOpt.timestamp kind = kind == 8
has_kind TcpOpt.other kind = ltb 8 kind || kind == 6 || kind == 7

-- whether an option is there before the end of the list of options, which is the number 0
unfoldable pub occurs : TcpOpt → List ℕ → Bool
occurs x [] = false
occurs x (kind ∷ kinds) = let rest = occurs x kinds in not (kind == 0) && (has_kind x kind || rest)

enters : TcpOpt → ℕ → Bool
enters x kind = not (kind == 1) && (to_value (entered kind) == to_value x)

enters-has_kind : (x : TcpOpt) (kind : ℕ) → (kind == 0) ≡ false → enters x kind ≡ has_kind x kind
unfolding enters
enters-has_kind TcpOpt.end_of_list kind h = ground (arith, h)
enters-has_kind TcpOpt.noop kind h = ground (arith, h)
enters-has_kind TcpOpt.mss kind h = ground (arith, h)
enters-has_kind TcpOpt.window_scale kind h = ground (arith, h)
enters-has_kind TcpOpt.sack_permitted kind h = ground (arith, h)
enters-has_kind TcpOpt.sack kind h = ground (arith, h)
enters-has_kind TcpOpt.timestamp kind h = ground (arith, h)
enters-has_kind TcpOpt.other kind h = ground (arith, h)

fewer :
    (x z : TcpOpt) (v : Option ℕ) (m : List (TcpOpt × Option ℕ))
    → count_option x ((z, v) ∷ m) ≤ 1
    → count_option x m ≤ 1
unfolding count_option
fewer x z v m h = ground (arith, h)

-- the numbers of a key that is there already, and of one that is not
same_key :
    (a b c n : ℕ)
    → (c == b) ≡ true
    → (if c == a then n + 1 else n) ≤ 1
    → (if c == a then n + 1 else n) ≡ (if b == a then 1 else (if c == a then n + 1 else n))
same_key a b c n s h = ground (arith, s, h)

other_key :
    (a b c n r : ℕ)
    → (c == b) ≡ false
    → (if c == a then n + 1 else n) ≤ 1
    → r ≡ (if b == a then 1 else n)
    → (if c == a then r + 1 else r) ≡ (if b == a then 1 else (if c == a then n + 1 else n))
other_key a b c n r s h e = ground (arith, s, h, e)

count_option-add :
    (x y : TcpOpt) (m : List (TcpOpt × Option ℕ))
    → count_option x m ≤ 1
    → count_option x (add_option y m) ≡ (if to_value y == to_value x then 1 else count_option x m)
unfolding count_option add_option
count_option-add x y [] h = refl
count_option-add x y ((z, v) ∷ m) h =
    by_key (to_value z == to_value y) refl (count_option-add x y m (fewer x z v m h))
  where
    by_key :
        (s : Bool)
        → (to_value z == to_value y) ≡ s
        → count_option x (add_option y m)
          ≡ (if to_value y == to_value x then 1 else count_option x m)
        → count_option x (if s then (z, none) ∷ m else (z, v) ∷ add_option y m)
          ≡ (if to_value y == to_value x then 1 else count_option x ((z, v) ∷ m))
    by_key true s e = same_key (to_value x) (to_value y) (to_value z) (count_option x m) s h
    by_key false s e = other_key (to_value x) (to_value y) (to_value z) (count_option x m) _ s h e

next_options : ℕ → List (TcpOpt × Option ℕ) → List (TcpOpt × Option ℕ)
next_options kind m = if kind == 1 then m else add_option (entered kind) m

count_option-next :
    (x : TcpOpt) (kind : ℕ) (m : List (TcpOpt × Option ℕ))
    → count_option x m ≤ 1
    → count_option x (next_options kind m)
      ≡ (if not (kind == 1) && (to_value (entered kind) == to_value x) then 1 else count_option x m)
unfolding next_options
count_option-next x kind m h = by_kind (kind == 1) (count_option-add x (entered kind) m h)
  where
    by_kind :
        (c : Bool)
        → count_option x (add_option (entered kind) m)
          ≡ (if to_value (entered kind) == to_value x then 1 else count_option x m)
        → count_option x (if c then m else add_option (entered kind) m)
          ≡ (if not c && (to_value (entered kind) == to_value x) then 1 else count_option x m)
    by_kind true e = refl
    by_kind false e = e

one_at_most : (c : Bool) (n : ℕ) → n ≤ 1 → (if c then 1 else n) ≤ 1
one_at_most true n h = omega arith
one_at_most false n h = h

either_way :
    (b c : Bool) (n : ℕ) → (if b then 1 else (if c then 1 else n)) ≡ (if c || b then 1 else n)
either_way true true n = refl
either_way true false n = refl
either_way false true n = refl
either_way false false n = refl

scan_options-count :
    (x : TcpOpt) (kinds : List ℕ) (m : List (TcpOpt × Option ℕ))
    → count_option x m ≤ 1
    → count_option x (scan_options kinds m) ≡ (if occurs x kinds then 1 else count_option x m)
unfolding scan_options occurs next_options enters
scan_options-count x [] m h = refl
scan_options-count x (kind ∷ kinds) m h =
    let n = count_option-next x kind m h in
    let rest =
      scan_options-count x kinds (next_options kind m)
        (subst (λ c. c ≤ 1) (sym n) (one_at_most _ (count_option x m) h)) in
    by_end (kind == 0) refl (
      rest
      ∙ ap (λ c. if occurs x kinds then 1 else c) n
      ∙ either_way (occurs x kinds) (enters x kind) _)
  where
    by_end :
        (c : Bool)
        → (kind == 0) ≡ c
        → count_option x (scan_options kinds (next_options kind m))
          ≡ (if enters x kind || occurs x kinds then 1 else count_option x m)
        → count_option x (if c then m else scan_options kinds (next_options kind m))
          ≡ (if not c && (has_kind x kind || occurs x kinds) then 1 else count_option x m)
    by_end true h e = refl
    by_end false h e =
        e ∙ ap (λ b. if b || occurs x kinds then 1 else count_option x m) (enters-has_kind x kind h)

-- The map of a header has one entry for each option whose number in TCP occurs before the end of the list
-- of options, one for all numbers that the code does not name, and no other; a header without room for
-- options has an empty map.
pub get_tcp_opts-count :
    (x : TcpOpt) (doff : ℕ) (kinds : List ℕ)
    → count_option x (get_tcp_opts doff kinds)
      ≡ (if not (doff == 5) && occurs x kinds then 1 else 0)
unfolding get_tcp_opts count_option
get_tcp_opts-count x doff kinds = ground (arith, scan_options-count x kinds [] (omega arith))

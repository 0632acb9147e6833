-- ===== src/Scamper/Text.antt =====
-- `strtoul` in base 10, as the drivers call it on the number behind DATA.
use spoki.Prelude.{
  ℕ, ◌+◌, ◌-◌, ◌*◌, ◌≡◌, refl, Bool, ◌&&◌, ◌||◌, [], ◌∷◌, ◌++◌, arith, ltb, leb, ◌==◌,
  if◌then◌else◌,
}
use spoki.Prelude.Words.{u64}
use spoki.Scamper.{Bytes}

abbrev pub ulong_max : ℕ
ulong_max = 18446744073709551615

abbrev pub is_digit : ℕ → Bool
is_digit c = leb b'0' c && leb c b'9'

-- a blank, or one of the characters 9 to 13
abbrev pub is_space : ℕ → Bool
is_space c = c == 32 || (leb 9 c && leb c 13)

unfoldable pub digits_value : ℕ → Bytes → ℕ
digits_value acc [] = acc
digits_value acc (c ∷ cs) =
    let rest = digits_value (acc * 10 + (c - b'0')) cs in if is_digit c then rest else acc

abbrev saturate : ℕ → ℕ
saturate n = if ltb ulong_max n then ulong_max else n

-- `-5` is the word of minus five
abbrev negate : ℕ → ℕ
negate n = if ltb ulong_max n then ulong_max else u64 (ulong_max + 1 - n)

unfoldable pub signed_value : Bytes → ℕ
signed_value [] = 0
signed_value (c ∷ cs) =
    if c == b'-'
    then negate (digits_value 0 cs)
    else if c == b'+'
    then saturate (digits_value 0 cs)
    else saturate (digits_value 0 (c ∷ cs))

unfoldable pub strtoul : Bytes → ℕ
unfolding signed_value digits_value
strtoul [] = 0
strtoul (c ∷ cs) = let rest = strtoul cs in if is_space c then rest else signed_value (c ∷ cs)

digits_value-nul :
    (acc : ℕ) (t f : Bytes) → digits_value acc (t ++ 0 ∷ f) ≡ digits_value acc (t ++ 0 ∷ [])
unfolding digits_value
digits_value-nul acc [] f = refl
digits_value-nul acc (c ∷ t) f = ground (arith, digits_value-nul (acc * 10 + (c - b'0')) t f)

-- Nothing behind the end of the string is read.
pub strtoul-nul : (t f : Bytes) → strtoul (t ++ 0 ∷ f) ≡ strtoul (t ++ 0 ∷ [])
unfolding strtoul
strtoul-nul [] f = refl
strtoul-nul (c ∷ t) f =
    ground
      (arith, strtoul-nul t f, digits_value-nul 0 t f, digits_value-nul (0 * 10 + (c - b'0')) t f)

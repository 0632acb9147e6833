-- ===== src/Prelude/Decimal.antt =====
-- `std::to_string` on unsigned numbers, with a digit for each step of the fuel.
use Prim.Native.Nat.{ℕ, zero, suc, ◌+◌, ◌-◌, ◌*◌, ◌/◌, ◌%◌, ◌^◌, ◌<◌}
use mathlib.Core.Path.{◌≡◌, refl}
use mathlib.Core.Bool.{Bool, true, ◌&&◌}
use mathlib.Core.List.{List, [], ◌∷◌, ◌++◌}
use native.Mathlib.Nat.{pow-suc}
use native.Mathlib.Omega.{arith}
use spoki.Prelude.Tests.{ltb, leb, if◌then◌else◌, if-cases}
use spoki.Prelude.Lists.{all_of}

-- the last `fuel` digits, without leading zeros
unfoldable pub to_digits : ℕ → ℕ → List ℕ
to_digits zero n = []
to_digits (suc fuel) n =
    let rest = to_digits fuel (n / 10) in
    if ltb n 10 then (b'0' + n) ∷ [] else rest ++ (b'0' + n % 10) ∷ []

unfoldable pub to_string : ℕ → List ℕ
unfolding to_digits
to_string n = to_digits 20 n

abbrev pub is_digit : ℕ → Bool
is_digit c = leb b'0' c && leb c b'9'

all_of-snoc :
    (xs : List ℕ) (c : ℕ)
    → all_of is_digit xs ≡ true
    → is_digit c ≡ true
    → all_of is_digit (xs ++ c ∷ []) ≡ true
all_of-snoc [] c h e = ground arith
all_of-snoc (x ∷ xs) c h e = ground (arith, all_of-snoc xs c)

to_digits-digits : (fuel n : ℕ) → all_of is_digit (to_digits fuel n) ≡ true
unfolding to_digits
to_digits-digits zero n = refl
to_digits-digits (suc fuel) n =
    if-cases (λ x. all_of is_digit x ≡ true) (ltb n 10) (λ h. ground arith)
      (λ h.
        all_of-snoc (to_digits fuel (n / 10)) (b'0' + n % 10) (to_digits-digits fuel (n / 10))
          (ground arith))

pub to_string-digits : (n : ℕ) → all_of is_digit (to_string n) ≡ true
unfolding to_string
to_string-digits n = to_digits-digits 20 n

-- the number that digits stand for, behind what is read already
abbrev pub read_digits : ℕ → List ℕ → ℕ
read_digits acc [] = acc
read_digits acc (c ∷ cs) = read_digits (acc * 10 + (c - b'0')) cs

read_digits-snoc :
    (acc : ℕ) (xs : List ℕ) (c : ℕ)
    → read_digits acc (xs ++ c ∷ []) ≡ read_digits acc xs * 10 + (c - b'0')
read_digits-snoc acc [] c = refl
read_digits-snoc acc (x ∷ xs) c = read_digits-snoc (acc * 10 + (x - b'0')) xs c

read_digits-to_digits : (fuel n : ℕ) → n < 10 ^ fuel → read_digits 0 (to_digits fuel n) ≡ n
unfolding to_digits
read_digits-to_digits zero n h = omega arith
read_digits-to_digits (suc fuel) n h =
    if-cases (λ x. read_digits 0 x ≡ n) (ltb n 10) (λ t. omega arith)
      (λ t. omega (
        arith,
        read_digits-snoc 0 (to_digits fuel (n / 10)) (b'0' + n % 10),
        read_digits-to_digits fuel (n / 10) (omega (arith, pow-suc 10 fuel, h)),
      ))

-- Twenty digits are enough: a 64-bit number is read back.
pub read_digits-to_string : (n : ℕ) → n < 18446744073709551616 → read_digits 0 (to_string n) ≡ n
unfolding to_string
read_digits-to_string n h = read_digits-to_digits 20 n (omega (arith, h))

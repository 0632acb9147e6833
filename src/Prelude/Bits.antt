-- ===== src/Prelude/Bits.antt =====
-- `&` with a mask of low ones and `|` of fields that do not overlap, as arithmetic. Both operations
-- are one walk over the binary digits, with a rule for two digits and one for what is left.
use Prim.Native.Nat.{
  ℕ, zero, suc, ◌+◌, ◌-◌, ◌*◌, ◌/◌, ◌%◌, ◌^◌, ◌≤◌, ◌<◌, min, max, digits, bit_and-bitwise,
  bit_or-bitwise,
}
use mathlib.Core.Path.{◌≡◌, refl, ap}
use native.Mathlib.Nat.{pow-suc, one-le-pow}
use native.Mathlib.Omega.{arith}
pub use Prim.Native.Nat.{bit_and, bit_or}

module _ (remaining : ℕ → ℕ) (pair : ℕ → ℕ → ℕ) where
  walk-zero : (fuel b : ℕ) → digits remaining pair fuel 0 b ≡ remaining b
  walk-zero zero b = refl
  walk-zero (suc fuel) b = refl

  -- fuel that is not less than the first number is as good as any
  walk-fuel :
      (a b j k : ℕ) → a ≤ j → a ≤ k → digits remaining pair j a b ≡ digits remaining pair k a b
  walk-fuel zero b j k g h = omega (arith, walk-zero j b, walk-zero k b)
  walk-fuel (suc a) b zero k g h = absurd (omega arith)
  walk-fuel (suc a) b (suc j) zero g h = absurd (omega arith)
  walk-fuel (suc a) b (suc j) (suc k) g h =
      omega (arith, walk-fuel (suc a / 2) (b / 2) j k (omega arith) (omega arith))

  lowest_digit :
      (op : ℕ → ℕ → ℕ)
      → ((a b : ℕ) → op a b ≡ digits remaining pair a a b)
      → (a b : ℕ) → op (suc a) b ≡ op (suc a / 2) (b / 2) * 2 + pair (suc a % 2) (b % 2)
  lowest_digit op e a b =
      let half = suc a / 2 in
      omega (
        arith,
        e (suc a) b,
        e half (b / 2),
        walk-fuel half (b / 2) a half (omega arith) (omega arith),
      )

or_digit : (a b : ℕ) → bit_or a b ≡ bit_or (a / 2) (b / 2) * 2 + max (a % 2) (b % 2)
or_digit zero b = omega (arith, bit_or-bitwise 0 b, bit_or-bitwise 0 (b / 2))
or_digit (suc a) b = lowest_digit (λ b. b) max bit_or bit_or-bitwise a b

and_digit : (a b : ℕ) → bit_and a b ≡ bit_and (a / 2) (b / 2) * 2 + min (a % 2) (b % 2)
and_digit zero b = omega (arith, bit_and-bitwise 0 b, bit_and-bitwise 0 (b / 2))
and_digit (suc a) b = lowest_digit (λ b. 0) min bit_and bit_and-bitwise a b

-- the neutral element of `|` and the zero of `&`, for all numbers up to a bound
with_zero : (bound a : ℕ) → a ≤ bound → (bit_or a 0 ≡ a) × (bit_and a 0 ≡ 0)
with_zero bound zero h = (refl, refl)
with_zero zero (suc a) h = absurd (omega arith)
with_zero (suc bound) (suc a) h =
    let half = with_zero bound (suc a / 2) (omega arith) in
    (omega (arith, or_digit (suc a) 0, half.0), omega (arith, and_digit (suc a) 0, half.1))

doubled : (q k : ℕ) → q * 2 ^ suc k ≡ 2 * (q * 2 ^ k)
doubled q k = omega (arith, ap (λ (t : ℕ). q * t) (pow-suc 2 k))

-- two fields: `q` above `k` bits that hold `r`
fields :
    (k q r : ℕ)
    → r < 2 ^ k
    → (bit_or (q * 2 ^ k) r ≡ q * 2 ^ k + r) × (bit_and (q * 2 ^ k + r) (2 ^ k - 1) ≡ r)
fields zero q r h =
    let flat : q * 2 ^ 0 ≡ q = omega arith in
    let none_left : r ≡ 0 = omega arith in
    (
      rw (flat, none_left) (omega (arith, (with_zero q q (omega arith)).0)),
      rw none_left (omega (arith, (with_zero (q * 2 ^ 0 + 0) (q * 2 ^ 0 + 0) (omega arith)).1)),
    )
fields (suc k) q r h =
    let less = fields k q (r / 2) (omega (arith, pow-suc 2 k)) in
    (
      ground (arith, or_digit (q * 2 ^ suc k) r, doubled q k, less.0),
      ground (
        arith,
        and_digit (q * 2 ^ suc k + r) (2 ^ suc k - 1),
        doubled q k,
        pow-suc 2 k,
        one-le-pow k 2,
        less.1,
      ),
    )

-- `(q << k) | r` is a sum if `r` fits into `k` bits.
pub bit_or-add : (k q r : ℕ) → r < 2 ^ k → bit_or (q * 2 ^ k) r ≡ q * 2 ^ k + r
bit_or-add k q r h = (fields k q r h).0

-- A mask of `k` ones keeps the remainder by `2 ^ k`.
pub bit_and-mask : (k a : ℕ) → bit_and a (2 ^ k - 1) ≡ a % 2 ^ k
bit_and-mask k a =
    ground
      (arith, one-le-pow k 2, (fields k (a / 2 ^ k) (a % 2 ^ k) (ground (arith, one-le-pow k 2))).1)

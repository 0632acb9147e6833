-- ===== src/Prelude/Eq.antt =====
-- Equality as an interface: the keys of the programs' hash maps and sets.
use Prim.Native.Nat.{ℕ}
use mathlib.Core.Path.{◌≡◌}
use mathlib.Core.Logic.{◌↔◌}
use mathlib.Core.Bool.{Bool, true}
use spoki.Prelude.Tests.{◌==◌ as nat_eq, ==_iff}

pub record HasEq {ℓ} (A : Type ℓ) : Type ℓ where
  pub eq : A → A → Bool
  pub eq_iff : (a b : A) → (eq a b ≡ true) ↔ (a ≡ b)

instance abbrev pub nat_has_eq : HasEq ℕ
nat_has_eq = record { eq = nat_eq; eq_iff = ==_iff }

-- ===== src/Prelude/Int.antt =====
-- Signed integers over the native numbers: Go's `int` where it may be negative.
use Prim.Native.Nat.{ℕ, zero, suc}
use mathlib.Core.Path.{◌≡◌, refl, ap}
use mathlib.Core.Bool.{Bool, true, false, false≢true}
use native.Mathlib.Omega.{arith}
use hexchess.Prelude.Tests.{◌==◌}

-- `negsuc n` is -(n + 1).
pub data ℤ : Type 0 where
  pos : ℕ → ℤ
  negsuc : ℕ → ℤ

abbrev pub suc_ℤ : ℤ → ℤ
suc_ℤ (pos n) = pos (suc n)
suc_ℤ (negsuc zero) = pos 0
suc_ℤ (negsuc (suc n)) = negsuc n

-- Equality of two identifiers.
abbrev pub same_id : ℤ → ℤ → Bool
same_id (pos m) (pos n) = m == n
same_id (negsuc m) (negsuc n) = m == n
same_id a b = false

pub same_id_comm : (a b : ℤ) → same_id a b ≡ same_id b a
same_id_comm (pos m) (pos n) = ground arith
same_id_comm (negsuc m) (negsuc n) = ground arith
same_id_comm (pos m) (negsuc n) = refl
same_id_comm (negsuc m) (pos n) = refl

pub same_id_refl : (a : ℤ) → same_id a a ≡ true
same_id_refl (pos n) = ground arith
same_id_refl (negsuc n) = ground arith

pub ≡-of_same_id : (a b : ℤ) → same_id a b ≡ true → a ≡ b
≡-of_same_id (pos m) (pos n) e = ap pos (ground arith)
≡-of_same_id (negsuc m) (negsuc n) e = ap negsuc (ground arith)
≡-of_same_id (pos m) (negsuc n) e = absurd (false≢true e)
≡-of_same_id (negsuc m) (pos n) e = absurd (false≢true e)

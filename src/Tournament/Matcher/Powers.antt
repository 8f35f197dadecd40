-- ===== src/Tournament/Matcher/Powers.antt =====
-- Powers of two as bracket sizes.
use hexchess.Prelude.{ℕ, zero, suc, ◌*◌, ◌^◌, ◌%◌, ◌<◌, ◌≤◌, ◌≡◌, arith}

pub pow_double : (k : ℕ) → 2 ^ suc k ≡ 2 * 2 ^ k
pow_double k = omega arith

pub pow_pos : (k : ℕ) → 0 < 2 ^ k
pow_pos zero = omega arith
pow_pos (suc k) = omega (arith, pow_double k, pow_pos k)

pub pow_le : (a b : ℕ) → a ≤ b → 2 ^ a ≤ 2 ^ b
pow_le zero zero p = omega arith
pow_le (suc a) zero p = absurd (omega arith)
pow_le zero (suc b) p = omega (arith, pow_pos (suc b))
pow_le (suc a) (suc b) p = omega (arith, pow_double a, pow_double b, pow_le a b (omega arith))

pub pow_fits : (k : ℕ) → k < 64 → 2 ^ k % 2 ^ 64 ≡ 2 ^ k
pow_fits k p = omega (arith, pow_le (suc k) 64 p, pow_double k, pow_pos k)

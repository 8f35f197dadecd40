-- ===== src/Prelude/Search.antt =====
-- `sort.Search` of Go's standard library: a binary search for the lowest index that passes a test.
use Prim.Native.Nat.{ℕ, zero, suc, ◌+◌, ◌/◌, ◌≤◌, ◌<◌}
use mathlib.Core.Path.{◌≡◌, refl, ap, ◌∙◌}
use mathlib.Core.Logic.{inl, inr}
use mathlib.Core.Bool.{Bool, true, false}
use mathlib.Core.Option.{Option, none, some}
use native.Mathlib.Omega.{arith}
use hexchess.Prelude.Tests.{ltb, Bool-cases, if◌then◌else◌}
use hexchess.Prelude.Panic.{◌>>=◌}

-- Between the two bounds; the test may panic.
unfoldable pub search_loop : ℕ → (ℕ → Option Bool) → ℕ → ℕ → Option ℕ
search_loop zero f low high = none
search_loop (suc fuel) f low high =
    let middle = (low + high) / 2 in
    let left = search_loop fuel f low middle in
    let right = search_loop fuel f (suc middle) high in
    if ltb low high then (do c ← f middle; if c then left else right) else some low

unfoldable pub sort_search : ℕ → (ℕ → Option Bool) → Option ℕ
sort_search n f = search_loop (suc n) f 0 n

-- Up to `n` the test does not panic, and what passes it is an end of the range.
pub record Monotone (n : ℕ) (f : ℕ → Option Bool) : Type 0 where
  pub total : (i : ℕ) → i < n → (c : Bool) × (f i ≡ some c)
  pub mono : (i j : ℕ) → i ≤ j → j < n → f i ≡ some true → f j ≡ some true

-- The index where that end begins.
pub record Lowest (n : ℕ) (f : ℕ → Option Bool) (k : ℕ) : Type 0 where
  pub bound : k ≤ n
  pub below : (i : ℕ) → i < k → f i ≡ some false
  pub from : (i : ℕ) → k ≤ i → i < n → f i ≡ some true

module _ (n : ℕ) (f : ℕ → Option Bool) (m : Monotone n f) where
  fails_below : (h i : ℕ) → h < n → f h ≡ some false → i ≤ h → f i ≡ some false
  fails_below h i lt e le =
      let (c, t) = m.total i (omega arith) in
      elim c as (λ c. f i ≡ some c → f i ≡ some false) [
        | true ↦ λ t. cc (m.mono i h le lt t)
        | false ↦ λ t. t
      ]
        t

  search_loop-Lowest :
      (fuel low high : ℕ)
      → low ≤ high
      → high ≤ n
      → high < low + fuel
      → ((i : ℕ) → i < low → f i ≡ some false)
      → ((i : ℕ) → high ≤ i → i < n → f i ≡ some true)
      → (k : ℕ) × (search_loop fuel f low high ≡ some k) × Lowest n f k
  unfolding search_loop
  search_loop-Lowest zero low high a b enough below above = absurd (omega arith)
  search_loop-Lowest (suc fuel) low high a b enough below above =
      let middle = (low + high) / 2 in
      elim (Bool-cases (ltb low high)) [
        | inr e ↦ (
          low,
          rw e refl,
          record {
            bound = omega arith;
            below = below;
            from = λ i ge lt. above i (ground (arith, ge, e)) lt;
          },
        )
        | inl e ↦
            let inside : (low ≤ middle) × (middle < high) =
              (ground (arith, e), ground (arith, e)) in
            let (c, t) = m.total middle (omega (arith, inside.1)) in
            elim (Bool-cases c) [
              | inl yes_at ↦
                  let (k, q, lowest) =
                    search_loop-Lowest fuel low middle inside.0 (omega (arith, inside.1))
                      (omega (arith, inside.1, enough)) below
                      (λ i ge lt. m.mono middle i ge lt (t ∙ ap some yes_at)) in
                  (k, rw (e, t, yes_at) q, lowest)
              | inr no_at ↦
                  let (k, q, lowest) =
                    search_loop-Lowest fuel (suc middle) high (omega (arith, inside.1)) b
                      (omega (arith, inside.0, enough))
                      (λ i lt.
                        fails_below middle i (omega (arith, inside.1)) (t ∙ ap some no_at)
                          (omega arith))
                      above in
                  (k, rw (e, t, no_at) q, lowest)
            ]
      ]

-- For a test that does not panic up to `n`, and holds of an end of the range, the search
-- returns the index where that end begins, which is at most `n`.
pub sort_search-Lowest :
    (n : ℕ) (f : ℕ → Option Bool)
    → Monotone n f
    → (k : ℕ) × (sort_search n f ≡ some k) × Lowest n f k
unfolding sort_search
sort_search-Lowest n f m =
    search_loop-Lowest n f m (suc n) 0 n (omega arith) (omega arith) (omega arith)
      (λ i lt. absurd (omega arith)) (λ i ge lt. absurd (omega arith))

-- ===== src/Prelude/Tests.antt =====
-- Boolean tests on the native numbers, the conditional, and checks over small ranges.
use Prim.Native.Nat.{ℕ, zero, suc, ◌<◌, compare, Ordering, ◌+◌, ◌≤◌}
use mathlib.Core.Path.{◌≡◌, refl, sym}
use mathlib.Core.Logic.{◌↔◌, ◌⊎◌, inl, inr}
use mathlib.Core.Bool.{Bool, true, false, ◌&&◌}
use mathlib.Core.Option.{Option, none, some}
use native.Mathlib.Omega.{arith}

abbrev pub ltb : ℕ → ℕ → Bool
ltb a b = elim (compare a b) [ Ordering.lt ↦ true | _ ↦ false ]

abbrev pub leb : ℕ → ℕ → Bool
leb a b = elim (compare a b) [ Ordering.gt ↦ false | _ ↦ true ]

infix 50 ◌==◌
abbrev pub ◌==◌ : ℕ → ℕ → Bool
a == b = elim (compare a b) [ Ordering.eq ↦ true | _ ↦ false ]

infix 1 if◌then◌else◌
abbrev pub if◌then◌else◌ {ℓ} : {A : Type ℓ} → Bool → A → A → A
if true then x else y = x
if false then x else y = y

pub ltb→lt : (a b : ℕ) → ltb a b ≡ true → a < b
ltb→lt a b h = ground arith

pub lt→ltb : (a b : ℕ) → a < b → ltb a b ≡ true
lt→ltb a b h = ground arith

pub ==_iff : (a b : ℕ) → ((a == b) ≡ true) ↔ (a ≡ b)
==_iff a b = ground arith

pub Bool-cases : (b : Bool) → (b ≡ true) ⊎ (b ≡ false)
Bool-cases true = inl refl
Bool-cases false = inr refl

pub Option-cases {ℓ} : {A : Type ℓ} (o : Option A) → (o ≡ none) ⊎ ((a : A) × (o ≡ some a))
Option-cases none = inl refl
Option-cases (some a) = inr (a, refl)

pub and-left : (a b : Bool) → (a && b) ≡ true → a ≡ true
and-left a b h = ground arith

pub and-right : (a b : Bool) → (a && b) ≡ true → b ≡ true
and-right a b h = ground arith

-- `each_from lo k p`: the test holds of the k numbers from `lo` on.
unfoldable pub each_from : ℕ → ℕ → (ℕ → Bool) → Bool
each_from lo zero p = true
each_from lo (suc k) p = each_from (lo + 1) k p && p lo

-- A number of a range that was checked whole passes the test.
pub passes_of_each :
    (p : ℕ → Bool) (k lo v : ℕ) → lo ≤ v → v < lo + k → each_from lo k p ≡ true → p v ≡ true
unfolding each_from
passes_of_each p zero lo v from under checked = absurd (omega arith)
passes_of_each p (suc k) lo v from under checked =
    let later = and-left (each_from (lo + 1) k p) (p lo) checked in
    let first = and-right (each_from (lo + 1) k p) (p lo) checked in
    elim (Bool-cases (lo == v)) [
      | inl here ↦ rw (sym ((==_iff lo v).0 here)) first
      | inr off ↦ passes_of_each p k (lo + 1) v (ground arith) (omega arith) later
    ]

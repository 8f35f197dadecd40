-- ===== src/Prelude/Lists.antt =====
-- Lists measured and indexed by native numbers, under the library's names.
use Prim.Native.Nat.{ℕ, zero, suc, ◌+◌, ◌<◌}
use mathlib.Core.Path.{◌≡◌, refl}
use mathlib.Core.Logic.{◌⊎◌, ◌↔◌, inl, inr}
use mathlib.Core.Bool.{Bool, true, false}
use mathlib.Core.List.{List, [], ◌∷◌, ◌++◌}
use mathlib.Core.Option.{Option, none, some}
use native.Mathlib.Omega.{arith}

module _ {ℓ} {A : Type ℓ} where
  abbrev pub length : List A → ℕ
  length [] = 0
  length (x ∷ xs) = suc (length xs)

  abbrev pub get_elem? : List A → ℕ → Option A
  get_elem? [] i = none
  get_elem? (x ∷ xs) zero = some x
  get_elem? (x ∷ xs) (suc i) = get_elem? xs i

  abbrev pub take : ℕ → List A → List A
  take zero xs = []
  take (suc n) [] = []
  take (suc n) (x ∷ xs) = x ∷ take n xs

  abbrev pub drop : ℕ → List A → List A
  drop zero xs = xs
  drop (suc n) [] = []
  drop (suc n) (x ∷ xs) = drop n xs

  -- The first element that passes the test.
  abbrev pub find : (A → Bool) → List A → Option A
  find p [] = none
  find p (x ∷ xs) = elim (p x) [ true ↦ some x | false ↦ find p xs ]

  pub length-append : (xs ys : List A) → length (xs ++ ys) ≡ length xs + length ys
  length-append [] ys = omega arith
  length-append (x ∷ xs) ys = omega (arith, length-append xs ys)

  pub get_elem?-in : (xs : List A) (i : ℕ) → i < length xs → (x : A) × (get_elem? xs i ≡ some x)
  get_elem?-in [] i lt = absurd (omega arith)
  get_elem?-in (x ∷ xs) zero lt = (x, refl)
  get_elem?-in (x ∷ xs) (suc i) lt = get_elem?-in xs i (omega arith)

module _ {ℓ κ} {A : Type ℓ} (P : A → Type κ) where
  -- Every element has the property.
  abbrev pub All : List A → Type κ
  All [] = Unit
  All (x ∷ xs) = P x × All xs

  pub All-append : (xs ys : List A) → All xs → All ys → All (xs ++ ys)
  All-append [] ys hx hy = hy
  All-append (x ∷ xs) ys (px, hx) hy = (px, All-append xs ys hx hy)

pub List-cases {ℓ} :
    {A : Type ℓ} (xs : List A) → (xs ≡ []) ⊎ ((y : A) × (ys : List A) × (xs ≡ y ∷ ys))
List-cases [] = inl refl
List-cases (y ∷ ys) = inr (y, ys, refl)

-- Membership, by recursion.
infix 40 ◌∈◌
abbrev pub ◌∈◌ : {A : Type 0} → A → List A → Type 0
x ∈ [] = ⊥
x ∈ y ∷ ys = (x ≡ y) ⊎ (x ∈ ys)

pub All-∈ : {A : Type 0} (P : A → Type 0) (xs : List A) → ((x : A) → x ∈ xs → P x) → All P xs
All-∈ P [] h = tt
All-∈ P (x ∷ xs) h = (h x (inl refl), All-∈ P xs (λ y m. h y (inr m)))

pub ∈-append : {A : Type 0} (x : A) (xs ys : List A) → (x ∈ (xs ++ ys)) ↔ ((x ∈ xs) ⊎ (x ∈ ys))
∈-append x [] ys = (λ m. inr m, λ m. elim m [ inl n ↦ absurd n | inr k ↦ k ])
∈-append x (y ∷ xs) ys =
    let rest = ∈-append x xs ys in
    (
      λ m. elim m [
        | inl e ↦ inl (inl e)
        | inr k ↦ elim (rest.0 k) [ inl l ↦ inl (inr l) | inr r ↦ inr r ]
      ],
      λ m. elim m [
        | inl l ↦ elim l [ inl e ↦ inl e | inr k ↦ inr (rest.1 (inl k)) ]
        | inr r ↦ inr (rest.1 (inr r))
      ],
    )

module _ {A : Type 0} (P : A → Type 0) where
  pub All-left : (xs ys : List A) → All P (xs ++ ys) → All P xs
  All-left [] ys h = tt
  All-left (x ∷ xs) ys (p, h) = (p, All-left xs ys h)

  pub All-right : (xs ys : List A) → All P (xs ++ ys) → All P ys
  All-right [] ys h = h
  All-right (x ∷ xs) ys (p, h) = All-right xs ys h

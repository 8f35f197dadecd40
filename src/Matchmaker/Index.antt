-- ===== src/Matchmaker/Index.antt =====
-- The index of the pending users by rating: `insertPendingUser` of backend/service/matchmaker.go
-- keeps it sorted, and in step with the map.
use hexchess.Prelude.{
  ℕ, zero, suc, ◌≤◌, ◌<◌, ◌≡◌, refl, ap, Bool, true, false, some, List, [], ◌∷◌, length, get_elem?,
  get_elem?-in, arith, All, Option-cases, inl, inr, ◌⊎◌,
}
use hexchess.Prelude.Search.{Monotone, sort_search-Lowest}
use hexchess.Matchmaker.{Elos, UserEloRecord, elo_test, insert, insert_record}

-- What the model uses of the order of float64 where nothing is NaN.
pub record IsElos {Elo : Type 0} (elos : Elos Elo) : Type 0 where
  pub total : (a b : Elo) → (elos.le a b ≡ true) ⊎ (elos.le b a ≡ true)
  pub trans : (a b c : Elo) → elos.le a b ≡ true → elos.le b c ≡ true → elos.le a c ≡ true
  pub from_minus : (a : Elo) (n : ℕ) → elos.le (elos.minus a n) a ≡ true
  pub to_plus : (a : Elo) (n : ℕ) → elos.le a (elos.plus a n) ≡ true

module _ {A : Type 0} (P : A → Type 0) where
  All-get : (xs : List A) (i : ℕ) (x : A) → All P xs → get_elem? xs i ≡ some x → P x
  All-get [] i x h e = cc
  All-get (y ∷ ys) zero x (p, h) e = let same : y ≡ x = cc in rw⁻¹ same p
  All-get (y ∷ ys) (suc i) x (p, h) e = All-get ys i x h e

  insert-All :
      (xs ys : List A) (i : ℕ) (v : A) → P v → All P xs → insert xs i v ≡ some ys → All P ys
  insert-All xs ys zero v p h e = let same : (v ∷ xs) ≡ ys = cc in rw⁻¹ same (p, h)
  insert-All [] ys (suc i) v p h e = cc
  insert-All (x ∷ xs) ys (suc i) v p (q, h) e = elim (Option-cases (insert xs i v)) [
    | inl n ↦ cc (rw n at e)
    | inr (zs, s) ↦
        let same : (x ∷ zs) ≡ ys = cc (rw s at e) in rw⁻¹ same (q, insert-All xs zs i v p h s)
  ]

insert-returns :
    {A : Type 0} (xs : List A) (i : ℕ) (v : A)
    → i ≤ length xs
    → (ys : List A) × (insert xs i v ≡ some ys)
insert-returns xs zero v le = (v ∷ xs, refl)
insert-returns [] (suc i) v le = absurd (omega arith)
insert-returns (x ∷ xs) (suc i) v le =
    let (ys, e) = insert-returns xs i v (omega arith) in (x ∷ ys, rw e refl)

module _ {Elo : Type 0} (elos : Elos Elo) where
  -- The ratings do not fall.
  abbrev pub Sorted : List (UserEloRecord Elo) → Type 0
  Sorted [] = Unit
  Sorted (r ∷ rs) = All (λ q. elos.le r.user_elo q.user_elo ≡ true) rs × Sorted rs

module _ {Elo : Type 0} (elos : Elos Elo) (laws : IsElos elos) where
  elo_test_total :
      (xs : List (UserEloRecord Elo)) (e : Elo) (i : ℕ)
      → i < length xs
      → (c : Bool) × (elo_test elos xs e i ≡ some c)
  elo_test_total xs e i lt = let (r, q) = get_elem?-in xs i lt in (elos.le e r.user_elo, rw q refl)

  elo_test_mono :
      (xs : List (UserEloRecord Elo)) (e : Elo) (i j : ℕ)
      → Sorted elos xs
      → i ≤ j
      → j < length xs
      → elo_test elos xs e i ≡ some true
      → elo_test elos xs e j ≡ some true
  elo_test_mono [] e i j s le lt t = absurd (omega arith)
  elo_test_mono (x ∷ xs) e zero zero s le lt t = t
  elo_test_mono (x ∷ xs) e (suc i) zero s le lt t = absurd (omega arith)
  elo_test_mono (x ∷ xs) e (suc i) (suc j) (h, s) le lt t =
      elo_test_mono xs e i j s (omega arith) (omega arith) t
  elo_test_mono (x ∷ xs) e zero (suc j) (h, s) le lt t =
      let (r, q) = get_elem?-in xs j (omega arith) in
      let first : elos.le e x.user_elo ≡ true = cc in
      rw q (
        ap some (
          laws.trans e x.user_elo r.user_elo first
            (All-get (λ p. elos.le x.user_elo p.user_elo ≡ true) xs j r h q)))

  tests-All :
      (xs : List (UserEloRecord Elo)) (e : Elo)
      → ((j : ℕ) → j < length xs → elo_test elos xs e j ≡ some true)
      → All (λ q. elos.le e q.user_elo ≡ true) xs
  tests-All [] e t = tt
  tests-All (x ∷ xs) e t =
      (cc (t 0 (omega arith)), tests-All xs e (λ j lt. t (suc j) (omega arith)))

  not_le : (a b : Elo) → elos.le a b ≡ false → elos.le b a ≡ true
  not_le a b e = elim (laws.total a b) [ inl t ↦ cc | inr t ↦ t ]

  insert-Sorted :
      (xs ys : List (UserEloRecord Elo)) (i : ℕ) (r : UserEloRecord Elo)
      → Sorted elos xs
      → insert xs i r ≡ some ys
      → ((j : ℕ) → j < i → elo_test elos xs r.user_elo j ≡ some false)
      → ((j : ℕ) → i ≤ j → j < length xs → elo_test elos xs r.user_elo j ≡ some true)
      → Sorted elos ys
  insert-Sorted xs ys zero r s e below above =
      let same : (r ∷ xs) ≡ ys = cc in
      rw⁻¹ same (tests-All xs r.user_elo (λ j lt. above j (omega arith) lt), s)
  insert-Sorted [] ys (suc i) r s e below above = cc
  insert-Sorted (x ∷ xs) ys (suc i) r (h, s) e below above = elim (Option-cases (insert xs i r)) [
    | inl n ↦ cc (rw n at e)
    | inr (zs, q) ↦
        let same : (x ∷ zs) ≡ ys = cc (rw q at e) in
        let first : elos.le r.user_elo x.user_elo ≡ false = cc (below 0 (omega arith)) in
        rw⁻¹ same (
          insert-All (λ p. elos.le x.user_elo p.user_elo ≡ true) xs zs i r
              (not_le r.user_elo x.user_elo first) h q,
          insert-Sorted xs zs i r s q (λ j lt. below (suc j) (omega arith))
              (λ j ge lt. above (suc j) (omega arith) (omega arith)),
        )
  ]

  -- A record goes into a sorted index without a panic, at the index that the binary search returns,
  -- and the index is sorted again.
  pub insert_record-Sorted :
      (xs : List (UserEloRecord Elo)) (r : UserEloRecord Elo)
      → Sorted elos xs
      → (i : ℕ) × (ys : List (UserEloRecord Elo)) × (insert_record elos r xs ≡ some ys)
        × (insert xs i r ≡ some ys)
        × Sorted elos ys
  insert_record-Sorted xs r s =
      let m : Monotone (length xs) (elo_test elos xs r.user_elo) = record {
        total = elo_test_total xs r.user_elo;
        mono = λ i j le lt t. elo_test_mono xs r.user_elo i j s le lt t;
      } in
      let (i, found, low) = sort_search-Lowest (length xs) (elo_test elos xs r.user_elo) m in
      let (ys, e) = insert-returns xs i r low.bound in
      (i, ys, rw (found, e) refl, e, insert-Sorted xs ys i r s e low.below low.from)

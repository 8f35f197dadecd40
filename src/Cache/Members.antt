-- ===== src/Cache/Members.antt =====
-- Lists of different texts.
use hexchess.Prelude.{
  ℕ, ◌≡◌, refl, sym, subst, Bool, true, false, ◌+◌, List, [], ◌∷◌, Bool-cases, inl, inr, arith,
}
use hexchess.Model.Enums.{Text, same_text, ≡-of_same_text}
use hexchess.Cache.{contains_text, all_distinct}

abbrev pub one_if : Bool → ℕ
one_if true = 1
one_if false = 0

abbrev pub count_text : Text → List Text → ℕ
count_text m [] = 0
count_text m (x ∷ xs) = one_if (same_text m x) + count_text m xs

-- A member is counted once.
pub count_text_distinct :
    (m : Text) (l : List Text) → all_distinct l ≡ true → count_text m l ≡ one_if (contains_text l m)
count_text_distinct m [] d = refl
count_text_distinct m (x ∷ xs) d = elim (Bool-cases (same_text m x)) [
  | inl e ↦
      let absent : contains_text xs m ≡ false =
        subst (λ y. contains_text xs y ≡ false) (sym (≡-of_same_text m x e)) (ground (arith, d)) in
      ground (arith, e, absent, count_text_distinct m xs (ground (arith, d)))
  | inr e ↦ ground (arith, e, count_text_distinct m xs (ground (arith, d)))
]

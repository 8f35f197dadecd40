-- ===== src/Cache.antt =====
-- The commands of redis on sorted sets of texts that backend/service calls: an interface, with the
-- documented effect of each command on the score of every member. Scores are milliseconds.
pub mod Table
pub mod Members
use hexchess.Prelude.{
  ℕ, ◌≡◌, Bool, true, false, not, ◌&&◌, Option, none, some, List, [], ◌∷◌, length, leb,
  if◌then◌else◌,
}
use hexchess.Model.Enums.{Text, same_text}

abbrev pub contains_text : List Text → Text → Bool
contains_text [] m = false
contains_text (x ∷ xs) m = let later = contains_text xs m in if same_text m x then true else later

-- No text is listed twice.
abbrev pub all_distinct : List Text → Bool
all_distinct [] = true
all_distinct (x ∷ xs) = not (contains_text xs x) && all_distinct xs

abbrev pub is_member : Option ℕ → Bool
is_member none = false
is_member (some s) = true

-- A score of at most `hi`.
abbrev pub is_due : ℕ → Option ℕ → Bool
is_due hi none = false
is_due hi (some s) = leb s hi

abbrev pub first_score : Option ℕ → ℕ → ℕ
first_score none s = s
first_score (some t) s = t

abbrev pub new_score : Option ℕ → ℕ → Option ℕ
new_score none s = none
new_score (some t) s = some s

-- The ranges go from `-inf` to the given score.
pub record SortedSets (Z : Type 0) : Type 0 where
  pub zadd : ℕ → Text → Z → Z
  pub zadd_nx : ℕ → Text → Z → Z
  pub zadd_xx : ℕ → Text → Z → Z
  pub zrem : List Text → Z → Z
  pub zscore : Text → Z → Option ℕ
  pub zrange_by_score : ℕ → Z → List Text
  pub zrem_range_by_score : ℕ → Z → Z
  pub zcard : Z → ℕ

-- The members are those of the list, which has each once.
pub record Lists {Z : Type 0} (ops : SortedSets Z) (member : Option ℕ → Bool) (z : Z)
    (l : List Text) : Type 0 where
  pub distinct : all_distinct l ≡ true
  pub listed : (m : Text) → contains_text l m ≡ member (ops.zscore m z)

pub record Documented {Z : Type 0} (ops : SortedSets Z) : Type 0 where
  pub score_zadd :
      (s : ℕ) (m : Text) (z : Z) (n : Text)
      → ops.zscore n (ops.zadd s m z) ≡ (if same_text n m then some s else ops.zscore n z)
  pub score_zadd_nx :
      (s : ℕ) (m : Text) (z : Z) (n : Text)
      → ops.zscore n (ops.zadd_nx s m z)
        ≡ (if same_text n m then some (first_score (ops.zscore m z) s) else ops.zscore n z)
  pub score_zadd_xx :
      (s : ℕ) (m : Text) (z : Z) (n : Text)
      → ops.zscore n (ops.zadd_xx s m z)
        ≡ (if same_text n m then new_score (ops.zscore m z) s else ops.zscore n z)
  pub score_zrem :
      (ms : List Text) (z : Z) (n : Text)
      → ops.zscore n (ops.zrem ms z) ≡ (if contains_text ms n then none else ops.zscore n z)
  pub range : (hi : ℕ) (z : Z) → Lists ops (is_due hi) z (ops.zrange_by_score hi z)
  pub score_zrem_range :
      (hi : ℕ) (z : Z) (n : Text)
      → ops.zscore n (ops.zrem_range_by_score hi z)
        ≡ (if is_due hi (ops.zscore n z) then none else ops.zscore n z)
  pub card : (z : Z) → (l : List Text) × Lists ops is_member z l × (ops.zcard z ≡ length l)

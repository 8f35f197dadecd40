-- ===== src/ActiveUsers.antt =====
-- The users who are connected: backend/service/activeuser.go, on a sorted set of redis. Times are
-- milliseconds; connections do not fail.
pub mod Seen
mod Witnesses
use hexchess.Prelude.{ℕ, ◌-◌, Bool, List, [], ◌∷◌, ltb, if◌then◌else◌}
use hexchess.Model.Enums.{Text}
use hexchess.Cache.{is_member, SortedSets}

abbrev pub active_user_max_age : ℕ
active_user_max_age = 300000

-- What a call leaves, and the count that it returns and broadcasts.
pub record Counted (Z : Type 0) : Type 0 where
  pub users : Z
  pub count : ℕ

module _ {Z : Type 0} (ops : SortedSets Z) where
  unfoldable pub is_active_user : Text → Z → Bool
  is_active_user id z = is_member (ops.zscore id z)

  -- No score is below 0, which the time less the age may be.
  unfoldable pub remove_expired : ℕ → Z → Z
  remove_expired now z =
      if ltb now active_user_max_age
      then z
      else ops.zrem_range_by_score (now - active_user_max_age) z

  unfoldable pub get_active_count : ℕ → Z → Counted Z
  get_active_count now z =
      let left = remove_expired now z in record { users = left; count = ops.zcard left }

  unfoldable pub retain_active_user : ℕ → Text → Z → Z
  retain_active_user now id z = ops.zadd_xx now id z

  unfoldable pub add_active_user : ℕ → Text → Z → Counted Z
  add_active_user now id z = get_active_count now (ops.zadd_nx now id z)

  unfoldable pub remove_active_user : ℕ → Text → Z → Counted Z
  remove_active_user now id z = get_active_count now (ops.zrem (id ∷ []) z)

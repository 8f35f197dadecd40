-- ===== src/Leaderboard.antt =====
-- The leaderboard of a game mode: backend/service/leaderboard.go, on a sorted set of redis and the table
-- of ratings. A member is the identifier of a user, without its text. Connections do not fail.
pub mod Pages
pub mod Syncing
pub mod Ranks
mod Witnesses
use hexchess.Prelude.{
  ℕ, zero, suc, ◌+◌, ◌-◌, ◌*◌, ◌/◌, ◌%◌, ◌≡◌, Bool, true, false, ◌||◌, Option, none, some, List, [],
  ◌∷◌, ◌++◌, length, take, drop, ltb, ◌==◌, if◌then◌else◌, ◌>>=◌,
}

-- The commands of redis on a sorted set: `members` are in the order of ascending scores.
pub record ScoreSets (F Z : Type 0) : Type 0 where
  pub members : Z → List ℕ
  pub zadd_nx : F → ℕ → Z → Z
  pub zrev_range : ℕ → ℕ → Z → List ℕ
  pub zcount : Z → ℕ
  pub zrank : ℕ → Z → Option ℕ

abbrev pub reversed : List ℕ → List ℕ
reversed [] = []
reversed (x ∷ xs) = reversed xs ++ x ∷ []

abbrev pub contains_id : List ℕ → ℕ → Bool
contains_id [] id = false
contains_id (x ∷ xs) id = x == id || contains_id xs id

-- The position of a member, from 0.
abbrev pub later_index : Option ℕ → Option ℕ
later_index none = none
later_index (some k) = some (k + 1)

abbrev pub index_of : ℕ → List ℕ → Option ℕ
index_of id [] = none
index_of id (x ∷ xs) = let later = later_index (index_of id xs) in if x == id then some 0 else later

-- A range has both its ends.
pub record Documented {F Z : Type 0} (ops : ScoreSets F Z) : Type 0 where
  pub rev_range :
      (from to : ℕ) (z : Z)
      → ops.zrev_range from to z ≡ take (suc to - from) (drop from (reversed (ops.members z)))
  pub count : (z : Z) → ops.zcount z ≡ length (ops.members z)
  pub rank : (id : ℕ) (z : Z) → ops.zrank id z ≡ index_of id (ops.members z)
  pub added :
      (score : F) (id : ℕ) (z : Z) (x : ℕ)
      → contains_id (ops.members (ops.zadd_nx score id z)) x
        ≡ (id == x || contains_id (ops.members z) x)

pub record RankedUser : Type 0 where
  pub id : ℕ
  pub rank : ℕ

pub record LeaderboardPage : Type 0 where
  pub ranked_users : List RankedUser
  pub page_count : ℕ

-- The loop over the identifiers.
abbrev pub ranked : ℕ → List ℕ → List RankedUser
ranked start_rank [] = []
ranked start_rank (id ∷ ids) =
    record { id = id; rank = start_rank + 1 } ∷ ranked (start_rank + 1) ids

abbrev pub count_pages : ℕ → ℕ → ℕ
count_pages total per_page = total / per_page + (if total % per_page == 0 then 0 else 1)

-- A row of `user_mode_elos`, and `SelectEloList` of the rows of a mode, which are in order of their users.
pub record EloRow (F : Type 0) : Type 0 where
  pub user_id : ℕ
  pub elo : F

abbrev pub after_id : {F : Type 0} → ℕ → List (EloRow F) → List (EloRow F)
after_id id [] = []
after_id id (r ∷ rs) = let rest = after_id id rs in if ltb id r.user_id then r ∷ rest else rest

abbrev pub select_elo_list : {F : Type 0} → ℕ → ℕ → List (EloRow F) → List (EloRow F)
select_elo_list id limit rows = take limit (after_id id rows)

abbrev pub last_id : {F : Type 0} → ℕ → List (EloRow F) → ℕ
last_id id [] = id
last_id id (r ∷ rs) = last_id r.user_id rs

module _ {F Z : Type 0} (ops : ScoreSets F Z) where
  -- A division by zero is a panic.
  unfoldable pub get_leaderboard : ℕ → ℕ → Z → Option LeaderboardPage
  get_leaderboard start_rank elem_count z =
      let to = start_rank + elem_count - 1 in
      if elem_count == 0
      then none
      else some (record {
        ranked_users = ranked start_rank (ops.zrev_range start_rank to z);
        page_count = count_pages (ops.zcount z) elem_count;
      })

  unfoldable pub get_leaderboard_page : ℕ → ℕ → Z → Option LeaderboardPage
  get_leaderboard_page page per_page z =
      let page' = if ltb page 1 then 1 else page in
      get_leaderboard ((page' - 1) * per_page) per_page z

  -- The rank in `GetLeaderboardUser`; an error where the user is not a member.
  unfoldable pub user_rank : ℕ → Z → Option ℕ
  user_rank id z = ops.zrank id z

  -- An identifier is a natural number here, so that none is that of a guest, which is negative.
  unfoldable pub set_leaderboard : List (EloRow F) → Z → Z
  set_leaderboard [] z = z
  set_leaderboard (change ∷ changes) z =
      set_leaderboard changes (ops.zadd_nx change.elo change.user_id z)

  -- The loop is left when no rows are left.
  abbrev pub unless_done : List (EloRow F) → Z → Option Z → Option Z
  unless_done [] z rest = some z
  unless_done (change ∷ changes) z rest = rest

  -- The loop of `SyncLeaderboard` for a mode, on fuel; `none` is out of fuel.
  unfoldable pub sync_mode : ℕ → ℕ → List (EloRow F) → Z → Option Z
  sync_mode zero after rows z = none
  sync_mode (suc fuel) after rows z =
      let changes = select_elo_list after 20 rows in
      let rest = sync_mode fuel (last_id after changes) rows (set_leaderboard changes z) in
      unless_done changes z rest

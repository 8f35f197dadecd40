-- ===== src/Gameover.antt =====
-- The end of a game in the database: backend/service/gameover.go. The queries and the operations of
-- float64 are parameters; a transaction is one step.
pub mod Handling
pub mod Again
mod Witnesses
use hexchess.Prelude.{
  ℕ, zero, suc, Bool, true, false, not, ◌&&◌, ◌||◌, Option, none, some, List, [], ◌∷◌, ◌++◌, map,
  if◌then◌else◌, ◌>>=◌, ltb, leb,
}
use hexchess.Prelude.Int.{ℤ, pos, negsuc, same_id}
use hexchess.Model.Enums.{Text, GameMode, ReplayCause, timeout}
use hexchess.Model.Serde.{PbGame, PbHistMove, serialize_game, serialize_hist_move}
use hexchess.Chess.Board.{Board}
use hexchess.Chess.Notation.{HistMove}
use hexchess.Chess.Game.{new_game, init_piece_moves}
use hexchess.Gameplay.State.{ChessState, is_guest_id}
use hexchess.Gameplay.Service.{FinishGameEvent}
use hexchess.Tournament.Scoring.{ReplayResult, white_win, black_win, draw}

-- float64, as far as ratings use it.
pub record Floats (F : Type 0) : Type 0 where
  pub plus : F → F → F
  pub minus : F → F → F
  pub times : F → F → F
  pub nought : F
  pub one : F
  pub thirty : F
  pub minus_thirty : F
  pub is_zero : F → Bool
  pub start_elo : F
  pub divide : F → F → F
  pub four_hundred : F
  -- `math.Pow(10, x)`.
  pub pow_ten : F → F

pub record GameResult : Type 0 where
  pub game_id : Text
  pub white_id : ℤ
  pub black_id : ℤ
  pub replay_cause : ReplayCause
  pub replay_result : ReplayResult
  pub replay_mode : GameMode
  pub inserted_time : ℕ

pub record GameResultChangeSet (F : Type 0) : Type 0 where
  pub replay_id : ℕ
  pub win_id : ℤ
  pub lose_id : ℤ
  pub win_elo_diff : F
  pub lose_elo_diff : F
  pub white_elo_next : F
  pub black_elo_next : F
  pub already_exists : Bool

pub record UserEloUpdate (F : Type 0) : Type 0 where
  pub user_id : ℤ
  pub mode : GameMode
  pub elo : F
  pub wins : ℕ
  pub losses : ℕ
  pub draws : ℕ

-- An identifier that is not valid is NULL.
pub record InsertReplay (F : Type 0) : Type 0 where
  pub game_id : Text
  pub white_id : Option ℤ
  pub black_id : Option ℤ
  pub result : ReplayResult
  pub cause : ReplayCause
  pub mode : GameMode
  pub win_elo : F
  pub lose_elo : F
  pub white_elo : F
  pub black_elo : F
  pub played_on : ℕ
  pub turn_count : ℕ

pub record PbMoveHistory : Type 0 where
  pub initial_game : PbGame
  pub steps : List PbHistMove

-- `MarshalMoveHistory` of backend/model/serde.go, before its bytes.
unfoldable pub marshal_move_history : Board → List HistMove → Option PbMoveHistory
marshal_move_history initial moves = do
  game ← init_piece_moves (new_game initial)
  message ← serialize_game game
  some (record { initial_game = message; steps = map serialize_hist_move moves })

-- The queries on the database.
pub record Querier (F DB : Type 0) : Type 0 where
  pub select_replay_id : Text → DB → Option ℕ
  pub select_user_mode_elos : GameMode → List ℤ → DB → List (ℤ × F)
  pub upsert_user_elo : List (UserEloUpdate F) → DB → DB
  pub insert_replay : InsertReplay F → DB → DB × ℕ
  pub upsert_move_history : ℕ → PbMoveHistory → DB → DB
  pub select_tournament : Text → DB → Option Text

abbrev pub is_non_guest_id : ℤ → Bool
is_non_guest_id (pos zero) = false
is_non_guest_id (pos (suc n)) = true
is_non_guest_id (negsuc n) = false

-- Both branches of the source take the present time.
abbrev pub create_game_result : ℕ → FinishGameEvent → GameResult
create_game_result now e = record {
  game_id = e.game_id;
  white_id = e.white_id;
  black_id = e.black_id;
  replay_cause = e.replay_cause;
  replay_result = e.replay_result;
  replay_mode = e.replay_mode;
  inserted_time = now;
}

abbrev pub valid_id : ℤ → Option ℤ
valid_id id = if is_non_guest_id id then some id else none

-- `left <= right`.
abbrev pub leb_ℤ : ℤ → ℤ → Bool
leb_ℤ (pos m) (pos n) = leb m n
leb_ℤ (negsuc m) (negsuc n) = leb n m
leb_ℤ (negsuc m) (pos n) = true
leb_ℤ (pos m) (negsuc n) = false

-- `slices.SortFunc` by user, on the lists of at most two that it is called with.
abbrev pub sort_ids : List ℤ → List ℤ
sort_ids (a ∷ b ∷ []) = if leb_ℤ a b then a ∷ b ∷ [] else b ∷ a ∷ []
sort_ids ids = ids

module _ {F : Type 0} (floats : Floats F) where
  abbrev pub sort_updates : List (UserEloUpdate F) → List (UserEloUpdate F)
  sort_updates (a ∷ b ∷ []) = if leb_ℤ a.user_id b.user_id then a ∷ b ∷ [] else b ∷ a ∷ []
  sort_updates us = us

  abbrev pub no_change : GameResultChangeSet F
  no_change = record {
    replay_id = 0;
    win_id = pos 0;
    lose_id = pos 0;
    win_elo_diff = floats.nought;
    lose_elo_diff = floats.nought;
    white_elo_next = floats.nought;
    black_elo_next = floats.nought;
    already_exists = false;
  }

  -- The ratings of the two after the loop over the rows.
  abbrev pub elos_of_rows : GameResult → List (ℤ × F) → F × F → F × F
  elos_of_rows r [] elos = elos
  elos_of_rows r ((id, elo) ∷ rows) (white, black) = elos_of_rows r rows (
      if same_id id r.white_id
      then (elo, black)
      else if same_id id r.black_id
      then (white, elo)
      else (white, black))

  abbrev pub draw_update : ℤ → GameMode → F → UserEloUpdate F
  draw_update id mode elo = record {
    user_id = id;
    mode = mode;
    elo = elo;
    wins = 0;
    losses = 0;
    draws = 1;
  }

  abbrev pub drawn : GameResult → F × F → GameResultChangeSet F × List (UserEloUpdate F)
  drawn r (white, black) = (
    record no_change { white_elo_next = white; black_elo_next = black },
    draw_update r.white_id r.replay_mode white ∷ draw_update r.black_id r.replay_mode black ∷ [],
  )

  abbrev pub probability_wins : F → F → F
  probability_wins elo1 elo2 = floats.divide floats.one (
      floats.plus floats.one
        (floats.pow_ten (floats.divide (floats.minus elo2 elo1) floats.four_hundred)))

  -- The next ratings of the winner and of the loser.
  abbrev pub win_elo_next : F → F → F
  win_elo_next win lose =
      floats.plus win
        (floats.times floats.thirty (floats.minus floats.one (probability_wins lose win)))

  abbrev pub lose_elo_next : F → F → F
  lose_elo_next win lose =
      floats.plus lose (floats.times floats.minus_thirty (probability_wins win lose))

  abbrev pub won : GameMode → ℤ → ℤ → F → F → Bool → GameResultChangeSet F × List (UserEloUpdate F)
  won mode win_id lose_id win lose is_white = (
    record {
      replay_id = 0;
      win_id = win_id;
      lose_id = lose_id;
      win_elo_diff = floats.minus (win_elo_next win lose) win;
      lose_elo_diff = floats.minus (lose_elo_next win lose) lose;
      white_elo_next = if is_white then win_elo_next win lose else lose_elo_next win lose;
      black_elo_next = if is_white then lose_elo_next win lose else win_elo_next win lose;
      already_exists = false;
    },
    record {
      user_id = win_id;
      mode = mode;
      elo = win_elo_next win lose;
      wins = 1;
      losses = 0;
      draws = 0;
    }
        ∷ record {
          user_id = lose_id;
          mode = mode;
          elo = lose_elo_next win lose;
          wins = 0;
          losses = 1;
          draws = 0;
        }
        ∷ [],
  )

  abbrev pub decided :
      ReplayResult → GameResult → F × F → GameResultChangeSet F × List (UserEloUpdate F)
  decided draw r elos = drawn r elos
  decided white_win r (white, black) = won r.replay_mode r.white_id r.black_id white black true
  decided black_win r (white, black) = won r.replay_mode r.black_id r.white_id black white false

  unfoldable pub create_insert_game_result_change_set :
      GameResult → List (ℤ × F) → GameResultChangeSet F × List (UserEloUpdate F)
  create_insert_game_result_change_set r rows =
      if is_guest_id r.white_id || is_guest_id r.black_id
      then (no_change, [])
      else decided r.replay_result r (elos_of_rows r rows (floats.start_elo, floats.start_elo))

  abbrev pub create_insert_replay_params : GameResult → GameResultChangeSet F → InsertReplay F
  create_insert_replay_params r c = record {
    game_id = r.game_id;
    white_id = valid_id r.white_id;
    black_id = valid_id r.black_id;
    result = r.replay_result;
    cause = r.replay_cause;
    mode = r.replay_mode;
    win_elo = c.win_elo_diff;
    lose_elo = c.lose_elo_diff;
    white_elo = c.white_elo_next;
    black_elo = c.black_elo_next;
    played_on = r.inserted_time;
    turn_count = 0;
  }

-- ===== src/Gameover/Handling.antt =====
-- `HandleFinishedGame` of backend/service/gameover.go, with all that it does to the database, the
-- leaderboard and the queue. An error of a query or of a command is left out, but for a missing row.
use hexchess.Prelude.{ℕ, true, ◌||◌, Option, none, some, List, [], ◌∷◌, ◌++◌, if◌then◌else◌, ◌>>=◌}
use hexchess.Prelude.Int.{ℤ}
use hexchess.Model.Enums.{Text, GameMode, ReplayCause, checkmate, forfeit, stalemate, timeout}
use hexchess.Gameplay.State.{ChessState, is_guest_id}
use hexchess.Gameplay.Service.{FinishGameEvent}
use hexchess.Tournament.Scoring.{white_win, black_win}
use hexchess.Gameover.{
  Floats, GameResult, GameResultChangeSet, marshal_move_history, Querier, create_game_result,
  sort_ids, sort_updates, no_change, create_insert_game_result_change_set,
  create_insert_replay_params,
}

-- An increment of the leaderboard of a mode.
pub record Increment (F : Type 0) : Type 0 where
  pub mode : GameMode
  pub user_id : ℤ
  pub elo_diff : F

-- The database, the increments so far, and the tournaments that are to be advanced.
pub record World (F DB : Type 0) : Type 0 where
  pub db : DB
  pub increments : List (Increment F)
  pub advances : List Text

pub record FinishedGameResult : Type 0 where
  pub replay_id : ℕ
  pub game_id : Text

pub data Handled (F DB : Type 0) : Type 0 where
  handled : World F DB → FinishedGameResult → Handled F DB
  -- The state of the game is not in redis.
  no_state : Handled F DB

abbrev pub backfilled : ChessState → FinishGameEvent → FinishGameEvent
backfilled s e = record e {
  replay_result = if s.game.board.is_white_turn then black_win else white_win;
  replay_mode = s.mode;
  black_id = s.black_player.id;
  white_id = s.white_player.id;
  initial_board = s.initial_board;
  moves = s.game.moves;
}

-- `backfillEvent`; a timeout reads the state.
abbrev pub backfill_for : ReplayCause → Option ChessState → FinishGameEvent → Option FinishGameEvent
backfill_for timeout none e = none
backfill_for timeout (some s) e = some (backfilled s e)
backfill_for checkmate s e = some e
backfill_for forfeit s e = some e
backfill_for stalemate s e = some e

abbrev pub backfill_event : Option ChessState → FinishGameEvent → Option FinishGameEvent
backfill_event s e = backfill_for e.replay_cause s e

module _ {F DB : Type 0} (floats : Floats F) (querier : Querier F DB) where
  -- A game that has no replay yet.
  abbrev pub insert_new_result : GameResult → DB → DB × GameResultChangeSet F
  insert_new_result r db =
      let (change_set, updates) = create_insert_game_result_change_set floats r (
        querier.select_user_mode_elos r.replay_mode (sort_ids (r.white_id ∷ r.black_id ∷ [])) db) in
      let (db', replay_id) =
        querier.insert_replay (create_insert_replay_params floats r change_set)
          (querier.upsert_user_elo (sort_updates floats updates) db) in
      (db', record change_set { replay_id = replay_id })

  abbrev pub result_for : Option ℕ → GameResult → DB → DB × GameResultChangeSet F
  result_for (some id) r db =
      (db, record (no_change floats) { replay_id = id; already_exists = true })
  result_for none r db = insert_new_result r db

  unfoldable pub insert_game_result : GameResult → DB → DB × GameResultChangeSet F
  insert_game_result r db = result_for (querier.select_replay_id r.game_id db) r db

  abbrev pub increment_for : GameMode → ℤ → F → List (Increment F)
  increment_for mode id elo_diff =
      if is_guest_id id || floats.is_zero elo_diff
      then []
      else record { mode = mode; user_id = id; elo_diff = elo_diff } ∷ []

  unfoldable pub update_leaderboard : GameMode → GameResultChangeSet F → List (Increment F)
  update_leaderboard mode c =
      increment_for mode c.win_id c.win_elo_diff ++ increment_for mode c.lose_id c.lose_elo_diff

  abbrev pub publish_tournament_event : Text → DB → List Text
  publish_tournament_event game_id db = elim (querier.select_tournament game_id db) [
    | none ↦ []
    | some key ↦ key ∷ []
  ]

  -- After the event was filled in; `none` is a panic.
  abbrev pub handle_filled : ℕ → FinishGameEvent → World F DB → Option (Handled F DB)
  handle_filled now e w = do
    let (db1, change_set) = insert_game_result (create_game_result now e) w.db
    history ← marshal_move_history e.initial_board e.moves
    let db2 = querier.upsert_move_history change_set.replay_id history db1
    some (
        handled
          (record {
            db = db2;
            increments = w.increments ++ update_leaderboard e.replay_mode change_set;
            advances = w.advances ++ publish_tournament_event e.game_id db2;
          })
          (record { replay_id = change_set.replay_id; game_id = e.game_id }))

  abbrev pub handle_backfilled : ℕ → Option FinishGameEvent → World F DB → Option (Handled F DB)
  handle_backfilled now none w = some no_state
  handle_backfilled now (some e) w = handle_filled now e w

  unfoldable pub handle_finished_game :
      ℕ → Option ChessState → FinishGameEvent → World F DB → Option (Handled F DB)
  handle_finished_game now s e w = handle_backfilled now (backfill_event s e) w

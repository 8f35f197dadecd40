-- ===== src/Gameover/Witnesses.antt =====
-- The theorems on finished games with a table of replays for a database and whole numbers for ratings.
use hexchess.Prelude.{
  ℕ, suc, ◌+◌, ◌-◌, ◌*◌, ◌≡◌, refl, true, ◌==◌, Option, some, none, List, [], ◌∷◌, length,
  if◌then◌else◌,
}
use hexchess.Prelude.Int.{pos}
use hexchess.Model.Enums.{Text, same_text, same_text_refl, timed_1_plus_0, forfeit}
use hexchess.Chess.Start.{blank_board}
use hexchess.Gameplay.State.{is_guest_id}
use hexchess.Gameplay.Service.{FinishGameEvent}
use hexchess.Tournament.Scoring.{white_win}
use hexchess.Gameover.{Floats, Querier, create_insert_game_result_change_set}
use hexchess.Gameover.Handling.{
  World, FinishedGameResult, handled, insert_game_result, update_leaderboard, handle_finished_game,
}
use hexchess.Gameover.Again.{IsQuerier, marshal_move_history-returns, handle_finished_game-again}

abbrev whole : Floats ℕ
whole = record {
  plus = λ a b. a + b;
  minus = λ a b. a - b;
  times = λ a b. a * b;
  nought = 0;
  one = 1;
  thirty = 30;
  minus_thirty = 0;
  is_zero = λ a. a == 0;
  start_elo = 1000;
  divide = λ a b. 0;
  four_hundred = 400;
  pow_ten = λ a. 1;
}

abbrev find_replay : Text → List (Text × ℕ) → Option ℕ
find_replay g [] = none
find_replay g ((key, id) ∷ rows) =
    let rest = find_replay g rows in if same_text key g then some id else rest

abbrev table : Querier ℕ (List (Text × ℕ))
table = record {
  select_replay_id = λ g db. find_replay g db;
  select_user_mode_elos = λ mode ids db. (pos 1, 1200) ∷ [];
  upsert_user_elo = λ us db. db;
  insert_replay = λ r db. ((r.game_id, suc (length db)) ∷ db, suc (length db));
  upsert_move_history = λ id h db. db;
  select_tournament = λ g db. some (9 ∷ []);
}

table-IsQuerier : IsQuerier table
table-IsQuerier = record {
  replay_found = λ r db. rw (same_text_refl r.game_id) refl;
  history_keeps = λ g id h db. refl;
  history_again = λ id h db. refl;
}

abbrev event : FinishGameEvent
event = record {
  game_id = 5 ∷ [];
  initial_board = blank_board true;
  moves = [];
  white_id = pos 1;
  black_id = pos 2;
  replay_mode = timed_1_plus_0;
  replay_result = white_win;
  replay_cause = forfeit;
}

abbrev world : World ℕ (List (Text × ℕ))
world = record { db = []; increments = []; advances = [] }

abbrev once : World ℕ (List (Text × ℕ))
once = record {
  db = (5 ∷ [], 1) ∷ [];
  increments = record { mode = timed_1_plus_0; user_id = pos 1; elo_diff = 30 } ∷ [];
  advances = (9 ∷ []) ∷ [];
}

abbrev first_result : FinishedGameResult
first_result = record { replay_id = 1; game_id = 5 ∷ [] }

handled_once :
    handle_finished_game whole table 7 none event world ≡ some (handled once first_result)
unfolding handle_finished_game insert_game_result update_leaderboard
    create_insert_game_result_change_set is_guest_id
handled_once =
    let (h, m) = marshal_move_history-returns event.initial_board event.moves in rw m refl

handle_finished_game-again_example :
    (advances : List Text) × (handle_finished_game whole table 8 none event once
      ≡ some (handled (record once { advances = advances }) first_result))
handle_finished_game-again_example =
    handle_finished_game-again whole refl table table-IsQuerier 7 8 none event world once
      first_result handled_once

-- ===== src/Gameplay/Witnesses.antt =====
-- The theorems on games in play at a game of one move.
use hexchess.Prelude.{
  ℕ, zero, suc, ◌≡◌, [], ◌∷◌, some, none, true, false, refl, if◌then◌else◌, arith,
}
use hexchess.Prelude.Int.{pos}
use hexchess.Chess.Game.{new_game}
use hexchess.Chess.Game.Ready.{init_piece_moves-Ready}
use hexchess.Chess.Witnesses.{
  demo_board, demo, demo_ready, opened, moved_on, rook_up, unplayed, hist_of, opened-Played,
  rook_up-moved,
}
use hexchess.Chess.Game.Play.{new_valid_move}
use hexchess.Model.Enums.{random, white, checkmate, timed_1_plus_0}
use hexchess.Gameplay.State.{
  ChessState, ChessStateArgs, PlayerState, not_ended, UndoResult, undo, new_chess_state_value,
  has_both_players, is_ended, curr_player,
}
use hexchess.Gameplay.Service.{
  Updated, make_game_move, join_game, attempt_game_undo, undo_accept, end_game, commit_move,
  after_move,
}
use hexchess.Gameplay.Service.Sane.{Sane, checkmate-returns}
use hexchess.Gameplay.Service.TakenBack.{TakenBack, undo-TakenBack}
use hexchess.Gameplay.Service.Undoing.{Attempted, attempt_game_undo-Attempted}
use hexchess.Gameplay.Service.Moving.{MoveAnswer, MadeMove, make_game_move-MoveAnswer}
use hexchess.Gameplay.Service.Creation.{create_game, with_id, stored, new_start_board-returns}
use hexchess.Chess.Game.Replay.Restore.{history_redoes}
use hexchess.Chess.Game.Replay.Restore as Restore
use hexchess.Model.Serde.Reload.{reloaded_state}
use hexchess.Gameplay.Service.Kept.{Kept}
use hexchess.Gameplay.Service.Lives.{join, Follows, at_first, requested, Follows-Kept}
use hexchess.Chess.Board.{Board}
use hexchess.Gameplay.Service.Ending.{
  Ended, end_game-Ended, event_of, win_for, commit_move-MadeMove,
}
use hexchess.Chess.Game.Play.Turns.{new_valid_move-Plays}
use hexchess.Chess.Tests.{machine}
use hexchess.Chess.Start.{new_initial_board}
use hexchess.Gameplay.Repo.{
  Operation, Interference, Cell, changed, put, retry_txn, update_chess_state_txn,
}
use hexchess.Gameplay.Repo.Atomic.{Linear, update_chess_state_txn-Linear}

abbrev pub player : PlayerState
player = record { id = pos 7; name = []; country = []; present = true }

abbrev pub in_play : ChessState
in_play = record {
  undo_id = pos 0;
  id = [];
  start_time = 0;
  white_player = player;
  black_player = record player { id = pos 8 };
  first_color = random;
  mode = timed_1_plus_0;
  end_state = not_ended;
  initial_board = demo_board;
  game = moved_on;
}

-- The game before its first move, with players that have yet to come.
abbrev nobody : PlayerState
nobody = record player { present = false }

abbrev at_start : ChessState
at_start = record in_play { game = new_game demo_board }

make_game_move-MoveAnswer_example :
    (u : Updated) × (make_game_move player rook_up at_start ≡ some u)
    × MoveAnswer player rook_up at_start u
make_game_move-MoveAnswer_example =
    make_game_move-MoveAnswer player rook_up at_start (λ ws bs w b. cc)

abbrev demo_args : ChessStateArgs
demo_args = record {
  id = [];
  mode = timed_1_plus_0;
  first_color = white;
  white = nobody;
  black = nobody;
  initial_board = some demo_board;
  game = none;
  end_state = not_ended;
  undo_id = pos 0;
}

abbrev demo_state : ChessState
demo_state = stored 0 (with_id (7 ∷ []) demo_args) demo_board demo_ready

demo_created : create_game 0 (7 ∷ []) demo_args ≡ some demo_state
unfolding create_game new_chess_state_value
demo_created = ground (arith, new_start_board-returns.1, (init_piece_moves-Ready demo).1)

-- Somebody has joined, and then the other player.
abbrev one_joined : ChessState
one_joined = record (reloaded_state demo_state) { white_player = player }

abbrev two_joined : ChessState
two_joined = record (reloaded_state one_joined) { black_player = record player { id = pos 8 } }

joined_twice : Follows demo_state two_joined
unfolding join_game
joined_twice =
    requested one_joined two_joined (join none (record player { id = pos 8 }))
      (requested demo_state one_joined (join (some true) player) at_first refl) refl

Follows-Kept_example : Kept demo_state two_joined
Follows-Kept_example = Follows-Kept demo_state two_joined joined_twice

-- The game of one move, with an undo that the other player asked for.
abbrev pub asked : ChessState
asked = record in_play { undo_id = pos 7 }

pub asked-Sane : Sane asked
unfolding has_both_players
asked-Sane =
    let r = history_redoes demo_board moved_on (
      Restore.play opened moved_on rook_up (hist_of (new_valid_move opened rook_up) unplayed)
        opened-Played rook_up-moved) in
    record { replays = r.replays; consistent = λ ws bs w b. r.playable; apart = λ e. refl }

undo-TakenBack_example : (r : UndoResult) × (undo asked ≡ some r) × TakenBack asked r
undo-TakenBack_example = undo-TakenBack asked asked-Sane

attempt_game_undo-Attempted_example :
    (u : Updated) × (attempt_game_undo undo_accept (record player { id = pos 8 }) asked ≡ some u)
    × Attempted (record player { id = pos 8 }) asked undo_accept u
attempt_game_undo-Attempted_example =
    attempt_game_undo-Attempted undo_accept (record player { id = pos 8 }) asked asked-Sane

-- Adding one to a number, which somebody else writes in between the first attempt.
abbrev increment : Operation ℕ ℕ ℕ ℕ
increment = record {
  unmarshal = λ b. some b;
  marshal = λ s. some s;
  change = λ s. changed (suc s);
  commit = some (λ s. some (s ∷ []));
}

abbrev disturbance : ℕ → Interference ℕ ℕ ℕ ℕ
disturbance zero = record { before = []; between = put (some 5) ∷ []; now = 1 }
disturbance (suc i) = record { before = []; between = []; now = 2 }

abbrev cell : Cell ℕ ℕ ℕ ℕ
cell = record { value = some 1; timer = none; events = [] }

update_chess_state_txn-Linear_example :
    Linear increment 5 0 disturbance cell (update_chess_state_txn increment disturbance cell)
update_chess_state_txn-Linear_example = update_chess_state_txn-Linear increment disturbance cell

second_attempt_writes :
    (update_chess_state_txn increment disturbance cell).0
    ≡ record { value = some 6; timer = some 2; events = 6 ∷ [] }
unfolding update_chess_state_txn retry_txn
second_attempt_writes = refl

forfeit_ends_the_game : Ended player in_play (end_game player in_play)
forfeit_ends_the_game = end_game-Ended player in_play

-- The state before the move of `in_play`.
abbrev before_move : ChessState
before_move = record in_play { game = opened }

rook_up_made :
    MadeMove player rook_up before_move
      (after_move before_move moved_on (checkmate-returns moved_on).0)
unfolding has_both_players is_ended curr_player machine
rook_up_made =
    let r = history_redoes demo_board opened opened-Played in
    let mated = checkmate-returns moved_on in
    record {
      on_turn = record { both = refl; going_on = refl; turn = refl };
      before = opened;
      ensured = record {
        position = record { board = refl; taken_white = refl; taken_black = refl };
        history = refl;
        playable = r.playable;
      };
      after = moved_on;
      plays =
          new_valid_move-Plays opened moved_on rook_up
            (hist_of (new_valid_move opened rook_up) unplayed) r.playable rook_up-moved;
      mate = mated.0;
      decided = mated.1;
      next = refl;
    }

commit_move-MadeMove_example :
    (initial : Board) × (new_initial_board ≡ some initial)
    × (commit_move (after_move before_move moved_on (checkmate-returns moved_on).0)
        ≡ some (
            if (checkmate-returns moved_on).0
            then some (
                event_of initial
                  (win_for before_move.game.board.is_white_turn)
                  checkmate
                  (after_move before_move moved_on (checkmate-returns moved_on).0))
            else none))
unfolding rook_up_made
commit_move-MadeMove_example =
    commit_move-MadeMove player rook_up before_move
      (after_move before_move moved_on (checkmate-returns moved_on).0) rook_up_made

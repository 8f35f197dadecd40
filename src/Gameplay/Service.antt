-- ===== src/Gameplay/Service.antt =====
-- backend/service/gameplay.go: what each request does to the state of a game, as the closures
-- `update` and `commit` of JoinGame, MakeGameMove, AttemptGameUndo and EndGame. A panic is `none`.
pub mod Sane
pub mod TakenBack
pub mod Moving
pub mod Kept
pub mod Seats
pub mod Undoing
pub mod Creation
pub mod Ending
pub mod Lives
use hexchess.Prelude.{
  ℕ, Bool, true, false, not, ◌&&◌, ◌||◌, Option, none, some, List, ◌==◌, if◌then◌else◌, ◌>>=◌,
}
use hexchess.Prelude.Int.{ℤ, pos}
use hexchess.Model.Enums.{
  GameMode, GameColor, random, white, black, ReplayCause, checkmate, forfeit,
}
use hexchess.Chess.Board.{Board}
use hexchess.Chess.Notation.{Move, HistMove}
use hexchess.Chess.Game.{Game, ensure_piece_moves, clear_tables}
use hexchess.Chess.Game as Rules
use hexchess.Chess.Game.Play.{MoveError, MoveResult, moved, refused, new_valid_move}
use hexchess.Chess.Game.Replay.{JumpIndexError}
use hexchess.Chess.Start.{new_initial_board}
use hexchess.Gameplay.State.{
  EndKind, not_ended, aborted, finished, is_ended, PlayerState, same_id, is_same, ChessState,
  has_both_players, is_either_player, curr_player, UndoResult, undone, no_move_undo, jump_failed,
  undo,
}
use hexchess.Tournament.Scoring.{ReplayResult, white_win, black_win}

-- The errors of a request, backend/service/gameerrs.go, and those of the state that it works on.
pub data GameError : Type 0 where
  started_game finished_game forfeit_player : GameError
  wrong_turn : ℤ → ℤ → GameError
  invalid_move : ℤ → MoveError → GameError
  undo_noop undo_curr_player no_undo no_moves : GameError
  undo_jump : JumpIndexError → GameError
  random_source : GameError

-- What `update` leaves: the state that it changed, or an error.
pub data Updated : Type 0 where
  updated : ChessState → Updated
  failed : GameError → Updated

-- `pickWhite`: on a random first colour, by the parity of a random number.
abbrev pub pick_white : GameColor → Bool → Bool
pick_white random even = even
pick_white white even = true
pick_white black even = false

abbrev pub seat_white : ChessState → PlayerState → ChessState
seat_white s p = record s { white_player = p }

abbrev pub seat_black : ChessState → PlayerState → ChessState
seat_black s p = record s { black_player = p }

-- The first player of a game; the random source may fail.
abbrev pub join_first : Option Bool → PlayerState → ChessState → Updated
join_first none p s = failed random_source
join_first (some even) p s =
    updated (if pick_white s.first_color even then seat_white s p else seat_black s p)

unfoldable pub join_game : Option Bool → PlayerState → ChessState → Updated
join_game random_even p s =
    if not p.present
    then updated s
    else if not s.white_player.present && not s.black_player.present
    then join_first random_even p s
    else if s.black_player.present && not s.white_player.present
    then updated (if same_id s.black_player.id p.id then s else seat_white s p)
    else if s.white_player.present && not s.black_player.present
    then updated (if same_id s.white_player.id p.id then s else seat_black s p)
    else updated s

-- After the move.
abbrev pub after_move : ChessState → Game → Bool → ChessState
after_move s g is_checkmate = record s {
  end_state = if is_checkmate then finished else s.end_state;
  undo_id = pos 0;
  game = clear_tables g;
}

abbrev pub settle_move : PlayerState → ChessState → Game × MoveResult → Option Updated
settle_move p s (g, refused e) = some (failed (invalid_move p.id e))
settle_move p s (g, moved hm) = do
  is_checkmate ← Rules.checkmate g
  some (updated (after_move s g is_checkmate))

abbrev pub play_move : PlayerState → Move → ChessState → Option Updated
play_move p move s = do g ← ensure_piece_moves s.game; r ← new_valid_move g move; settle_move p s r

unfoldable pub make_game_move : PlayerState → Move → ChessState → Option Updated
make_game_move p move s =
    if not (has_both_players s)
    then some (failed started_game)
    else if is_ended s.end_state
    then some (failed finished_game)
    else if not (curr_player s).present || not (same_id (curr_player s).id p.id)
    then some (failed (wrong_turn p.id (curr_player s).id))
    else play_move p move s

pub data UndoKind : Type 0 where
  undo_create undo_accept undo_reject : UndoKind

abbrev pub without_undo : ChessState → ChessState
without_undo s = record s { undo_id = pos 0 }

abbrev pub accepted : UndoResult → Updated
accepted (undone s) = updated (without_undo s)
accepted no_move_undo = failed no_moves
accepted (jump_failed e) = failed (undo_jump e)

abbrev accept : ChessState → Option Updated
accept s = do r ← undo s; some (accepted r)

unfoldable pub attempt_game_undo : UndoKind → PlayerState → ChessState → Option Updated
attempt_game_undo undo_create p s = some (
    if is_same p (curr_player s)
    then failed undo_curr_player
    else updated (record s { undo_id = p.id }))
attempt_game_undo undo_accept p s =
    if same_id s.undo_id (pos 0)
    then some (failed no_undo)
    else if not (same_id s.undo_id p.id)
    then accept s
    else some (failed undo_noop)
attempt_game_undo undo_reject p s =
    some (if same_id s.undo_id (pos 0) then failed no_undo else updated (without_undo s))

unfoldable pub end_game : PlayerState → ChessState → Updated
end_game p s =
    if is_ended s.end_state
    then failed finished_game
    else if not (is_either_player s p)
    then failed forfeit_player
    else updated (record s {
      end_state = if s.white_player.present && s.black_player.present then finished else aborted;
    })

-- `FinishGameEvent`, as far as these functions fill it in.
pub record FinishGameEvent : Type 0 where
  pub game_id : List ℕ
  pub initial_board : Board
  pub moves : List HistMove
  pub white_id : ℤ
  pub black_id : ℤ
  pub replay_mode : GameMode
  pub replay_result : ReplayResult
  pub replay_cause : ReplayCause

abbrev pub finish_event : ReplayResult → ReplayCause → ChessState → Option FinishGameEvent
finish_event result cause s = do
  initial ← new_initial_board
  some (record {
    game_id = s.id;
    initial_board = initial;
    moves = s.game.moves;
    white_id = s.white_player.id;
    black_id = s.black_player.id;
    replay_mode = s.mode;
    replay_result = result;
    replay_cause = cause;
  })

-- The event that the commit adds to the stream, if any; the outer `none` is a panic.
abbrev pub announce : Bool → Option FinishGameEvent → Option (Option FinishGameEvent)
announce true event = do e ← event; some (some e)
announce false event = some none

unfoldable pub commit_move : ChessState → Option (Option FinishGameEvent)
commit_move s =
    announce (is_ended s.end_state && has_both_players s)
      (finish_event (if s.game.board.is_white_turn then black_win else white_win) checkmate s)

unfoldable pub commit_end : PlayerState → ChessState → Option (Option FinishGameEvent)
commit_end p s =
    announce (is_ended s.end_state && has_both_players s)
      (finish_event (if same_id s.black_player.id p.id then white_win else black_win) forfeit s)

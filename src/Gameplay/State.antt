-- ===== src/Gameplay/State.antt =====
-- The state of a game in play: `ChessState` of backend/model/chess.go and `PlayerState` of
-- backend/model/playerstate.go. Identifiers of games are texts, and times are nanoseconds.
pub mod Undo
use hexchess.Prelude.{
  ℕ, zero, suc, Bool, true, false, not, ◌&&◌, ◌||◌, Option, none, some, List, [], ◌∷◌, length, ◌==◌,
  if◌then◌else◌, ◌>>=◌,
}
use hexchess.Prelude.Int.{ℤ, pos, negsuc}
pub use hexchess.Prelude.Int.{same_id}
use hexchess.Model.Enums.{GameColor, GameMode}
use hexchess.Chess.Board.{Board}
use hexchess.Chess.Game.{Game, new_game, deep_copy}
use hexchess.Chess.Game.Replay.{JumpIndexError, Jumped, jumped, bad_index, jump_move_index}
use hexchess.Chess.Start.{new_start_board}

pub data EndKind : Type 0 where
  not_ended aborted finished : EndKind

unfoldable pub is_ended : EndKind → Bool
is_ended not_ended = false
is_ended aborted = true
is_ended finished = true

pub record PlayerState : Type 0 where
  pub id : ℤ
  pub name : List ℕ
  pub country : List ℕ
  pub present : Bool

-- Guests have negative ids.
unfoldable pub is_guest_id : ℤ → Bool
is_guest_id (pos n) = false
is_guest_id (negsuc n) = true

unfoldable pub non_guest : PlayerState → Bool
non_guest p = not (is_guest_id p.id) && p.present

unfoldable pub is_same : PlayerState → PlayerState → Bool
is_same p q = p.present && q.present && same_id p.id q.id

-- `len(moves) - 2` for a length that is not 0.
abbrev pub less_two : ℕ → ℤ
less_two zero = negsuc 1
less_two (suc zero) = negsuc 0
less_two (suc (suc n)) = pos n

pub record ChessState : Type 0 where
  pub undo_id : ℤ
  pub id : List ℕ
  pub start_time : ℕ
  pub white_player : PlayerState
  pub black_player : PlayerState
  pub first_color : GameColor
  pub mode : GameMode
  pub end_state : EndKind
  pub initial_board : Board
  pub game : Game

pub record ChessStateArgs : Type 0 where
  pub id : List ℕ
  pub mode : GameMode
  pub first_color : GameColor
  pub white : PlayerState
  pub black : PlayerState
  pub initial_board : Option Board
  pub game : Option Game
  pub end_state : EndKind
  pub undo_id : ℤ

-- A pointer's value, or the default where it is nil.
abbrev pub or_default : {A : Type 0} → Option A → A → A
or_default none d = d
or_default (some a) d = a

unfoldable pub new_chess_state_value : ℕ → ChessStateArgs → Option ChessState
new_chess_state_value now args = do
  start ← new_start_board []
  let board = or_default args.initial_board start
  some (record {
    undo_id = args.undo_id;
    id = args.id;
    start_time = now;
    white_player = args.white;
    black_player = args.black;
    first_color = args.first_color;
    mode = args.mode;
    end_state = args.end_state;
    initial_board = board;
    game = or_default args.game (new_game board);
  })

unfoldable pub has_both_players : ChessState → Bool
has_both_players s = s.white_player.present && s.black_player.present

unfoldable pub is_either_player : ChessState → PlayerState → Bool
is_either_player s p = is_same s.white_player p || is_same s.black_player p

unfoldable pub curr_player : ChessState → PlayerState
curr_player s = if s.game.board.is_white_turn then s.white_player else s.black_player

pub data UndoResult : Type 0 where
  undone : ChessState → UndoResult
  no_move_undo : UndoResult
  jump_failed : JumpIndexError → UndoResult

abbrev pub with_game : ChessState → Jumped → UndoResult
with_game s (jumped g) = undone (record s { game = deep_copy g })
with_game s (bad_index e) = jump_failed e

abbrev undo_last : ChessState → ℕ → Option UndoResult
undo_last s zero = some no_move_undo
undo_last s (suc n) = do
  r ← jump_move_index s.initial_board s.game.moves (less_two (suc n))
  some (with_game s r)

unfoldable pub undo : ChessState → Option UndoResult
undo s = undo_last s (length s.game.moves)

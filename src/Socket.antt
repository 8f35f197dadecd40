-- ===== src/Socket.antt =====
-- The messages that a client sends over the socket of a game: backend/network/websocket.go, on the
-- requests of backend/service/gameplay.go. A message is decoded by generated code, and no connection
-- fails; a transaction on the state of the game is one step. A panic is `none`.
pub mod Answering
mod Witnesses
use hexchess.Prelude.{
  ℕ, Bool, true, false, Option, none, some, List, [], ◌∷◌, ◌&&◌, ◌==◌, if◌then◌else◌, ◌>>=◌,
}
use hexchess.Prelude.Int.{ℤ}
use hexchess.Model.Enums.{Text, same_text}
use hexchess.Chess.Notation.{Move, HistMove}
use hexchess.Gameplay.State.{EndKind, PlayerState, ChessState}
use hexchess.Gameplay.Service.{
  GameError, started_game, finished_game, forfeit_player, wrong_turn, invalid_move, undo_noop,
  undo_curr_player, no_undo, no_moves, undo_jump, random_source, Updated, updated, failed, UndoKind,
  undo_create, undo_accept, undo_reject, make_game_move, attempt_game_undo, end_game,
  FinishGameEvent, commit_move, commit_end,
}

pub data GameInput : Type 0 where
  forfeit_input ping_input unset : GameInput
  move_input : Move → GameInput
  chat_input undo_input : Text → GameInput

-- The errors that a handler returns.
pub data SocketError : Type 0 where
  message_type no_chess_state invalid_undo_kind chat_failed : SocketError
  game_error : GameError → SocketError

pub data WsError : Type 0 where
  ws_fatal ws_message_type ws_turn ws_invalid_move ws_finished_game ws_started_game : WsError
  ws_forfeit_player ws_invalid_game ws_expiration ws_undo_curr_player ws_undo_action : WsError

-- `writeGameError`, up to the bytes.
unfoldable pub ws_error : SocketError → WsError
ws_error message_type = ws_message_type
ws_error no_chess_state = ws_invalid_game
ws_error invalid_undo_kind = ws_fatal
ws_error chat_failed = ws_fatal
ws_error (game_error finished_game) = ws_finished_game
ws_error (game_error forfeit_player) = ws_forfeit_player
ws_error (game_error started_game) = ws_started_game
ws_error (game_error (wrong_turn player curr)) = ws_turn
ws_error (game_error (invalid_move player violation)) = ws_invalid_move
ws_error (game_error undo_curr_player) = ws_undo_curr_player
ws_error (game_error no_moves) = ws_undo_action
ws_error (game_error undo_noop) = ws_undo_action
ws_error (game_error no_undo) = ws_undo_action
ws_error (game_error (undo_jump e)) = ws_fatal
ws_error (game_error random_source) = ws_fatal

-- What is broadcast to the clients of the game, without identifiers and times.
pub data GameOutput : Type 0 where
  forfeit_output : EndKind → GameOutput
  move_output : HistMove → ChessState → GameOutput
  chat_output : PlayerState → Text → GameOutput
  undo_output : Text → ℤ → ChessState → GameOutput

pub data Reply : Type 0 where
  silent : Reply
  broadcasted : GameOutput → Reply
  to_sender : WsError → Reply

-- The state of the game in redis, what was put on the stream of finished games, and the reply.
pub record MessageResult : Type 0 where
  pub stored : Option ChessState
  pub event : Option FinishGameEvent
  pub reply : Reply

abbrev pub erred : Option ChessState → SocketError → MessageResult
erred stored e = record { stored = stored; event = none; reply = to_sender (ws_error e) }

-- A request on the stored state, with its commit and its output.
module _ (commit : ChessState → Option (Option FinishGameEvent))
    (output : ChessState → Option GameOutput) where
  abbrev pub commit_answer : ChessState → Option MessageResult
  commit_answer s = do
    event ← commit s
    out ← output s
    some (record { stored = some s; event = event; reply = broadcasted out })

  abbrev pub settled : ChessState → Updated → Option MessageResult
  settled s (failed e) = some (erred (some s) (game_error e))
  settled s (updated s') = commit_answer s'

  abbrev pub run_request : (ChessState → Option Updated) → Option ChessState → Option MessageResult
  run_request update none = some (erred none no_chess_state)
  run_request update (some s) = do u ← update s; settled s u

-- `LastMove`.
abbrev pub last_move : List HistMove → Option HistMove
last_move [] = none
last_move (m ∷ []) = some m
last_move (m ∷ n ∷ ms) = last_move (n ∷ ms)

unfoldable pub handle_game_forfeit : PlayerState → Option ChessState → Option MessageResult
handle_game_forfeit p stored =
    run_request (commit_end p) (λ s. some (forfeit_output s.end_state)) (λ s. some (end_game p s))
      stored

unfoldable pub handle_game_move : PlayerState → Move → Option ChessState → Option MessageResult
handle_game_move p mv stored =
    run_request commit_move (λ s. do m ← last_move s.game.moves; some (move_output m s))
      (make_game_move p mv) stored

abbrev pub undo_kinds : Text → Option UndoKind
undo_kinds kind =
    if same_text kind (b'C' ∷ b'R' ∷ b'E' ∷ b'A' ∷ b'T' ∷ b'E' ∷ [])
    then some undo_create
    else if same_text kind (b'A' ∷ b'C' ∷ b'C' ∷ b'E' ∷ b'P' ∷ b'T' ∷ [])
    then some undo_accept
    else if same_text kind (b'R' ∷ b'E' ∷ b'J' ∷ b'E' ∷ b'C' ∷ b'T' ∷ [])
    then some undo_reject
    else none

abbrev pub undo_for :
    PlayerState → Text → Option UndoKind → Option ChessState → Option MessageResult
undo_for p kind none stored = some (erred stored invalid_undo_kind)
undo_for p kind (some k) stored =
    run_request (λ s. some none) (λ s. some (undo_output kind p.id s)) (attempt_game_undo k p)
      stored

unfoldable pub handle_game_undo : PlayerState → Text → Option ChessState → Option MessageResult
handle_game_undo p kind stored = undo_for p kind (undo_kinds kind) stored

-- The chat itself is kept apart from the state of the game; `insert_chat` says whether `InsertChat`
-- comes back without an error.
unfoldable pub handle_game_chat :
    (PlayerState → Text → Bool) → PlayerState → Text → Option ChessState → Option MessageResult
handle_game_chat insert_chat p text stored =
    if insert_chat p text
    then some (record { stored = stored; event = none; reply = broadcasted (chat_output p text) })
    else some (erred stored chat_failed)

unfoldable pub handle_game_message :
    (PlayerState → Text → Bool) → PlayerState → GameInput → Option ChessState → Option MessageResult
handle_game_message insert_chat p forfeit_input stored = handle_game_forfeit p stored
handle_game_message insert_chat p (move_input mv) stored = handle_game_move p mv stored
handle_game_message insert_chat p (chat_input text) stored =
    handle_game_chat insert_chat p text stored
handle_game_message insert_chat p (undo_input kind) stored = handle_game_undo p kind stored
handle_game_message insert_chat p ping_input stored =
    some (record { stored = stored; event = none; reply = silent })
handle_game_message insert_chat p unset stored = some (erred stored message_type)

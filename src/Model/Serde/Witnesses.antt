-- ===== src/Model/Serde/Witnesses.antt =====
-- The theorems on messages at a state with one piece and a promotion to a knight in its history.
use hexchess.Prelude.{
  ℕ, List, ◌≡◌, ◌<◌, Bool, true, false, refl, [], ◌∷◌, ◌&&◌, ◌==◌, if◌then◌else◌, arith, some,
}
use hexchess.Prelude.Int.{pos}
use hexchess.Model.Enums.{random, timed_1_plus_0}
use hexchess.Chess.Piece.{rune}
use hexchess.Chess.Hex.{hex_at}
use hexchess.Chess.Board.{Board}
use hexchess.Chess.Notation.{HistMove}
use hexchess.Chess.Game.{new_game}
use hexchess.Gameplay.State.{ChessState, PlayerState, not_ended}
use hexchess.Model.Serde.{PbChessState, decoded, deserialize_chess_state, serialize_chess_state}
use hexchess.Chess.Board.Shape.{AllKnown, trimmed}
use hexchess.Chess.Fen.{parsed}
use hexchess.Chess.Fen.Json.{
  marshal_json, unmarshal_json, unmarshalled, unmarshal_json-marshal_json,
}
use hexchess.Model.Serde.Reload.{reloaded_state, deserialize_chess_state-serialize_chess_state}

abbrev lone_king : Board
lone_king = record { is_white_turn = true; pieces = λ f r. if f == 5 && r == 5 then 11 else 0 }

known_king : (c : Bool) → (rune (if c then 11 else 0) == b'?') ≡ false
unfolding rune
known_king true = refl
known_king false = refl

small_king : (c : Bool) → (if c then 11 else 0) < 256
small_king true = omega arith
small_king false = omega arith

lone_king-AllKnown : AllKnown lone_king
lone_king-AllKnown = record {
  known = λ f r i. known_king (f == 5 && r == 5);
  small = λ f r i. small_king (f == 5 && r == 5);
}

abbrev to_knight : HistMove
to_knight = record {
  piece_move = record { piece = 1; from = hex_at 5 9; to = hex_at 5 10 };
  promotion = 4;
  notation = [];
  white_timer = 1500000;
  black_timer = 0;
}

abbrev away : PlayerState
away = record { id = pos 3; name = []; country = []; present = false }

abbrev saved : ChessState
saved = record {
  undo_id = pos 0;
  id = [];
  start_time = 2500000;
  white_player = record away { present = true };
  black_player = away;
  first_color = random;
  mode = timed_1_plus_0;
  end_state = not_ended;
  initial_board = lone_king;
  game = record (new_game lone_king) { moves = to_knight ∷ [] };
}

deserialize_chess_state-serialize_chess_state_example :
    (m : PbChessState) × (serialize_chess_state saved ≡ some m)
    × (deserialize_chess_state m ≡ decoded (reloaded_state saved))
deserialize_chess_state-serialize_chess_state_example =
    deserialize_chess_state-serialize_chess_state saved lone_king-AllKnown lone_king-AllKnown

promotion_lost :
    (reloaded_state saved).game.moves
    ≡ record to_knight { promotion = 0; white_timer = 1000000 } ∷ []
promotion_lost = refl

unmarshal_json-marshal_json_example :
    (text : List ℕ) × (marshal_json lone_king ≡ some text)
    × (unmarshal_json text ≡ some (unmarshalled (parsed (trimmed lone_king))))
unmarshal_json-marshal_json_example = unmarshal_json-marshal_json lone_king lone_king-AllKnown

-- ===== src/Model/Serde/Reload.antt =====
-- A state that is written as a message and read again: what comes back.
use hexchess.Prelude.{
  ◌*◌, ◌/◌, ◌≡◌, refl, ap, true, false, Option, none, some, List, [], ◌∷◌, map, if◌then◌else◌,
}
use hexchess.Prelude.Int.{pos}
use hexchess.Model.Enums.{
  parse_game_mode-game_mode_string, parse_game_color-game_color_string, game_mode_string,
  game_color_string,
}
use hexchess.Chess.Hex.{Hex}
use hexchess.Chess.Board.{ok}
use hexchess.Chess.Notation.{HistMove}
use hexchess.Chess.Moves.{PieceMoves}
use hexchess.Chess.Game.{Game, no_tables, no_pins}
use hexchess.Gameplay.State.{ChessState, PlayerState, EndKind, not_ended, aborted, finished}
use hexchess.Model.Serde.{
  to_piece, serialize_hexes, deserialize_hexes, serialize_entries, deserialize_entries,
  serialize_pieces_moves, deserialize_pieces_moves, serialize_hist_move, deserialize_hist_move,
  millisecond, PbGame, deserialize_game, serialize_game, serialize_player, deserialize_player,
  serialize_end_kind, deserialize_end_kind, PbChessState, decoded, deserialize_chess_state,
  serialize_chess_state,
}
use hexchess.Chess.Board.Shape.{AllKnown, trimmed}
use hexchess.Model.Serde.Boards.{deserialize_board-serialize_board}

-- Pieces are cut to a byte, and an empty list of moves becomes nil.
abbrev pub reloaded_entry : PieceMoves → PieceMoves
reloaded_entry m = record m { piece = to_piece m.piece }

abbrev pub reloaded_list : Option (List PieceMoves) → Option (List PieceMoves)
reloaded_list none = none
reloaded_list (some []) = none
reloaded_list (some (m ∷ ms)) = some (map reloaded_entry (m ∷ ms))

-- The promotion is lost, and times are cut to milliseconds.
abbrev pub reloaded_move : HistMove → HistMove
reloaded_move m = record m {
  piece_move = record (m.piece_move) { piece = to_piece m.piece_move.piece };
  promotion = 0;
  white_timer = (m.white_timer / millisecond) * millisecond;
  black_timer = (m.black_timer / millisecond) * millisecond;
}

abbrev pub reloaded_game : Game → Game
reloaded_game g = record {
  board = trimmed g.board;
  white_moves = reloaded_list g.white_moves;
  black_moves = reloaded_list g.black_moves;
  taken_white_pieces = map to_piece g.taken_white_pieces;
  taken_black_pieces = map to_piece g.taken_black_pieces;
  moves = map reloaded_move g.moves;
  tables = no_tables;
  pin_table = no_pins;
}

-- Nothing comes back of a player who is not there.
abbrev pub reloaded_player : PlayerState → PlayerState
reloaded_player p =
    if p.present
    then record p { present = true }
    else record { id = pos 0; name = []; country = []; present = false }

abbrev pub reloaded_state : ChessState → ChessState
reloaded_state s = record s {
  start_time = (s.start_time / millisecond) * millisecond;
  white_player = reloaded_player s.white_player;
  black_player = reloaded_player s.black_player;
  initial_board = trimmed s.initial_board;
  game = reloaded_game s.game;
}

hexes_back : (hs : List Hex) → deserialize_hexes (serialize_hexes hs) ≡ hs
hexes_back [] = refl
hexes_back (h ∷ hs) = ap (λ t. h ∷ t) (hexes_back hs)

entries_back :
    (ms : List PieceMoves) → deserialize_entries (serialize_entries ms) ≡ map reloaded_entry ms
entries_back [] = refl
entries_back (m ∷ ms) = rw (hexes_back m.moves, entries_back ms) refl

lists_back :
    (ms : Option (List PieceMoves))
    → deserialize_pieces_moves (serialize_pieces_moves ms) ≡ reloaded_list ms
lists_back none = refl
lists_back (some []) = refl
lists_back (some (m ∷ ms)) = ap some (entries_back (m ∷ ms))

moves_back :
    (ms : List HistMove)
    → map deserialize_hist_move (map serialize_hist_move ms) ≡ map reloaded_move ms
moves_back [] = refl
moves_back (m ∷ ms) = ap (λ t. reloaded_move m ∷ t) (moves_back ms)

player_back : (p : PlayerState) → deserialize_player (serialize_player p) ≡ reloaded_player p
player_back p =
    elim p.present
      as (λ c.
        deserialize_player
          (if c then some (record { id = p.id; name = p.name; country = p.country }) else none)
        ≡ (if c
            then record p { present = true }
            else record { id = pos 0; name = []; country = []; present = false })) [
              | true ↦ refl
              | false ↦ refl
            ]

end_back : (k : EndKind) → deserialize_end_kind (serialize_end_kind k) ≡ some k
unfolding serialize_end_kind deserialize_end_kind
end_back not_ended = refl
end_back aborted = refl
end_back finished = refl

-- A game comes back from its message, up to what a reload changes, if its pieces are known.
deserialize_game-serialize_game :
    (g : Game)
    → AllKnown g.board
    → (m : PbGame) × (serialize_game g ≡ some m) × (deserialize_game m ≡ ok (reloaded_game g))
unfolding serialize_game deserialize_game
deserialize_game-serialize_game g k =
    let (m, e, back) = deserialize_board-serialize_board g.board k in
    (
      record {
        taken_white_pieces = g.taken_white_pieces;
        taken_black_pieces = g.taken_black_pieces;
        black_moves = serialize_pieces_moves g.black_moves;
        white_moves = serialize_pieces_moves g.white_moves;
        moves = map serialize_hist_move g.moves;
        board = some m;
      },
      rw e refl,
      rw (back, lists_back g.black_moves, lists_back g.white_moves, moves_back g.moves) refl,
    )

-- SerializeChessState returns without a panic for a state whose pieces, on its board and on its initial
-- board, are known, and DeserializeChessState then returns without an error. What comes back is the
-- state, but for this: the promotions of the moves in the history are 0, times are cut to
-- milliseconds, a player who is not there has no name and no identifier, an empty list of moves is nil,
-- the tables are empty, pieces are cut to a byte, and nothing stands outside the shape of a board.
pub deserialize_chess_state-serialize_chess_state :
    (s : ChessState)
    → AllKnown s.game.board
    → AllKnown s.initial_board
    → (m : PbChessState) × (serialize_chess_state s ≡ some m)
      × (deserialize_chess_state m ≡ decoded (reloaded_state s))
unfolding serialize_chess_state deserialize_chess_state
deserialize_chess_state-serialize_chess_state s known initial =
    let (g, e, game) = deserialize_game-serialize_game s.game known in
    let (b, e', board) = deserialize_board-serialize_board s.initial_board initial in
    (
      record {
        id = s.id;
        game = g;
        white_player = serialize_player s.white_player;
        black_player = serialize_player s.black_player;
        first_color = game_color_string s.first_color;
        mode = game_mode_string s.mode;
        initial_board = some b;
        undo_id = s.undo_id;
        end_state = serialize_end_kind s.end_state;
        start_time_ms = s.start_time / millisecond;
      },
      rw (e, e') refl,
      rw
          (
            game,
            board,
            parse_game_mode-game_mode_string s.mode,
            parse_game_color-game_color_string s.first_color,
            end_back s.end_state,
            player_back s.white_player,
            player_back s.black_player,
          )
          refl,
    )

-- ===== src/Chess/Witnesses.antt =====
-- The theorems on the rules at one small position.
use hexchess.Prelude.{
  ◌++◌, [], ◌∷◌, ℕ, ◌≡◌, ◌↔◌, refl, true, ◌&&◌, Option, none, some, [], ◌∷◌, ◌==◌, if◌then◌else◌,
  ◌∈◌,
}
use hexchess.Chess.Tests.{machine}
use hexchess.Chess.Piece.{
  Piece, empty, white_king, white_pawn, white_rook, white_knight, black_king, black_pawn,
  black_knight, is_pawn, is_piece_turn,
}
use hexchess.Chess.Hex.{Hex, hex_at, in_bounds_hex, same_hex}
use hexchess.Chess.Board.{Board}
use hexchess.Chess.Moves.{Tables, PieceMoves, find_pawn_moves, find_piece_moves}
use hexchess.Chess.Moves.Targets.{at, mark_all}
use hexchess.Chess.Moves.Pawns.{PawnReach, takes_of, find_pawn_moves-PawnReach}
use hexchess.Chess.Moves.Offers.{Offering, Reaches, find_piece_moves-Offering}
use hexchess.Chess.Fen.{parse_fen}
use hexchess.Chess.Fen.Total.{Returns, parse_fen-Returns}
use hexchess.Chess.Notation.{Move, HistMove}
use hexchess.Chess.Game.{Game, new_game, no_tables, init_piece_moves}
use hexchess.Chess.Game.Ready.{Ready, init_piece_moves-Ready}
use hexchess.Chess.Game.Replay.{jump_move_index, jumped}
use hexchess.Chess.Game.Replay.Restore.{Played, start, play, Restored, jump_move_index-Restored}
use hexchess.Prelude.Int.{pos}
use hexchess.Chess.Game.Play.{
  moved, refusal, is_promotion, new_hist_move, new_annotated_move, gives_check, collides,
  contains_hex, MoveError, MoveResult, validate_move, new_valid_move, new_move,
}
use hexchess.Chess.Game.Play.Validity.{Legal, validate_move-Legal}
use hexchess.Chess.Game.Play.Turns.{Playable-of_Ready, Outcome, new_valid_move-Outcome}

abbrev pub piece_at : ℕ → ℕ → Piece
piece_at f r =
    if f == 5 && r == 0
    then white_king
    else if f == 5 && r == 9
    then black_king
    else if f == 5 && r == 4
    then white_pawn
    else if f == 5 && r == 5
    then black_knight
    else if f == 3 && r == 6
    then black_pawn
    else if f == 4 && r == 4
    then white_rook
    else if f == 7 && r == 3
    then white_knight
    else empty

abbrev pub demo_board : Board
demo_board = record { is_white_turn = true; pieces = piece_at }

abbrev pub demo : Game
demo = new_game demo_board

-- The white rook goes one hexagon up.
abbrev pub rook_up : Move
rook_up = record { from = hex_at 4 4; to = hex_at 4 5; promotion = empty }

find_pawn_moves-PawnReach_example :
    (out : PieceMoves) × (after : Tables) × (find_pawn_moves demo_board (hex_at 5 4) true no_tables
      ≡ some (out, after))
    × (out.piece ≡ at demo_board (hex_at 5 4))
    × (out.from ≡ hex_at 5 4)
    × ((m : Hex)
        → (m ∈ out.moves) ↔ PawnReach demo_board true (at demo_board (hex_at 5 4)) (hex_at 5 4) m)
    × (after
        ≡ mark_all
            (at demo_board (hex_at 5 4))
            (takes_of demo_board true (at demo_board (hex_at 5 4)) (hex_at 5 4))
            no_tables)
unfolding in_bounds_hex
find_pawn_moves-PawnReach_example =
    find_pawn_moves-PawnReach demo_board true (hex_at 5 4) no_tables refl

find_piece_moves-Offering_example :
    Offering demo_board
      (λ h m.
        (in_bounds_hex h ≡ true)
        × (is_piece_turn (at demo_board h) true ≡ true)
        × Reaches demo_board true (at demo_board h) h m)
      (find_piece_moves demo_board true no_tables)
find_piece_moves-Offering_example = find_piece_moves-Offering demo_board true no_tables

init_piece_moves-Ready_example : (g' : Game) × (init_piece_moves demo ≡ some g') × Ready demo g'
init_piece_moves-Ready_example = init_piece_moves-Ready demo

validate_move-Legal_example :
    (r : Option MoveError) × (validate_move demo rook_up ≡ some r)
    × ((r ≡ none) ↔ Legal demo rook_up)
    × ((e : MoveError) → r ≡ some e → e.move ≡ rook_up)
validate_move-Legal_example = validate_move-Legal demo rook_up

-- The demo game with its move lists.
abbrev pub demo_ready : Game
demo_ready = (init_piece_moves-Ready demo).0

new_valid_move-Outcome_example :
    (after : Game) × (r : MoveResult) × (new_valid_move demo_ready rook_up ≡ some (after, r))
    × Outcome demo_ready rook_up after r
new_valid_move-Outcome_example =
    new_valid_move-Outcome demo_ready rook_up (Playable-of_Ready ((init_piece_moves-Ready demo).2))

abbrev pub game_of : Option Game → Game
game_of none = demo
game_of (some g) = g

abbrev pub result_of : Option (Game × MoveResult) → Game
result_of none = demo
result_of (some (g, _)) = g

abbrev pub hist_of : Option (Game × MoveResult) → HistMove → HistMove
hist_of (some (_, moved hm)) other = hm
hist_of r other = other

-- The demo game opened, and after one move.
abbrev pub opened : Game
opened = game_of (init_piece_moves demo)

abbrev pub unplayed : HistMove
unplayed = record {
  piece_move = record { piece = 0; from = hex_at 0 0; to = hex_at 0 0 };
  promotion = 0;
  notation = [];
  white_timer = 0;
  black_timer = 0;
}

abbrev pub moved_on : Game
moved_on = result_of (new_valid_move opened rook_up)

pub opened-Played : Played demo_board opened
unfolding machine validate_move refusal is_promotion new_valid_move new_hist_move new_move
    new_annotated_move gives_check collides contains_hex is_pawn same_hex
opened-Played = start opened refl

pub rook_up-moved :
    new_valid_move opened rook_up
    ≡ some (moved_on, moved (hist_of (new_valid_move opened rook_up) unplayed))
unfolding machine validate_move refusal is_promotion new_valid_move new_hist_move new_move
    new_annotated_move gives_check collides contains_hex is_pawn same_hex
rook_up-moved = refl

moved_on-Played : Played demo_board moved_on
moved_on-Played =
    play opened moved_on rook_up (hist_of (new_valid_move opened rook_up) unplayed) opened-Played
      rook_up-moved

jump_move_index-Restored_example :
    (g' : Game) × (jump_move_index demo_board (moved_on.moves ++ unplayed ∷ []) (pos 0)
      ≡ some (jumped g'))
    × Restored moved_on g'
unfolding machine validate_move refusal is_promotion new_valid_move new_hist_move new_move
    new_annotated_move gives_check collides contains_hex is_pawn same_hex
jump_move_index-Restored_example =
    jump_move_index-Restored demo_board moved_on (unplayed ∷ []) (pos 0) moved_on-Played refl

parse_fen-Returns_example :
    Returns (parse_fen (b'6' ∷ b'/' ∷ b'P' ∷ b'5' ∷ b'p' ∷ b' ' ∷ b'w' ∷ []))
parse_fen-Returns_example = parse_fen-Returns (b'6' ∷ b'/' ∷ b'P' ∷ b'5' ∷ b'p' ∷ b' ' ∷ b'w' ∷ [])

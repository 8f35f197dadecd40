-- ===== src/Chess/Tests.antt =====
-- Runs of the rules on small positions.
use hexchess.Prelude.{none, length, ℕ, ◌≡◌, refl, true, Option, some, List, [], ◌∷◌, ◌>>=◌}
use hexchess.Chess.Piece.{
  rune, piece_from_rune, white_king, black_queen, black_bishop, black_king, black_rook, is_white,
  opposite_color, is_piece_turn,
}
use hexchess.Chess.Hex.{Hex, hex_at, ord_hexagons, walk, in_bounds_hex, has_pawn_moved}
use hexchess.Chess.Board.{Board, Placement, get, set, place_all, find_king, find_king_in}
use hexchess.Chess.Moves.{
  set_attack_table, is_attacked, read, ray, rays, find_moves_by_traveling, offset_moves,
  find_offset_moves_filtered, find_offset_moves, find_rook_moves, find_bishop_moves,
  find_queen_moves, find_knight_moves, find_king_moves_filtered, pawn_ahead, pawn_take,
  find_pawn_moves, moves_of_piece, moves_from, find_piece_moves,
}
use hexchess.Chess.Game.{
  clear_tables, get_turn_moves, get_curr_moves, get_turn_attack_table, clear_current_moves,
  handle_check, add_white_king, add_black_king, init_piece_moves, check, stalemate, checkmate,
  elements, no_tables, count_moves,
}
use hexchess.Chess.Notation.{itoa}
use hexchess.Chess.Fen.{parsed, rejected, parse_fen, scan, fen_step, fen, fen_files, fen_ranks}
use hexchess.Chess.Start.{
  new_initial_board, new_start_board, new_empty_board, new_start_game, new_empty_game,
}

-- Opens the whole machine for a run.
unfoldable pub machine : Unit {0}
unfolding get set place_all find_king find_king_in ord_hexagons walk in_bounds_hex has_pawn_moved
    is_white opposite_color is_piece_turn set_attack_table is_attacked read ray rays
    find_moves_by_traveling offset_moves find_offset_moves_filtered find_offset_moves
    find_rook_moves find_bishop_moves find_queen_moves find_knight_moves find_king_moves_filtered
    pawn_ahead pawn_take find_pawn_moves moves_of_piece moves_from find_piece_moves clear_tables
    get_turn_moves get_curr_moves get_turn_attack_table clear_current_moves handle_check
    add_white_king add_black_king init_piece_moves check stalemate checkmate new_initial_board
    new_start_board new_empty_board new_start_game new_empty_game
machine = tt

abbrev surrounded : List Placement
surrounded =
    (5, 5, white_king)
    ∷ (5, 3, black_queen)
    ∷ (5, 7, black_queen)
    ∷ (1, 3, black_bishop)
    ∷ (9, 3, black_bishop)
    ∷ (5, 8, black_king)
    ∷ []

surrounded_king_is_checkmated :
    (do g ← new_empty_game true surrounded; g1 ← init_piece_moves g; checkmate g1) ≡ some true
unfolding machine
surrounded_king_is_checkmated = refl

moves_from_hex : Option Board → Hex → Option (List Hex)
moves_from_hex o h = do b ← o; (pms, _) ← find_rook_moves b h no_tables; some pms.moves

rook_left :
    moves_from_hex (new_start_board ((2, 7, black_rook) ∷ [])) (hex_at 2 7)
    ≡ some (hex_at 3 7 ∷ hex_at 4 7 ∷ hex_at 5 7 ∷ [])
unfolding machine moves_from_hex
rook_left = refl

start_moves : Option (ℕ × ℕ)
start_moves = do
  g ← new_start_game []
  g1 ← init_piece_moves g
  some (count_moves (elements g1.white_moves), count_moves (elements g1.black_moves))

start_moves_count : start_moves ≡ some (51, 43)
unfolding machine start_moves
start_moves_count = refl

-- The text of the initial board, parsed and printed again, is the same text.
text_again : Option (List ℕ) → Option (List ℕ)
text_again o = do text ← o; p ← parse_fen text; elim p [ parsed b ↦ fen b | rejected e ↦ none ]

initial_text : Option (List ℕ)
initial_text = do b ← new_initial_board; fen b

initial_text_again : text_again initial_text ≡ initial_text
unfolding machine initial_text text_again fen fen_files fen_ranks parse_fen scan fen_step rune
    piece_from_rune itoa
initial_text_again = refl

fen_is_long : (do t ← initial_text; some (length t)) ≡ some 69
unfolding machine initial_text fen fen_files fen_ranks rune itoa
fen_is_long = refl

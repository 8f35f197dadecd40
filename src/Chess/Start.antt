-- ===== src/Chess/Start.antt =====
-- The starting position: `NewInitialBoard` of backend/chess/board.go, and the boards and games that
-- are built by placing pieces.
use hexchess.Prelude.{Bool, true, Option, List, [], ◌∷◌, ◌>>=◌, some}
use hexchess.Chess.Piece.{
  white_pawn, black_pawn, white_knight, black_knight, white_bishop, black_bishop, white_rook,
  black_rook, white_queen, black_queen, white_king, black_king,
}
use hexchess.Chess.Board.{Board, Placement, place_all}
use hexchess.Chess.Game.{Game, new_game}

-- The table `placements`; the square "b1" is file 1 and rank 0.
abbrev pub placements : List Placement
placements =
    (1, 0, white_pawn)
    ∷ (2, 1, white_pawn)
    ∷ (3, 2, white_pawn)
    ∷ (4, 3, white_pawn)
    ∷ (5, 4, white_pawn)
    ∷ (6, 3, white_pawn)
    ∷ (7, 2, white_pawn)
    ∷ (8, 1, white_pawn)
    ∷ (9, 0, white_pawn)
    ∷ (2, 0, white_rook)
    ∷ (3, 0, white_knight)
    ∷ (4, 0, white_queen)
    ∷ (5, 0, white_bishop)
    ∷ (5, 1, white_bishop)
    ∷ (5, 2, white_bishop)
    ∷ (6, 0, white_king)
    ∷ (7, 0, white_knight)
    ∷ (8, 0, white_rook)
    ∷ (1, 6, black_pawn)
    ∷ (2, 6, black_pawn)
    ∷ (3, 6, black_pawn)
    ∷ (4, 6, black_pawn)
    ∷ (5, 6, black_pawn)
    ∷ (6, 6, black_pawn)
    ∷ (7, 6, black_pawn)
    ∷ (8, 6, black_pawn)
    ∷ (9, 6, black_pawn)
    ∷ (2, 7, black_rook)
    ∷ (3, 8, black_knight)
    ∷ (4, 9, black_queen)
    ∷ (5, 10, black_bishop)
    ∷ (5, 9, black_bishop)
    ∷ (5, 8, black_bishop)
    ∷ (6, 9, black_king)
    ∷ (7, 8, black_knight)
    ∷ (8, 7, black_rook)
    ∷ []

-- `Board{IsWhiteTurn: isWhiteTurn}`.
abbrev pub blank_board : Bool → Board
blank_board is_white_turn = record { is_white_turn = is_white_turn; pieces = λ f r. 0 }

unfoldable pub new_initial_board : Option Board
new_initial_board = place_all (blank_board true) placements

unfoldable pub new_start_board : List Placement → Option Board
new_start_board initial = do b ← new_initial_board; place_all b initial

unfoldable pub new_empty_board : Bool → List Placement → Option Board
new_empty_board is_white_turn initial = place_all (blank_board is_white_turn) initial

unfoldable pub new_start_game : List Placement → Option Game
new_start_game initial = do b ← new_start_board initial; some (new_game b)

unfoldable pub new_empty_game : Bool → List Placement → Option Game
new_empty_game is_white_turn initial = do
  b ← new_empty_board is_white_turn initial
  some (new_game b)

-- ===== src/Chess/Piece.antt =====
-- The type `Piece` of backend/chess/board.go: a byte, with 0 for an empty hexagon, odd numbers for
-- white and even ones for black. A rune is its code point.
use hexchess.Prelude.{ℕ, ◌%◌, Bool, not, ◌&&◌, ◌||◌, Option, none, some, ◌==◌, if◌then◌else◌}

abbrev pub Piece : Type 0
Piece = ℕ

abbrev pub empty : Piece
empty = 0

abbrev pub white_pawn : Piece
white_pawn = 1

abbrev pub black_pawn : Piece
black_pawn = 2

abbrev pub white_knight : Piece
white_knight = 3

abbrev pub black_knight : Piece
black_knight = 4

abbrev pub white_bishop : Piece
white_bishop = 5

abbrev pub black_bishop : Piece
black_bishop = 6

abbrev pub white_rook : Piece
white_rook = 7

abbrev pub black_rook : Piece
black_rook = 8

abbrev pub white_queen : Piece
white_queen = 9

abbrev pub black_queen : Piece
black_queen = 10

abbrev pub white_king : Piece
white_king = 11

abbrev pub black_king : Piece
black_king = 12

unfoldable pub is_piece_turn : Piece → Bool → Bool
is_piece_turn p is_white_turn = p % 2 == 0 && not is_white_turn || p % 2 == 1 && is_white_turn

unfoldable pub is_white : Piece → Bool
is_white p = p % 2 == 1

unfoldable pub opposite_color : Piece → Piece → Bool
opposite_color p p2 = not (p % 2 == p2 % 2)

unfoldable pub same_color : Piece → Piece → Bool
same_color p p2 = not (p == empty) && not (p2 == empty) && p % 2 == p2 % 2

unfoldable pub is_pawn : Piece → Bool
is_pawn p = p == white_pawn || p == black_pawn

unfoldable pub is_king : Piece → Bool
is_king p = p == white_king || p == black_king

-- `Piece.Rune`; any other byte is printed as a question mark.
unfoldable pub rune : Piece → ℕ
rune p =
    if p == empty
    then b'.'
    else if p == white_pawn
    then b'P'
    else if p == black_pawn
    then b'p'
    else if p == white_knight
    then b'N'
    else if p == black_knight
    then b'n'
    else if p == white_bishop
    then b'B'
    else if p == black_bishop
    then b'b'
    else if p == white_rook
    then b'R'
    else if p == black_rook
    then b'r'
    else if p == white_queen
    then b'Q'
    else if p == black_queen
    then b'q'
    else if p == white_king
    then b'K'
    else if p == black_king
    then b'k'
    else b'?'

-- `PieceFromRune`; `none` is its error.
unfoldable pub piece_from_rune : ℕ → Option Piece
piece_from_rune r =
    if r == b'.'
    then some empty
    else if r == b'P'
    then some white_pawn
    else if r == b'p'
    then some black_pawn
    else if r == b'N'
    then some white_knight
    else if r == b'n'
    then some black_knight
    else if r == b'B'
    then some white_bishop
    else if r == b'b'
    then some black_bishop
    else if r == b'R'
    then some white_rook
    else if r == b'r'
    then some black_rook
    else if r == b'Q'
    then some white_queen
    else if r == b'q'
    then some black_queen
    else if r == b'K'
    then some white_king
    else if r == b'k'
    then some black_king
    else none

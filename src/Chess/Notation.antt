-- ===== src/Chess/Notation.antt =====
-- Moves and how they are written: backend/chess/types.go, and `Hex.String` of board.go. A text is
-- the list of its code points.
use hexchess.Prelude.{
  ℕ, zero, suc, ◌+◌, ◌/◌, ◌%◌, Bool, true, false, not, ◌||◌, List, [], ◌∷◌, ◌++◌, ltb, ◌==◌,
  if◌then◌else◌,
}
use hexchess.Chess.Piece.{
  Piece, white_queen, black_queen, white_rook, black_rook, white_bishop, black_bishop, white_knight,
  black_knight, is_white, rune,
}
use hexchess.Chess.Hex.{Hex, inc32}

-- 0 is no promotion; the others are those that the source names.
abbrev pub Promotion : Type 0
Promotion = ℕ

abbrev pub queen_promotion : Promotion
queen_promotion = 1

abbrev pub rook_promotion : Promotion
rook_promotion = 2

abbrev pub bishop_promotion : Promotion
bishop_promotion = 3

abbrev pub knight_promotion : Promotion
knight_promotion = 4

pub record Move : Type 0 where
  pub from : Hex
  pub to : Hex
  pub promotion : Promotion

pub record PieceMove : Type 0 where
  pub piece : Piece
  pub from : Hex
  pub to : Hex

pub record AnnotatedMove : Type 0 where
  pub piece_move : PieceMove
  pub promotion : Promotion
  pub coll_file : Bool
  pub coll_rank : Bool
  pub is_check : Bool
  pub is_take : Bool

-- A move of the history; the timers are durations in nanoseconds.
pub record HistMove : Type 0 where
  pub piece_move : PieceMove
  pub promotion : Promotion
  pub notation : List ℕ
  pub white_timer : ℕ
  pub black_timer : ℕ

unfoldable pub get_promo_piece : Promotion → Bool → Piece
get_promo_piece promotion true =
    if promotion == rook_promotion
    then white_rook
    else if promotion == bishop_promotion
    then white_bishop
    else if promotion == knight_promotion
    then white_knight
    else white_queen
get_promo_piece promotion false =
    if promotion == rook_promotion
    then black_rook
    else if promotion == bishop_promotion
    then black_bishop
    else if promotion == knight_promotion
    then black_knight
    else black_queen

-- `strconv.Itoa` on a number of at most ten digits, which a uint32 has.
digits : ℕ → ℕ → List ℕ → List ℕ
digits zero n out = out
digits (suc fuel) n out =
    let out' = (b'0' + n % 10) ∷ out in
    let rest = digits fuel (n / 10) out' in if ltb n 10 then out' else rest

unfoldable pub itoa : ℕ → List ℕ
unfolding digits
itoa n = digits 10 n []

-- `rune(file + 'a')`.
abbrev pub file_rune : ℕ → ℕ
file_rune file = (file + b'a') % 4294967296

-- `Hex.String`.
unfoldable pub hex_string : Hex → List ℕ
unfolding itoa
hex_string h = file_rune h.file ∷ itoa (inc32 h.rank)

abbrev write_if : Bool → List ℕ → List ℕ
write_if b s = if b then s else []

-- `AnnotatedMove.String`.
unfoldable pub notation_of : AnnotatedMove → List ℕ
unfolding hex_string rune get_promo_piece is_white
notation_of m =
    (rune m.piece_move.piece ∷ [])
    ++ write_if m.is_check (b'+' ∷ [])
    ++ write_if m.is_take (b'x' ∷ [])
    ++ write_if (not m.coll_file || not m.coll_rank) (
        write_if m.coll_file (itoa (inc32 m.piece_move.from.rank))
        ++ write_if m.coll_rank (file_rune m.piece_move.from.file ∷ []))
    ++ hex_string m.piece_move.to
    ++ write_if (not (m.promotion == 0))
        (b'=' ∷ rune (get_promo_piece m.promotion (is_white m.piece_move.piece)) ∷ [])

-- ===== src/Chess/Board/Shape.antt =====
-- The shape of the board of backend/chess/board.go within its array, and what stands in it.
use hexchess.Prelude.{ℕ, ◌<◌, ◌≡◌, Bool, true, false, ◌&&◌, ltb, ◌==◌, if◌then◌else◌}
use hexchess.Chess.Piece.{rune}
use hexchess.Chess.Hex.{files, ranks_per_file}
use hexchess.Chess.Board.{Board}

-- Within the shape of the board.
abbrev pub in_shape : ℕ → ℕ → Bool
in_shape f r = ltb f files && ltb r (ranks_per_file f)

-- The pieces within the shape are bytes that stand for a piece or an empty hexagon.
pub record AllKnown (b : Board) : Type 0 where
  pub known : (f r : ℕ) → in_shape f r ≡ true → (rune (b.pieces f r) == b'?') ≡ false
  pub small : (f r : ℕ) → in_shape f r ≡ true → b.pieces f r < 256

-- The board without what stands outside its shape.
abbrev pub trimmed : Board → Board
trimmed b = record b { pieces = λ f r. if in_shape f r then b.pieces f r else 0 }

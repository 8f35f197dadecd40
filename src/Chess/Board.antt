-- ===== src/Chess/Board.antt =====
-- `Board` of backend/chess/board.go. The array of pieces is a function of file and rank; an index
-- at or beyond 11 is a panic, written `none`. A pointer receiver that writes returns the new board.
pub mod Shape
use hexchess.Prelude.{
  ℕ, Bool, not, ◌&&◌, ◌||◌, Option, none, some, List, [], ◌∷◌, ltb, leb, ◌==◌, if◌then◌else◌, ◌>>=◌,
}
use hexchess.Chess.Piece.{Piece, white_king, black_king, rune}
use hexchess.Chess.Hex.{Hex, files, max_ranks, ranks_per_file, ord_hexagons}

pub record Board : Type 0 where
  pub is_white_turn : Bool
  pub pieces : ℕ → ℕ → Piece

-- An index into `[Files][MaxRanks]T` that does not panic.
abbrev pub in_array : ℕ → ℕ → Bool
in_array file rank = ltb file files && ltb rank max_ranks

-- `a[file][rank] = v` on a two-dimensional array.
abbrev pub update {ℓ} : {A : Type ℓ} → (ℕ → ℕ → A) → ℕ → ℕ → A → ℕ → ℕ → A
update a file rank v f r = if f == file && r == rank then v else a f r

unfoldable pub get : Board → ℕ → ℕ → Option Piece
get b file rank = if in_array file rank then some (b.pieces file rank) else none

unfoldable pub set : Board → ℕ → ℕ → Piece → Option Board
set b file rank p =
    if in_array file rank then some (record b { pieces = update b.pieces file rank p }) else none

pub data BoardError : Type 0 where
  file_of_range rank_of_range unknown_piece : BoardError

pub data Checked (A : Type 0) : Type 0 where
  ok : A → Checked A
  err : BoardError → Checked A

unfoldable pub set_piece : Board → ℕ → ℕ → Piece → Checked Board
unfolding ranks_per_file rune
set_piece b file rank p =
    if leb files file
    then err file_of_range
    else if leb (ranks_per_file file) rank
    then err rank_of_range
    else if rune p == b'?'
    then err unknown_piece
    else ok (record b { pieces = update b.pieces file rank p })

unfoldable pub get_piece : Board → ℕ → ℕ → Checked Piece
unfolding ranks_per_file
get_piece b file rank =
    if leb files file
    then err file_of_range
    else if leb (ranks_per_file file) rank
    then err rank_of_range
    else ok (b.pieces file rank)

-- The test of the loop of `FindKing`.
abbrev pub is_king_of : Bool → Piece → Bool
is_king_of is_white p = p == white_king && is_white || p == black_king && not is_white

unfoldable pub find_king_in : Board → Bool → List Hex → Option (Option Hex)
unfolding get
find_king_in b is_white [] = some none
find_king_in b is_white (h ∷ hs) = do
  p ← get b h.file h.rank
  let rest = find_king_in b is_white hs
  if is_king_of is_white p then some (some h) else rest

-- `FindKing`: the hexagon of the king if it has one; the outer `none` is a panic.
unfoldable pub find_king : Board → Bool → Option (Option Hex)
unfolding find_king_in ord_hexagons
find_king b is_white = find_king_in b is_white ord_hexagons

-- A row of the table `placements`, its square written as file and rank.
abbrev pub Placement : Type 0
Placement = ℕ × ℕ × Piece

-- The loop of `SetPieceNot` calls.
unfoldable pub place_all : Board → List Placement → Option Board
place_all b [] = some b
place_all b ((f, r, p) ∷ ps) = do b' ← set b f r p; place_all b' ps

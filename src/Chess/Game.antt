-- ===== src/Chess/Game.antt =====
-- `Game` of backend/chess/game.go, and the computation of its moves. A method on `*Game` takes and
-- returns the game; `none` is a panic.
pub mod Play
pub mod Ready
pub mod Replay
use hexchess.Prelude.{
  ℕ, ◌+◌, Bool, true, false, not, ◌&&◌, Option, none, some, List, [], ◌∷◌, ◌++◌, length, ◌==◌,
  if◌then◌else◌, ◌>>=◌,
}
use hexchess.Chess.Piece.{Piece}
use hexchess.Chess.Hex.{Hex}
use hexchess.Chess.Board.{Board, find_king}
use hexchess.Chess.Notation.{HistMove}
use hexchess.Chess.Moves.{
  AttackTable, Tables, PieceMoves, lookup_table, find_piece_moves, find_king_moves_filtered,
}

-- In the move lists `none` is the nil slice.
pub record Game : Type 0 where
  pub board : Board
  pub white_moves : Option (List PieceMoves)
  pub black_moves : Option (List PieceMoves)
  pub taken_white_pieces : List Piece
  pub taken_black_pieces : List Piece
  pub moves : List HistMove
  pub tables : Tables
  pub pin_table : ℕ → ℕ → List Hex

abbrev pub no_tables : Tables
no_tables = record { white_attack = λ f r. false; black_attack = λ f r. false }

abbrev pub no_pins : ℕ → ℕ → List Hex
no_pins f r = []

-- `Game{Board: board}`.
abbrev pub new_game : Board → Game
new_game b = record {
  board = b;
  white_moves = none;
  black_moves = none;
  taken_white_pieces = [];
  taken_black_pieces = [];
  moves = [];
  tables = no_tables;
  pin_table = no_pins;
}

unfoldable pub clear_tables : Game → Game
clear_tables g = record g { tables = no_tables; pin_table = no_pins }

-- What ranging over the slice visits.
abbrev pub elements : Option (List PieceMoves) → List PieceMoves
elements none = []
elements (some ms) = ms

unfoldable pub get_turn_moves : Game → Bool → Option (List PieceMoves)
get_turn_moves g is_white_turn = if is_white_turn then g.white_moves else g.black_moves

unfoldable pub get_curr_moves : Game → Option (List PieceMoves)
get_curr_moves g = get_turn_moves g g.board.is_white_turn

unfoldable pub get_turn_attack_table : Game → Bool → AttackTable
get_turn_attack_table g is_white_turn =
    if is_white_turn then g.tables.black_attack else g.tables.white_attack

-- `moves[:0]`, which keeps nil.
abbrev pub emptied : Option (List PieceMoves) → Option (List PieceMoves)
emptied none = none
emptied (some ms) = some []

unfoldable pub clear_current_moves : Game → Game
clear_current_moves g =
    if g.board.is_white_turn
    then record g { white_moves = emptied g.white_moves }
    else record g { black_moves = emptied g.black_moves }

-- `append` of one element, on nil too.
abbrev pub push : Option (List PieceMoves) → PieceMoves → Option (List PieceMoves)
push ms m = some (elements ms ++ m ∷ [])

-- The king that the two branches around `handleCheck` hand over, if any.
abbrev pub king_to_check : Bool → Option Hex → Option Hex → Option Hex
king_to_check true (some wk) bk = some wk
king_to_check true none bk = bk
king_to_check false wk bk = bk

unfoldable pub handle_check : Game → Option Hex → Option Game
handle_check g none = some g
handle_check g (some king) = do
  is_check ← lookup_table (get_turn_attack_table g g.board.is_white_turn) king
  some (if is_check then clear_current_moves g else g)

unfoldable pub add_white_king : Game → Option Hex → Option Game
add_white_king g none = some g
add_white_king g (some king) = do
  (pms, t) ← find_king_moves_filtered g.board king g.tables
  some (record g { white_moves = push g.white_moves pms; tables = t })

unfoldable pub add_black_king : Game → Option Hex → Option Game
add_black_king g none = some g
add_black_king g (some king) = do
  (pms, t) ← find_king_moves_filtered g.board king g.tables
  some (record g { black_moves = push g.black_moves pms; tables = t })

unfoldable pub init_piece_moves : Game → Option Game
init_piece_moves g = do
  let g0 = clear_tables g
  (white, t1) ← find_piece_moves g0.board true g0.tables
  (black, t2) ← find_piece_moves g0.board false t1
  let g1 = record g0 { white_moves = some white; black_moves = some black; tables = t2 }
  wk ← find_king g1.board true
  bk ← find_king g1.board false
  g2 ← handle_check g1 (king_to_check g1.board.is_white_turn wk bk)
  g3 ← add_white_king g2 wk
  add_black_king g3 bk

abbrev is_nil : Option (List PieceMoves) → Bool
is_nil none = true
is_nil (some ms) = false

unfoldable pub ensure_piece_moves : Game → Option Game
ensure_piece_moves g =
    if is_nil g.black_moves
    then init_piece_moves g
    else if is_nil g.white_moves
    then init_piece_moves g
    else some g

unfoldable pub check : Game → Option Bool
check g = do
  king ← find_king g.board g.board.is_white_turn
  elim king [
    | none ↦ some false
    | some h ↦ lookup_table (get_turn_attack_table g g.board.is_white_turn) h
  ]

abbrev pub count_moves : List PieceMoves → ℕ
count_moves [] = 0
count_moves (pms ∷ rest) = length pms.moves + count_moves rest

unfoldable pub stalemate : Game → Bool
stalemate g = count_moves (elements (get_curr_moves g)) == 0

unfoldable pub checkmate : Game → Option Bool
checkmate g = do c ← check g; some (c && stalemate g)

-- A copy by `append` onto nil: an empty slice becomes nil.
abbrev pub copied : Option (List PieceMoves) → Option (List PieceMoves)
copied none = none
copied (some []) = none
copied (some (m ∷ ms)) = some (m ∷ ms)

-- `DeepCopy` leaves the tables at their zero values.
unfoldable pub deep_copy : Game → Game
deep_copy g = record g {
  white_moves = copied g.white_moves;
  black_moves = copied g.black_moves;
  tables = no_tables;
  pin_table = no_pins;
}

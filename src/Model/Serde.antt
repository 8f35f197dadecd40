-- ===== src/Model/Serde.antt =====
-- The messages of games and their states: backend/model/serde.go. The messages are the structs of
-- backend/pb as the code fills them in; a pointer is an option, but for the files of a board, which are
-- their pieces, and for the entries of a history, which are never nil.
pub mod Boards
pub mod Reload
mod Witnesses
use hexchess.Prelude.{
  ℕ, zero, suc, ◌*◌, ◌/◌, ◌%◌, Bool, true, false, Option, none, some, List, [], ◌∷◌, map,
  if◌then◌else◌, ◌>>=◌, ◌==◌,
}
use hexchess.Prelude.Int.{ℤ, pos}
use hexchess.Model.Enums.{
  Text, GameMode, GameColor, game_mode_string, parse_game_mode, game_color_string, parse_game_color,
}
use hexchess.Chess.Piece.{Piece}
use hexchess.Chess.Hex.{Hex, files, ranks_per_file}
use hexchess.Chess.Board.{Board, BoardError, Checked, ok, err, set_piece, get_piece}
use hexchess.Chess.Notation.{HistMove}
use hexchess.Chess.Moves.{PieceMoves}
use hexchess.Chess.Game.{Game, new_game, elements}
use hexchess.Chess.Start.{blank_board}
use hexchess.Gameplay.State.{ChessState, PlayerState, EndKind, not_ended, aborted, finished}

-- `chess.Piece(p)` for a uint32.
abbrev pub to_piece : ℕ → Piece
to_piece p = p % 256

abbrev pub serialize_pieces : List Piece → List ℕ
serialize_pieces ps = ps

abbrev pub deserialize_pieces : List ℕ → List Piece
deserialize_pieces ps = map to_piece ps

pub record PbHex : Type 0 where
  pub file : ℕ
  pub rank : ℕ

pub record PbPieceMoves : Type 0 where
  pub piece : ℕ
  pub from_file : ℕ
  pub from_rank : ℕ
  pub moves : List (Option PbHex)

abbrev pub deserialize_hexes : List (Option PbHex) → List Hex
deserialize_hexes [] = []
deserialize_hexes (none ∷ hs) = deserialize_hexes hs
deserialize_hexes (some h ∷ hs) = record { file = h.file; rank = h.rank } ∷ deserialize_hexes hs

abbrev pub serialize_hexes : List Hex → List (Option PbHex)
serialize_hexes [] = []
serialize_hexes (h ∷ hs) = some (record { file = h.file; rank = h.rank }) ∷ serialize_hexes hs

abbrev pub deserialize_entries : List (Option PbPieceMoves) → List PieceMoves
deserialize_entries [] = []
deserialize_entries (none ∷ ms) = deserialize_entries ms
deserialize_entries (some m ∷ ms) =
    record {
      piece = to_piece m.piece;
      from = record { file = m.from_file; rank = m.from_rank };
      moves = deserialize_hexes m.moves;
    }
    ∷ deserialize_entries ms

-- An empty list becomes nil.
abbrev pub deserialize_pieces_moves : List (Option PbPieceMoves) → Option (List PieceMoves)
deserialize_pieces_moves [] = none
deserialize_pieces_moves (m ∷ ms) = some (deserialize_entries (m ∷ ms))

abbrev pub serialize_entries : List PieceMoves → List (Option PbPieceMoves)
serialize_entries [] = []
serialize_entries (m ∷ ms) =
    some (record {
      piece = m.piece;
      from_file = m.from.file;
      from_rank = m.from.rank;
      moves = serialize_hexes m.moves;
    })
    ∷ serialize_entries ms

abbrev pub serialize_pieces_moves : Option (List PieceMoves) → List (Option PbPieceMoves)
serialize_pieces_moves ms = serialize_entries (elements ms)

pub record PbBoard : Type 0 where
  pub board_files : List (List ℕ)
  pub is_white_turn : Bool

abbrev pub and_then {ℓ} : {A : Type 0} {B : Type ℓ} → Checked A → (A → B) → (BoardError → B) → B
and_then (ok a) f g = f a
and_then (err e) f g = g e

-- The inner and the outer loop of `DeserializeBoard`, from a rank and a file on.
unfoldable pub set_ranks : ℕ → ℕ → List ℕ → Board → Checked Board
set_ranks file rank [] b = ok b
set_ranks file rank (p ∷ ps) b =
    and_then (set_piece b file rank (to_piece p)) (λ b'. set_ranks file (suc rank) ps b')
      (λ e. err e)

unfoldable pub set_files : ℕ → List (List ℕ) → Board → Checked Board
set_files file [] b = ok b
set_files file (ps ∷ rest) b =
    and_then (set_ranks file 0 ps b) (λ b'. set_files (suc file) rest b') (λ e. err e)

unfoldable pub deserialize_board : Option PbBoard → Checked Board
deserialize_board none = ok (blank_board false)
deserialize_board (some m) = set_files 0 m.board_files (blank_board m.is_white_turn)

-- The loops of `SerializeBoard`: `left` ranks of a file from `rank` on, and `left` files from `file`.
-- An error of `GetPiece` is a panic.
unfoldable pub get_ranks : Board → ℕ → ℕ → ℕ → Option (List ℕ)
get_ranks b file rank zero = some []
get_ranks b file rank (suc left) = do
  p ← and_then (get_piece b file rank) (λ p. some p) (λ e. none)
  ps ← get_ranks b file (suc rank) left
  some (p ∷ ps)

unfoldable pub get_files : Board → ℕ → ℕ → Option (List (List ℕ))
get_files b file zero = some []
get_files b file (suc left) = do
  ps ← get_ranks b file 0 (ranks_per_file file)
  rest ← get_files b (suc file) left
  some (ps ∷ rest)

unfoldable pub serialize_board : Board → Option PbBoard
serialize_board b = do
  fs ← get_files b 0 files
  some (record { board_files = fs; is_white_turn = b.is_white_turn })

pub record PbHistMove : Type 0 where
  pub piece : ℕ
  pub from_file : ℕ
  pub from_rank : ℕ
  pub to_file : ℕ
  pub to_rank : ℕ
  pub notation : Text
  pub white_timer_ms : ℕ
  pub black_timer_ms : ℕ

abbrev pub millisecond : ℕ
millisecond = 1000000

abbrev pub deserialize_hist_move : PbHistMove → HistMove
deserialize_hist_move m = record {
  piece_move = record {
    piece = to_piece m.piece;
    from = record { file = m.from_file; rank = m.from_rank };
    to = record { file = m.to_file; rank = m.to_rank };
  };
  promotion = 0;
  notation = m.notation;
  white_timer = m.white_timer_ms * millisecond;
  black_timer = m.black_timer_ms * millisecond;
}

abbrev pub serialize_hist_move : HistMove → PbHistMove
serialize_hist_move m = record {
  piece = m.piece_move.piece;
  from_file = m.piece_move.from.file;
  from_rank = m.piece_move.from.rank;
  to_file = m.piece_move.to.file;
  to_rank = m.piece_move.to.rank;
  notation = m.notation;
  white_timer_ms = m.white_timer / millisecond;
  black_timer_ms = m.black_timer / millisecond;
}

pub record PbGame : Type 0 where
  pub taken_white_pieces : List ℕ
  pub taken_black_pieces : List ℕ
  pub black_moves : List (Option PbPieceMoves)
  pub white_moves : List (Option PbPieceMoves)
  pub moves : List PbHistMove
  pub board : Option PbBoard

-- The game of a message, on its board.
abbrev pub game_of_message : PbGame → Board → Game
game_of_message m b = record (new_game b) {
  taken_white_pieces = deserialize_pieces m.taken_white_pieces;
  taken_black_pieces = deserialize_pieces m.taken_black_pieces;
  black_moves = deserialize_pieces_moves m.black_moves;
  white_moves = deserialize_pieces_moves m.white_moves;
  moves = map deserialize_hist_move m.moves;
}

unfoldable pub deserialize_game : PbGame → Checked Game
deserialize_game m =
    and_then (deserialize_board m.board) (λ b. ok (game_of_message m b)) (λ e. err e)

unfoldable pub serialize_game : Game → Option PbGame
serialize_game g = do
  b ← serialize_board g.board
  some (record {
    taken_white_pieces = serialize_pieces g.taken_white_pieces;
    taken_black_pieces = serialize_pieces g.taken_black_pieces;
    black_moves = serialize_pieces_moves g.black_moves;
    white_moves = serialize_pieces_moves g.white_moves;
    moves = map serialize_hist_move g.moves;
    board = some b;
  })

pub record PbPlayer : Type 0 where
  pub id : ℤ
  pub name : Text
  pub country : Text

abbrev pub deserialize_player : Option PbPlayer → PlayerState
deserialize_player none = record { id = pos 0; name = []; country = []; present = false }
deserialize_player (some p) = record {
  id = p.id;
  name = p.name;
  country = p.country;
  present = true;
}

abbrev pub serialize_player : PlayerState → Option PbPlayer
serialize_player p =
    if p.present then some (record { id = p.id; name = p.name; country = p.country }) else none

-- The numbers of `pb.EndKind`: NOT_ENDED, FINISHED and ABORTED, in another order than the constants of
-- `EndKind`.
abbrev pub pb_not_ended : ℕ
pb_not_ended = 0

abbrev pub pb_finished : ℕ
pb_finished = 1

abbrev pub pb_aborted : ℕ
pb_aborted = 2

-- Any other number is a panic.
unfoldable pub deserialize_end_kind : ℕ → Option EndKind
deserialize_end_kind n =
    if n == pb_not_ended
    then some not_ended
    else if n == pb_finished
    then some finished
    else if n == pb_aborted
    then some aborted
    else none

unfoldable pub serialize_end_kind : EndKind → ℕ
serialize_end_kind not_ended = pb_not_ended
serialize_end_kind finished = pb_finished
serialize_end_kind aborted = pb_aborted

pub record PbChessState : Type 0 where
  pub id : Text
  pub game : PbGame
  pub white_player : Option PbPlayer
  pub black_player : Option PbPlayer
  pub first_color : Text
  pub mode : Text
  pub initial_board : Option PbBoard
  pub undo_id : ℤ
  pub end_state : ℕ
  pub start_time_ms : ℕ

pub data Decoded : Type 0 where
  decoded : ChessState → Decoded
  bad_board : BoardError → Decoded
  bad_enum panicked : Decoded

abbrev pub state_of_message :
    PbChessState → Game → Board → Option GameMode → Option GameColor → Option EndKind → Decoded
state_of_message m g b (some mode) (some color) (some end_kind) = decoded (record {
  undo_id = m.undo_id;
  id = m.id;
  start_time = m.start_time_ms * millisecond;
  white_player = deserialize_player m.white_player;
  black_player = deserialize_player m.black_player;
  first_color = color;
  mode = mode;
  end_state = end_kind;
  initial_board = b;
  game = g;
})
state_of_message m g b (some mode) (some color) none = panicked
state_of_message m g b none color end_kind = bad_enum
state_of_message m g b (some mode) none end_kind = bad_enum

unfoldable pub deserialize_chess_state : PbChessState → Decoded
deserialize_chess_state m =
    and_then (deserialize_game m.game)
      (λ g.
        and_then (deserialize_board m.initial_board)
          (λ b.
            state_of_message m g b (parse_game_mode m.mode) (parse_game_color m.first_color)
              (deserialize_end_kind m.end_state))
          (λ e. bad_board e))
      (λ e. bad_board e)

unfoldable pub serialize_chess_state : ChessState → Option PbChessState
serialize_chess_state s = do
  game ← serialize_game s.game
  initial_board ← serialize_board s.initial_board
  some (record {
    id = s.id;
    game = game;
    white_player = serialize_player s.white_player;
    black_player = serialize_player s.black_player;
    first_color = game_color_string s.first_color;
    mode = game_mode_string s.mode;
    initial_board = some initial_board;
    undo_id = s.undo_id;
    end_state = serialize_end_kind s.end_state;
    start_time_ms = s.start_time / millisecond;
  })

-- ===== src/Chess/Game/Play.antt =====
-- Making a move: `NewMove`, `ValidateMove` and `NewValidMove` of backend/chess/game.go.
pub mod Making
pub mod Validity
pub mod Turns
use hexchess.Prelude.{
  ℕ, zero, suc, ◌-◌, Bool, true, false, not, ◌&&◌, ◌||◌, Option, none, some, List, [], ◌∷◌, ◌++◌,
  find, ltb, ◌==◌, if◌then◌else◌, ◌>>=◌,
}
use hexchess.Chess.Piece.{Piece, empty, white_king, black_king, is_pawn, is_white}
use hexchess.Chess.Hex.{Hex, files, ranks_per_file, same_hex, in_bounds_hex}
use hexchess.Chess.Board.{Board, get, set}
use hexchess.Chess.Notation.{
  Promotion, queen_promotion, rook_promotion, bishop_promotion, knight_promotion, Move, PieceMove,
  AnnotatedMove, HistMove, get_promo_piece, notation_of,
}
use hexchess.Chess.Moves.{PieceMoves}
use hexchess.Chess.Game.{Game, elements, get_curr_moves, init_piece_moves}

-- `slices.ContainsFunc(moves, func(to Hex) bool { return to == h })`.
unfoldable pub contains_hex : List Hex → Hex → Bool
contains_hex [] h = false
contains_hex (m ∷ ms) h = same_hex m h || contains_hex ms h

unfoldable pub is_promotion : Game → Move → Option Bool
is_promotion g mv = do
  p ← get g.board mv.from.file mv.from.rank
  some (
      if not (is_pawn p)
      then false
      else if g.board.is_white_turn
      then ltb mv.to.file files && mv.to.rank == ranks_per_file mv.to.file - 1
      else mv.to.rank == 0)

-- The loop that looks for a king among the targets of the moving piece.
unfoldable pub gives_check : Board → Piece → List Hex → Option Bool
gives_check b moving [] = some false
gives_check b moving (h ∷ hs) = do
  target ← get b h.file h.rank
  let rest = gives_check b moving hs
  if is_white moving && target == black_king || not (is_white moving) && target == white_king
      then some true
      else rest

-- The entry that `index > 0` lets through: the first one of the piece, unless it is entry 0.
abbrev pub checked_entry : Piece → List PieceMoves → Option PieceMoves
checked_entry moving [] = none
checked_entry moving (first ∷ rest) =
    if first.piece == moving then none else find (λ pms. pms.piece == moving) rest

abbrev entry_check : Board → Piece → Option PieceMoves → Option Bool
entry_check b moving none = some false
entry_check b moving (some pms) = gives_check b moving pms.moves

-- Some entry of the moving piece, from the same file or rank, has the target.
unfoldable pub collides : (PieceMoves → Bool) → Piece → Hex → List PieceMoves → Bool
collides same moving to [] = false
collides same moving to (pms ∷ rest) =
    pms.piece == moving && contains_hex pms.moves to && same pms || collides same moving to rest

-- `a != b` on truth values.
abbrev pub differ : Bool → Bool → Bool
differ true b = not b
differ false b = b

unfoldable pub new_annotated_move : Game → PieceMove → Option AnnotatedMove
new_annotated_move g pm = do
  let entries = elements (get_curr_moves g)
  board_piece ← get g.board pm.to.file pm.to.rank
  is_check ← entry_check g.board pm.piece (checked_entry pm.piece entries)
  some (record {
    piece_move = pm;
    promotion = 0;
    coll_file = collides (λ pms. pms.from.file == pm.from.file) pm.piece pm.to entries;
    coll_rank = collides (λ pms. pms.from.rank == pm.from.rank) pm.piece pm.to entries;
    is_check = is_check;
    is_take = not (board_piece == empty) && differ (is_white board_piece) (is_white pm.piece);
  })

-- The piece that stands on the target afterwards.
abbrev pub placed : Bool → Promotion → Piece → Bool → Piece
placed promotes promotion p is_white_turn =
    if promotes then get_promo_piece promotion is_white_turn else p

-- A promotion left at 0 is one to a queen.
abbrev pub default_promotion : Bool → Promotion → Promotion
default_promotion promotes promotion =
    if promotes then (if promotion == 0 then queen_promotion else promotion) else promotion

unfoldable pub new_move : Game → Move → Option (Game × HistMove)
new_move g move = do
  let turn = g.board.is_white_turn
  let from = move.from
  let to = move.to
  piece_from ← get g.board from.file from.rank
  piece_to ← get g.board to.file to.rank
  promotes ← is_promotion g move
  lifted ← set g.board from.file from.rank empty
  let promotion = default_promotion promotes move.promotion
  board ← set lifted to.file to.rank (placed promotes promotion piece_from turn)
  let g1 = record g { board = board }
  bare ← new_annotated_move g1 (record { piece = piece_from; from = from; to = to })
  let annotated = if promotes then record bare { promotion = promotion } else bare
  let takes = not (piece_to == empty)
  some (
    record g1 {
      board = record board { is_white_turn = not turn };
      taken_white_pieces =
          if takes && not turn then g.taken_white_pieces ++ piece_to ∷ [] else g.taken_white_pieces;
      taken_black_pieces =
          if takes && turn then g.taken_black_pieces ++ piece_to ∷ [] else g.taken_black_pieces;
      white_moves = none;
      black_moves = none;
    },
    record {
      piece_move = annotated.piece_move;
      promotion = annotated.promotion;
      notation = notation_of annotated;
      white_timer = 0;
      black_timer = 0;
    },
  )

pub data MoveErrorKind : Type 0 where
  noop out_of_bounds invalid_promotion piece_cannot_move illegal_destination : MoveErrorKind
  illegal_target : MoveErrorKind

pub record MoveError : Type 0 where
  pub kind : MoveErrorKind
  pub move : Move

abbrev pub valid_promotion : Promotion → Bool
valid_promotion p =
    p == queen_promotion || p == rook_promotion || p == bishop_promotion || p == knight_promotion

-- The second search at the end of `ValidateMove`, in the entry that the first one finds.
abbrev pub verdict : Option PieceMoves → Hex → Option MoveErrorKind
verdict none to = some illegal_target
verdict (some pms) to = if contains_hex pms.moves to then none else some illegal_destination

abbrev pub find_legal : List PieceMoves → Move → Option MoveErrorKind
find_legal entries move = verdict (find (λ pms. same_hex pms.from move.from) entries) move.to

unfoldable pub refusal : Game → Move → Option (Option MoveErrorKind)
refusal g move =
    if move.from.file == move.to.file && move.from.rank == move.to.rank
    then some (some noop)
    else if not (in_bounds_hex move.from) || not (in_bounds_hex move.to)
    then some (some out_of_bounds)
    else do
      promotes ← is_promotion g move
      some (
          if promotes && not (valid_promotion move.promotion)
          then some invalid_promotion
          else find_legal (elements (get_curr_moves g)) move)

-- `ValidateMove`: the error, if any.
unfoldable pub validate_move : Game → Move → Option (Option MoveError)
validate_move g move = do
  r ← refusal g move
  some (elim r [ none ↦ none | some k ↦ some (record { kind = k; move = move }) ])

pub data MoveResult : Type 0 where
  moved : HistMove → MoveResult
  refused : MoveError → MoveResult

-- `NewHistMove`.
unfoldable pub new_hist_move : Game → Move → Option (Game × HistMove)
new_hist_move g move = do
  (g1, hm) ← new_move g move
  some (record g1 { moves = g1.moves ++ hm ∷ [] }, hm)

unfoldable pub new_valid_move : Game → Move → Option (Game × MoveResult)
new_valid_move g move = do
  e ← validate_move g move
  elim e [
    | some err ↦ some (g, refused err)
    | none ↦ do (g1, hm) ← new_hist_move g move; g2 ← init_piece_moves g1; some (g2, moved hm)
  ]

-- ===== src/Chess/Game/Replay.antt =====
-- Replaying a history: `ApplyMoveSeq` and `JumpMoveIndex` of backend/chess/game.go.
pub mod Redone
pub mod Restore
use hexchess.Prelude.{ℕ, Option, some, List, [], ◌∷◌, ◌++◌, length, take, ltb, if◌then◌else◌, ◌>>=◌}
use hexchess.Prelude.Int.{ℤ, pos, negsuc, suc_ℤ}
use hexchess.Chess.Board.{Board}
use hexchess.Chess.Notation.{Move, HistMove}
use hexchess.Chess.Game.{Game, new_game, init_piece_moves}
use hexchess.Chess.Game.Play.{new_move, new_hist_move}

abbrev pub move_of : HistMove → Move
move_of m = record { from = m.piece_move.from; to = m.piece_move.to; promotion = m.promotion }

-- The loop of `JumpMoveIndex`: the entries of the history are kept as they were.
unfoldable pub redo : Game → List HistMove → Option Game
redo g [] = some g
redo g (m ∷ ms) = do
  (g1, _) ← new_move g (move_of m)
  redo (record g1 { moves = g1.moves ++ m ∷ [] }) ms

pub record JumpIndexError : Type 0 where
  pub count : ℤ
  pub len : ℕ

pub data Jumped : Type 0 where
  jumped : Game → Jumped
  bad_index : JumpIndexError → Jumped

-- The body of `JumpMoveIndex`, for the number of moves to redo.
abbrev pub jump_to : Board → List HistMove → ℤ → Option Jumped
jump_to initial moves (negsuc n) =
    some (bad_index (record { count = negsuc n; len = length moves }))
jump_to initial moves (pos count) =
    if ltb (length moves) count
    then some (bad_index (record { count = pos count; len = length moves }))
    else do
      undone ← redo (new_game initial) (take count moves)
      ready ← init_piece_moves undone
      some (jumped ready)

unfoldable pub jump_move_index : Board → List HistMove → ℤ → Option Jumped
jump_move_index initial moves index = jump_to initial moves (suc_ℤ index)

unfoldable pub apply_move_seq : Game → List Move → Option (List HistMove)
apply_move_seq g [] = some g.moves
apply_move_seq g (m ∷ ms) = do (g1, _) ← new_hist_move g m; apply_move_seq g1 ms

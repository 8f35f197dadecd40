-- ===== src/Gameplay/State/Undo.antt =====
-- `Undo` takes back the last move.
use hexchess.Prelude.{ℕ, zero, suc, ◌≡◌, refl, some, [], ◌∷◌, length, length-append, arith}
use hexchess.Prelude.Int.{pos, suc_ℤ}
use hexchess.Chess.Notation.{Move, HistMove}
use hexchess.Chess.Game.{Game, deep_copy}
use hexchess.Chess.Game.Play.{moved, new_valid_move}
use hexchess.Chess.Game.Replay.Redone.{Agrees}
use hexchess.Chess.Game.Replay.Restore.{Played, jump_move_index-Restored, history_of_move}
use hexchess.Gameplay.State.{ChessState, undone, undo, less_two}

pub next_of_less_two : (n : ℕ) → suc_ℤ (less_two (suc n)) ≡ pos n
next_of_less_two zero = refl
next_of_less_two (suc n) = refl

-- If the last thing that happened to the game of a state was a move that `NewValidMove` made, in a
-- game played from the initial board of the state, `Undo` returns without a panic and without an
-- error, and the state has the board, the taken pieces and the history from before that move.
pub undo-Agrees :
    (s : ChessState) (g : Game) (mv : Move) (hm : HistMove)
    → Played s.initial_board g
    → new_valid_move g mv ≡ some (s.game, moved hm)
    → (s' : ChessState) × (undo s ≡ some (undone s'))
      × Agrees g s'.game
      × (s'.game.moves ≡ g.moves)
      × (s'.initial_board ≡ s.initial_board)
unfolding undo deep_copy
undo-Agrees s g mv hm p e =
    let (h, grown) = history_of_move s.initial_board g s.game mv hm p e in
    let n = length g.moves in
    let size : length s.game.moves ≡ suc n =
      rw grown (omega (arith, length-append g.moves (h ∷ []))) in
    let (g', jumps, back) =
      jump_move_index-Restored s.initial_board g (h ∷ []) (less_two (suc n)) p
        (next_of_less_two n) in
    (
      record s { game = deep_copy g' },
      rw (size, grown, jumps) refl,
      record {
        board = back.position.board;
        taken_white = back.position.taken_white;
        taken_black = back.position.taken_black;
      },
      back.history,
      refl,
    )

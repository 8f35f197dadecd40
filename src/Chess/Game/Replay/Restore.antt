-- ===== src/Chess/Game/Replay/Restore.antt =====
-- A jump to the last move of a game that was played restores its position.
use hexchess.Prelude.{
  length-append, ◌≡◌, refl, ◌∙◌, false, some, List, [], ◌∷◌, ◌++◌, length, take, ltb, arith,
}
use hexchess.Prelude.Int.{ℤ, pos, suc_ℤ}
use hexchess.Chess.Board.{Board}
use hexchess.Chess.Notation.{Move, HistMove}
use hexchess.Chess.Game.{Game, new_game, init_piece_moves}
use hexchess.Chess.Game.Ready.{init_piece_moves-Ready}
use hexchess.Chess.Game.Play.{moved, new_valid_move}
use hexchess.Chess.Game.Play.Turns.{Playable, Playable-of_Ready, new_valid_move-Plays}
use hexchess.Chess.Game.Replay.{jumped, jump_move_index}
use hexchess.Chess.Game.Replay.Redone.{Agrees, Replays, started-Replays, Plays-Replays}

-- A game that was played from a board: `NewValidMove` was called on it, and made its moves.
pub data Played (initial : Board) : Game → Type 0 where
  start : (g : Game) → init_piece_moves (new_game initial) ≡ some g → Played initial g
  play :
      (g after : Game) (mv : Move) (hm : HistMove)
      → Played initial g
      → new_valid_move g mv ≡ some (after, moved hm)
      → Played initial after

pub record Redone (initial : Board) (g : Game) : Type 0 where
  pub playable : Playable g
  pub replays : Replays initial g

started :
    (initial : Board) (g : Game) → init_piece_moves (new_game initial) ≡ some g → Redone initial g
started initial g e =
    let (g', e', r) = init_piece_moves-Ready (new_game initial) in
    let same : g ≡ g' = cc in
    rw same (record { playable = Playable-of_Ready r; replays = started-Replays initial g' r })

pub history_redoes : (initial : Board) (g : Game) → Played initial g → Redone initial g
history_redoes initial g (start _ e) = started initial g e
history_redoes initial after (play g _ mv hm p e) =
    let r = history_redoes initial g p in
    let plays = new_valid_move-Plays g after mv hm r.playable e in
    record { playable = plays.playable; replays = Plays-Replays initial g after mv r.replays plays }

-- The position, with its history, and the lists of moves for it.
pub record Restored (g g' : Game) : Type 0 where
  pub position : Agrees g g'
  pub history : g'.moves ≡ g.moves
  pub playable : Playable g'

pub take-append : {A : Type 0} (xs ys : List A) → take (length xs) (xs ++ ys) ≡ xs
take-append [] ys = refl
take-append (x ∷ xs) ys = rw (take-append xs ys)

pub within : (xs ys : List HistMove) → ltb (length (xs ++ ys)) (length xs) ≡ false
within xs ys = ground (arith, length-append xs ys)

-- For a history that begins with that of a game played from the board, `JumpMoveIndex` to the last
-- move of that game returns without a panic and without an error. The game it returns has the
-- position and the history of the one that was played, and sound lists of moves.
pub jump_move_index-Restored :
    (initial : Board) (g : Game) (later : List HistMove) (index : ℤ)
    → Played initial g
    → suc_ℤ index ≡ pos (length g.moves)
    → (g' : Game) × (jump_move_index initial (g.moves ++ later) index ≡ some (jumped g'))
      × Restored g g'
unfolding jump_move_index
jump_move_index-Restored initial g later index p last =
    let r = (history_redoes initial g p).replays in
    let (g', ready, r') = init_piece_moves-Ready r.k in
    (
      g',
      rw (last, within g.moves later, take-append g.moves later, r.redoes, ready) refl,
      record {
        position = record {
          board = r'.board ∙ r.agrees.board;
          taken_white = r'.taken_white ∙ r.agrees.taken_white;
          taken_black = r'.taken_black ∙ r.agrees.taken_black;
        };
        history = r'.history ∙ r.history;
        playable = Playable-of_Ready r';
      },
    )

-- What a move that was made adds to the history.
pub history_of_move :
    (initial : Board) (g after : Game) (mv : Move) (hm : HistMove)
    → Played initial g
    → new_valid_move g mv ≡ some (after, moved hm)
    → (h : HistMove) × (after.moves ≡ g.moves ++ h ∷ [])
history_of_move initial g after mv hm p e =
    let plays = new_valid_move-Plays g after mv hm (history_redoes initial g p).playable e in
    (plays.made.hist, plays.history)

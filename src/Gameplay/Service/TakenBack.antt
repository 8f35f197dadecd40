-- ===== src/Gameplay/Service/TakenBack.antt =====
-- `Undo` on a Sane state: its history, with its promotions, gives back its position when it is redone
-- from the initial board. A state that was read from redis, where promotions are lost, is not such a
-- one after a promotion to another piece than a queen.
use hexchess.Prelude.{
  suc, ◌≡◌, refl, ◌∙◌, some, List, [], ◌∷◌, ◌++◌, length, arith, inl, inr, length-append,
  List-cases,
}
use hexchess.Chess.Board.{Board}
use hexchess.Chess.Notation.{HistMove}
use hexchess.Chess.Game.{Game, new_game, deep_copy}
use hexchess.Chess.Game.Ready.{init_piece_moves-Ready}
use hexchess.Chess.Game.Play.Turns.{Playable, Playable-of_Ready}
use hexchess.Chess.Game.Replay.{jumped, jump_move_index}
use hexchess.Chess.Game.Replay.Redone.{Replays, Replays-same, redo-begins}
use hexchess.Chess.Game.Replay.Restore.{take-append, within}
use hexchess.Gameplay.State.Undo.{next_of_less_two}
use hexchess.Gameplay.State.{
  ChessState, has_both_players, UndoResult, undone, no_move_undo, jump_failed, undo, less_two,
}
use hexchess.Gameplay.Service.Sane.{Sane, of_Ready, deep_copy-Consistent}

-- What `Undo` returned: the state before the last entry of the history, or, if there is none, that
-- there is none.
abbrev pub TakenBack : ChessState → UndoResult → Type 0
TakenBack s (undone s') =
    Sane s'
    × (◌≡◌ {A = ChessState} s' (record s { game = s'.game }))
    × ((h : HistMove) × (s.game.moves ≡ s'.game.moves ++ h ∷ []))
TakenBack s no_move_undo = s.game.moves ≡ []
TakenBack s (jump_failed e) = ⊥

unsnoc : {A : Type 0} (x : A) (xs : List A) → (ys : List A) × ((y : A) × (x ∷ xs ≡ ys ++ y ∷ []))
unsnoc x [] = ([], (x, refl))
unsnoc x (z ∷ zs) = let (ys, (y, e)) = unsnoc z zs in (x ∷ ys, (y, rw e refl))

-- `JumpMoveIndex` to the entry before the last one.
back_one :
    (initial : Board) (g : Game) (ys : List HistMove) (h : HistMove)
    → Replays initial g
    → g.moves ≡ ys ++ h ∷ []
    → (g' : Game) × (jump_move_index initial g.moves (less_two (length g.moves)) ≡ some (jumped g'))
      × Replays initial g'
      × Playable g'
      × (g'.moves ≡ ys)
unfolding jump_move_index
back_one initial g ys h r e =
    let b = redo-begins (new_game initial) r.k ys (h ∷ []) refl refl (rw e at r.redoes) in
    let size : length g.moves ≡ suc (length ys) = rw e (omega (arith, length-append ys (h ∷ []))) in
    let (g', ready, r') = init_piece_moves-Ready b.k in
    (
      g',
      rw
          (
            size,
            next_of_less_two (length ys),
            e,
            within ys (h ∷ []),
            take-append ys (h ∷ []),
            b.redoes,
            ready,
          )
          refl,
      Replays-same initial b.k g' (of_Ready r').position r'.history (record {
        k = b.k;
        redoes = rw b.history (b.redoes);
        agrees = record { board = refl; taken_white = refl; taken_black = refl };
        history = refl;
        lists = b.lists;
      }),
      Playable-of_Ready r',
      r'.history ∙ b.history,
    )

back_some :
    (s : ChessState) (h : HistMove) (hs : List HistMove)
    → Sane s
    → s.game.moves ≡ h ∷ hs
    → (r : UndoResult) × (undo s ≡ some r) × TakenBack s r
unfolding undo deep_copy has_both_players
back_some s h hs sane e =
    let (ys, (last, split)) = unsnoc h hs in
    let (g', jumps, r, play, before) =
      back_one s.initial_board s.game ys last sane.replays (e ∙ split) in
    let s' = record s { game = deep_copy g' } in
    let size : length s.game.moves ≡ suc (length hs) = rw e refl in
    (
      undone s',
      rw (size, rw size at jumps) refl,
      (
        record {
          replays =
              Replays-same s.initial_board g' (deep_copy g')
                (record { board = refl; taken_white = refl; taken_black = refl }) refl r;
          consistent = deep_copy-Consistent g' play;
          apart = sane.apart;
        },
        refl,
        (last, e ∙ split ∙ rw before refl),
      ),
    )

-- On a Sane state, that is, one whose history, with its promotions, gives back its position when it is
-- redone from the initial board, whose move lists are sound where it has both, and whose two players
-- differ, `Undo` returns without a panic. If there is a move, it takes back the last entry of the
-- history, without an error, and leaves a Sane state again; if there is none it says so. A state that
-- was read from redis after a promotion to another piece than a queen need not be Sane.
pub undo-TakenBack :
    (s : ChessState) → Sane s → (r : UndoResult) × (undo s ≡ some r) × TakenBack s r
unfolding undo
undo-TakenBack s sane = elim (List-cases s.game.moves) [
  | inl e ↦ (no_move_undo, rw e refl, e)
  | inr (h, hs, e) ↦ back_some s h hs sane e
]

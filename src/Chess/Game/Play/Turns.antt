-- ===== src/Chess/Game/Play/Turns.antt =====
-- `NewValidMove` on a game whose move lists are sound.
use hexchess.Prelude.{
  ◌≡◌, refl, sym, ◌∙◌, subst, Option, Bool, true, false, some, List, [], ◌∷◌, ◌++◌, All,
  Option-cases, inl, inr, if◌then◌else◌,
}
use hexchess.Chess.Board.{Board}
use hexchess.Chess.Notation.{Move, HistMove}
use hexchess.Chess.Moves.{PieceMoves}
use hexchess.Chess.Moves.Entries.{IsSound}
use hexchess.Chess.Game.{Game, elements, get_curr_moves, get_turn_moves}
use hexchess.Chess.Game.Ready.{Ready, init_piece_moves-Ready}
use hexchess.Chess.Game.Play.{MoveResult, moved, refused, new_hist_move, new_valid_move, new_move}
use hexchess.Chess.Game.Play.Making.{TargetsInside, Made, new_move-Made}
use hexchess.Chess.Game.Play.Validity.{Legal, validate_move-Legal}

-- Both move lists are present and sound for the board.
abbrev pub Playable : Game → Type 0
Playable g = Ready g g

-- `InitPieceMoves` makes any game playable.
pub Playable-of_Ready : {g g' : Game} → Ready g g' → Playable g'
Playable-of_Ready r = record {
  board = refl;
  history = refl;
  taken_white = refl;
  taken_black = refl;
  white = r.white;
  black = r.black;
  white_listed = r.white_listed;
  black_listed = r.black_listed;
  white_sound = rw r.board r.white_sound;
  black_sound = rw r.board r.black_sound;
}

sound_inside :
    (b : Board) (w : Bool) (es : List PieceMoves) → All (IsSound b w) es → All TargetsInside es
sound_inside b w [] s = tt
sound_inside b w (e ∷ es) (s, ss) = (λ m k. (s.targets m k).0, sound_inside b w es ss)

Playable-inside : (g : Game) → Playable g → All TargetsInside (elements (get_curr_moves g))
unfolding get_curr_moves get_turn_moves
Playable-inside g r =
    elim g.board.is_white_turn
      as (λ w. All TargetsInside (elements (if w then g.white_moves else g.black_moves))) [
        | true ↦ rw r.white_listed (sound_inside g.board true r.white r.white_sound)
        | false ↦ rw r.black_listed (sound_inside g.board false r.black r.black_sound)
      ]

-- What `NewValidMove` did: it played a legal move, or it refused and left the game alone.
pub record Plays (g : Game) (mv : Move) (after : Game) : Type 0 where
  pub legal : Legal g mv
  pub made : Made g mv (new_move g mv)
  pub board : after.board ≡ made.after.board
  pub history : after.moves ≡ g.moves ++ made.hist ∷ []
  pub taken_white : after.taken_white_pieces ≡ made.after.taken_white_pieces
  pub taken_black : after.taken_black_pieces ≡ made.after.taken_black_pieces
  pub playable : Playable after

abbrev pub Outcome : Game → Move → Game → MoveResult → Type 0
Outcome g mv after (moved hm) = (p : Plays g mv after) × (hm ≡ p.made.hist)
Outcome g mv after (refused e) = ¬ Legal g mv × (after ≡ g) × (e.move ≡ mv)

-- On a playable game `NewValidMove` returns without a panic for every move. It either plays a legal
-- move, with the effect of `NewMove` on the position, one more entry of the history and a game that is
-- playable again, or it refuses a move that is not legal and leaves the game as it was.
pub new_valid_move-Outcome :
    (g : Game) (mv : Move)
    → Playable g
    → (after : Game) × (r : MoveResult) × (new_valid_move g mv ≡ some (after, r))
      × Outcome g mv after r
unfolding new_valid_move new_hist_move
new_valid_move-Outcome g mv play =
    let (r, e, legal_iff, about) = validate_move-Legal g mv in
    elim (Option-cases r) [
      | inr (err, is_err) ↦ (
        g,
        refused err,
        rw (e, is_err),
        (λ l. cc (sym is_err ∙ legal_iff.1 l), refl, about err is_err),
      )
      | inl fine ↦
          let l = legal_iff.0 fine in
          let m = new_move-Made g mv l.from_inside l.to_inside l.apart (Playable-inside g play) in
          let (g2, ready, r2) =
            init_piece_moves-Ready (record (m.after) { moves = m.after.moves ++ m.hist ∷ [] }) in
          (
            g2,
            moved m.hist,
            rw (e, fine, m.returns, ready),
            (
              record {
                legal = l;
                made = m;
                board = r2.board;
                history = r2.history ∙ rw m.history;
                taken_white = r2.taken_white;
                taken_black = r2.taken_black;
                playable = Playable-of_Ready r2;
              },
              refl,
            ),
          )
    ]

of_Outcome :
    (g after after' : Game) (mv : Move) (hm : HistMove) (res : MoveResult)
    → ◌≡◌ {A = Option (Game × MoveResult)} (some (after', res)) (some (after, moved hm))
    → Outcome g mv after' res
    → Plays g mv after
of_Outcome g after after' mv hm (moved h) e (p, _) =
    let same : after' ≡ after = cc in subst (Plays g mv) same p
of_Outcome g after after' mv hm (refused x) e out = cc

-- A move that `NewValidMove` made.
pub new_valid_move-Plays :
    (g after : Game) (mv : Move) (hm : HistMove)
    → Playable g
    → new_valid_move g mv ≡ some (after, moved hm)
    → Plays g mv after
new_valid_move-Plays g after mv hm play e =
    let (after', res, e', out) = new_valid_move-Outcome g mv play in
    of_Outcome g after after' mv hm res (sym e' ∙ e) out

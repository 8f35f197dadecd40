-- ===== src/Chess/Game/Replay/Redone.antt =====
-- A game whose history gives back its position when it is redone.
use hexchess.Prelude.{
  ◌≡◌, ◌≢◌, refl, sym, ◌∙◌, ap, ap₂, fun_ext, Bool, true, false, ◌&&◌, Option, none, some, List, [],
  ◌∷◌, ◌++◌, ◌==◌, if◌then◌else◌, arith, All, Bool-cases, inl, inr, ◌⊎◌, Option-cases, append-nil,
  append_assoc,
}
use hexchess.Chess.Piece.{Piece}
use hexchess.Chess.Hex.{Hex, hex_at}
use hexchess.Chess.Board.{Board}
use hexchess.Chess.Notation.{Move, HistMove, Promotion}
use hexchess.Chess.Moves.Targets.{at}
use hexchess.Chess.Game.{Game, new_game, elements, get_curr_moves, get_turn_moves}
use hexchess.Chess.Game.Ready.{Ready}
use hexchess.Chess.Game.Play.{new_move, placed, default_promotion}
use hexchess.Chess.Game.Play.Making.{promotes, TargetsInside, Made, new_move-Made}
use hexchess.Chess.Game.Play.Turns.{Plays}
use hexchess.Chess.Game.Replay.{move_of, redo}

-- The same position: board and taken pieces.
pub record Agrees (g k : Game) : Type 0 where
  pub board : k.board ≡ g.board
  pub taken_white : k.taken_white_pieces ≡ g.taken_white_pieces
  pub taken_black : k.taken_black_pieces ≡ g.taken_black_pieces

hex_cases : (h k : Hex) → (h ≡ k) ⊎ (h ≢ k)
hex_cases h k = elim (Bool-cases (h.file == k.file && h.rank == k.rank)) [
  | inl e ↦ inl (ground arith)
  | inr e ↦ inr (λ x. ground (arith, ap Hex.file x, ap Hex.rank x))
]

same_board :
    (b c : Board) → b.is_white_turn ≡ c.is_white_turn → ((h : Hex) → at b h ≡ at c h) → b ≡ c
same_board b c t e =
    ap₂ (λ t p. record { is_white_turn = t; pieces = p }) t
      (fun_ext (λ f. fun_ext (λ r. e (hex_at f r))))

-- The promotion that the history remembers does what the one of the move did.
same_piece :
    (c : Bool) (q : Promotion) (p : Piece) (w : Bool)
    → placed c (default_promotion c (if c then default_promotion c q else 0)) p w
      ≡ placed c (default_promotion c q) p w
same_piece true q p w = ground arith
same_piece false q p w = refl

module _ (g k : Game) (mv : Move) where
  -- The move that the history of `g` gives back.
  abbrev again : Move
  again = record {
    from = mv.from;
    to = mv.to;
    promotion = if promotes g mv then default_promotion (promotes g mv) mv.promotion else 0;
  }

  promotes-again : k.board ≡ g.board → promotes k again ≡ promotes g mv
  unfolding promotes
  promotes-again e = rw e

  Made-Agrees :
      {r r' : Option (Game × HistMove)}
      → Agrees g k
      → (m : Made g mv r) (n : Made k again r') → Agrees m.after n.after
  Made-Agrees a m n = record {
    board = same_board n.after.board m.after.board (n.turn ∙ rw a.board (sym m.turn)) (λ h.
        elim (hex_cases h mv.to) [
          | inl t ↦ rw t (
              n.target
              ∙ rw (promotes-again a.board, a.board)
                  (same_piece (promotes g mv) mv.promotion (at g.board mv.from)
                      g.board.is_white_turn
                    ∙ sym m.target))
          | inr nt ↦ elim (hex_cases h mv.from) [
            | inl f ↦ rw f (n.source ∙ sym m.source)
            | inr nf ↦ n.others h nf nt ∙ rw a.board (sym (m.others h nf nt))
          ]
        ]);
    taken_white = n.taken_white ∙ rw (a.board, a.taken_white) (sym m.taken_white);
    taken_black = n.taken_black ∙ rw (a.board, a.taken_black) (sym m.taken_black);
  }

  move_of-again : {r : Option (Game × HistMove)} (m : Made g mv r) → move_of m.hist ≡ again
  move_of-again m = rw (m.recorded, m.remembered)

-- `redo` of one more entry.
redo-append :
    (g k : Game) (xs : List HistMove) (m : HistMove)
    → redo g xs ≡ some k
    → redo g (xs ++ m ∷ []) ≡ redo k (m ∷ [])
unfolding redo
redo-append g k [] m e = let same : g ≡ k = cc in rw same refl
redo-append g k (x ∷ xs) m e = elim (Option-cases (new_move g (move_of x))) [
  | inl n ↦ cc (rw n at e)
  | inr (v, s) ↦
      rw s (redo-append (record (v.0) { moves = v.0.moves ++ x ∷ [] }) k xs m (rw s at e))
]

-- Redoing the history of `g` gives a game `k` in the position of `g`, with no lists.
pub record Replays (initial : Board) (g : Game) : Type 0 where
  pub k : Game
  pub redoes : redo (new_game initial) g.moves ≡ some k
  pub agrees : Agrees g k
  pub history : k.moves ≡ g.moves
  pub lists : (k.white_moves ≡ none) × (k.black_moves ≡ none)

no_lists-inside :
    (k : Game)
    → k.white_moves ≡ none
    → k.black_moves ≡ none
    → All TargetsInside (elements (get_curr_moves k))
unfolding get_curr_moves get_turn_moves
no_lists-inside k w b =
    elim k.board.is_white_turn
      as (λ c. All TargetsInside (elements (if c then k.white_moves else k.black_moves))) [
        | true ↦ rw w tt
        | false ↦ rw b tt
      ]

-- `InitPieceMoves` on a game with no moves.
pub started-Replays : (initial : Board) (g : Game) → Ready (new_game initial) g → Replays initial g
unfolding redo
started-Replays initial g r = record {
  k = new_game initial;
  redoes = rw (r.history) refl;
  agrees = record {
    board = sym r.board;
    taken_white = sym r.taken_white;
    taken_black = sym r.taken_black;
  };
  history = sym r.history;
  lists = (refl, refl);
}

pub Plays-Replays :
    (initial : Board) (g after : Game) (mv : Move)
    → Replays initial g
    → Plays g mv after
    → Replays initial after
unfolding redo
Plays-Replays initial g after mv r p =
    let l = p.legal in
    let n =
      new_move-Made r.k (again g r.k mv) l.from_inside l.to_inside l.apart
        (no_lists-inside r.k r.lists.0 r.lists.1) in
    let a = Made-Agrees g r.k mv r.agrees p.made n in
    record {
      k = record (n.after) { moves = n.after.moves ++ p.made.hist ∷ [] };
      redoes = rw p.history (
          redo-append (new_game initial) r.k g.moves p.made.hist r.redoes
          ∙ rw (move_of-again g r.k mv p.made, n.returns) refl);
      agrees = record {
        board = a.board ∙ sym p.board;
        taken_white = a.taken_white ∙ sym p.taken_white;
        taken_black = a.taken_black ∙ sym p.taken_black;
      };
      history = rw (n.history, r.history) (sym p.history);
      lists = n.lists;
    }

-- A game in the same position, with the same history.
pub Replays-same :
    (initial : Board) (g g' : Game)
    → Agrees g g'
    → g'.moves ≡ g.moves
    → Replays initial g
    → Replays initial g'
Replays-same initial g g' a h r = record {
  k = r.k;
  redoes = rw h (r.redoes);
  agrees = record {
    board = r.agrees.board ∙ sym a.board;
    taken_white = r.agrees.taken_white ∙ sym a.taken_white;
    taken_black = r.agrees.taken_black ∙ sym a.taken_black;
  };
  history = r.history ∙ sym h;
  lists = r.lists;
}

-- What `NewMove` keeps and what it clears.
new_move-moves :
    (g : Game) (mv : Move) (v : Game × HistMove) → new_move g mv ≡ some v → v.0.moves ≡ g.moves
unfolding new_move
new_move-moves g mv v e = ground arith

new_move-white_moves :
    (g : Game) (mv : Move) (v : Game × HistMove) → new_move g mv ≡ some v → v.0.white_moves ≡ none
unfolding new_move
new_move-white_moves g mv v e = ground arith

new_move-black_moves :
    (g : Game) (mv : Move) (v : Game × HistMove) → new_move g mv ≡ some v → v.0.black_moves ≡ none
unfolding new_move
new_move-black_moves g mv v e = ground arith

-- A part of a history that can be redone, from its beginning.
pub record Redoes (g : Game) (xs : List HistMove) : Type 0 where
  pub k : Game
  pub redoes : redo g xs ≡ some k
  pub history : k.moves ≡ g.moves ++ xs
  pub lists : (k.white_moves ≡ none) × (k.black_moves ≡ none)

pub redo-begins :
    (g k : Game) (xs ys : List HistMove)
    → g.white_moves ≡ none
    → g.black_moves ≡ none
    → redo g (xs ++ ys) ≡ some k
    → Redoes g xs
unfolding redo
redo-begins g k [] ys w b e = record {
  k = g;
  redoes = refl;
  history = sym (append-nil g.moves);
  lists = (w, b);
}
redo-begins g k (x ∷ xs) ys w b e = elim (Option-cases (new_move g (move_of x))) [
  | inl n ↦ cc (rw n at e)
  | inr (v, s) ↦
      let kept = new_move-moves g (move_of x) v s in
      let r =
        redo-begins (record (v.0) { moves = v.0.moves ++ x ∷ [] }) k xs ys
          (new_move-white_moves g (move_of x) v s) (new_move-black_moves g (move_of x) v s)
          (rw s at e) in
      record {
        k = r.k;
        redoes = rw s (r.redoes);
        history = r.history ∙ rw kept (append_assoc g.moves (x ∷ []) xs);
        lists = r.lists;
      }
]

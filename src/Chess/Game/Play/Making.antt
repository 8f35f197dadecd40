-- ===== src/Chess/Game/Play/Making.antt =====
-- What `NewMove` does to the position.
use hexchess.Prelude.{
  ℕ, ◌-◌, ◌≡◌, ◌≢◌, refl, Bool, true, false, not, ◌&&◌, Option, none, some, List, [], ◌∷◌, ◌++◌,
  arith, ltb, ◌==◌, All, ◌∈◌, if◌then◌else◌, Bool-cases, find, ◌⊎◌, inl, inr, ◌∙◌,
}
use hexchess.Chess.Piece.{Piece, empty, is_pawn, is_white}
use hexchess.Chess.Hex.{Hex, files, ranks_per_file, in_bounds_hex}
use hexchess.Chess.Hex.Range.{in_bounds-Inside}
use hexchess.Chess.Board.{Board, get, set, update}
use hexchess.Chess.Notation.{Move, PieceMove, AnnotatedMove, HistMove, notation_of}
use hexchess.Chess.Moves.{PieceMoves}
use hexchess.Chess.Moves.Targets.{at}
use hexchess.Chess.Game.{Game, elements, get_curr_moves, get_turn_moves}
use hexchess.Chess.Game.Play.{
  is_promotion, gives_check, checked_entry, entry_check, new_annotated_move, new_move, placed,
  default_promotion, differ, collides,
}

-- Every target of the entry is on the board.
abbrev pub TargetsInside : PieceMoves → Type 0
TargetsInside e = (m : Hex) → m ∈ e.moves → in_bounds_hex m ≡ true

-- A pawn reaches the last rank of its file, seen from the side to move.
unfoldable pub promotes : Game → Move → Bool
unfolding is_pawn ranks_per_file
promotes g mv =
    if not (is_pawn (at g.board mv.from))
    then false
    else if g.board.is_white_turn
    then ltb mv.to.file files && mv.to.rank == ranks_per_file mv.to.file - 1
    else mv.to.rank == 0

get_inside : (b : Board) (h : Hex) → in_bounds_hex h ≡ true → get b h.file h.rank ≡ some (at b h)
unfolding get
get_inside b h i = ground (arith, in_bounds-Inside h i)

set_inside :
    (b : Board) (h : Hex) (p : Piece)
    → in_bounds_hex h ≡ true
    → set b h.file h.rank p ≡ some (record b { pieces = update b.pieces h.file h.rank p })
unfolding set
set_inside b h p i = ground (arith, in_bounds-Inside h i)

pub is_promotion_lem :
    (g : Game) (mv : Move) → in_bounds_hex mv.from ≡ true → is_promotion g mv ≡ some (promotes g mv)
unfolding is_promotion promotes
is_promotion_lem g mv i = rw (get_inside g.board mv.from i)

-- A write at one hexagon, read at it and at another.
abbrev write : (ℕ → ℕ → Piece) → Hex → Piece → ℕ → ℕ → Piece
write a h p = update a h.file h.rank p

write_self : (a : ℕ → ℕ → Piece) (h : Hex) (p : Piece) → write a h p h.file h.rank ≡ p
write_self a h p = ground arith

hex_eq : (a b : Hex) → (a.file == b.file && a.rank == b.rank) ≡ true → a ≡ b
hex_eq a b e = ground arith

write_other :
    (a : ℕ → ℕ → Piece) (h k : Hex) (p : Piece)
    → k ≢ h
    → write a h p k.file k.rank ≡ a k.file k.rank
write_other a h k p ne = elim (Bool-cases (k.file == h.file && k.rank == h.rank)) [
  | inl e ↦ absurd (ne (hex_eq k h e))
  | inr e ↦ rw e
]

-- The code returns a truth value.
abbrev Answers : Option Bool → Type 0
Answers r = (c : Bool) × (r ≡ some c)

Answers-if :
    (t : Bool) (r r' : Option Bool) → Answers r → Answers r' → Answers (if t then r else r')
Answers-if true r r' a a' = a
Answers-if false r r' a a' = a'

gives_check-Answers :
    (b : Board) (p : Piece) (hs : List Hex)
    → ((m : Hex) → m ∈ hs → in_bounds_hex m ≡ true)
    → Answers (gives_check b p hs)
unfolding gives_check
gives_check-Answers b p [] ins = (false, refl)
gives_check-Answers b p (h ∷ hs) ins = rw (get_inside b h (ins h (inl refl))) (
    Answers-if _ (some true) (gives_check b p hs) (true, refl)
      (gives_check-Answers b p hs (λ m k. ins m (inr k))))

find-Answers :
    (b : Board) (p : Piece) (q : PieceMoves → Bool) (es : List PieceMoves)
    → All TargetsInside es
    → Answers (entry_check b p (find q es))
find-Answers b p q [] ins = (false, refl)
find-Answers b p q (e ∷ es) (i, ins) =
    elim (q e) as (λ c. Answers (entry_check b p (elim c [ true ↦ some e | false ↦ find q es ]))) [
      | true ↦ gives_check-Answers b p e.moves i
      | false ↦ find-Answers b p q es ins
    ]

entry_check-Answers :
    (b : Board) (p : Piece) (es : List PieceMoves)
    → All TargetsInside es
    → Answers (entry_check b p (checked_entry p es))
entry_check-Answers b p [] ins = (false, refl)
entry_check-Answers b p (e ∷ es) (i, ins) =
    elim (e.piece == p)
      as (λ c. Answers (entry_check b p (if c then none else find (λ pms. pms.piece == p) es))) [
        | true ↦ (false, refl)
        | false ↦ find-Answers b p (λ pms. pms.piece == p) es ins
      ]

-- The annotations of a move to a hexagon of the board.
record Described (g : Game) (pm : PieceMove) : Type 0 where
  out : AnnotatedMove
  returns : new_annotated_move g pm ≡ some out
  move : out.piece_move ≡ pm
  promotion : out.promotion ≡ 0
  quiet :
      (is_white (at g.board pm.to) ≡ is_white pm.piece) ⊎ (at g.board pm.to ≡ empty)
      → out.is_take ≡ false

new_annotated_move-Described :
    (g : Game) (pm : PieceMove)
    → in_bounds_hex pm.to ≡ true
    → All TargetsInside (elements (get_curr_moves g))
    → Described g pm
unfolding new_annotated_move
new_annotated_move-Described g pm i ins =
    let (c, e) = entry_check-Answers g.board pm.piece (elements (get_curr_moves g)) ins in
    record {
      out = record {
        piece_move = pm;
        promotion = 0;
        coll_file =
            collides (λ pms. pms.from.file == pm.from.file) pm.piece pm.to
              (elements (get_curr_moves g));
        coll_rank =
            collides (λ pms. pms.from.rank == pm.from.rank) pm.piece pm.to
              (elements (get_curr_moves g));
        is_check = c;
        is_take =
            not (at g.board pm.to == empty)
            && differ (is_white (at g.board pm.to)) (is_white pm.piece);
      };
      returns = ground (arith, get_inside g.board pm.to i, e);
      move = refl;
      promotion = refl;
      quiet = λ h. ground arith;
    }

-- The position after `NewMove` from a hexagon of the board to another, and what it records.
pub record Made (g : Game) (mv : Move) (r : Option (Game × HistMove)) : Type 0 where
  pub after : Game
  pub hist : HistMove
  pub returns : r ≡ some (after, hist)
  pub source : at after.board mv.from ≡ empty
  pub target :
      at after.board mv.to
      ≡ placed
          (promotes g mv)
          (default_promotion (promotes g mv) mv.promotion)
          (at g.board mv.from)
          g.board.is_white_turn
  pub others : (h : Hex) → h ≢ mv.from → h ≢ mv.to → at after.board h ≡ at g.board h
  pub turn : after.board.is_white_turn ≡ not g.board.is_white_turn
  pub taken_white : after.taken_white_pieces ≡ (
      if not (at g.board mv.to == empty) && not g.board.is_white_turn
      then g.taken_white_pieces ++ at g.board mv.to ∷ []
      else g.taken_white_pieces)
  pub taken_black : after.taken_black_pieces ≡ (
      if not (at g.board mv.to == empty) && g.board.is_white_turn
      then g.taken_black_pieces ++ at g.board mv.to ∷ []
      else g.taken_black_pieces)
  pub lists : (after.white_moves ≡ none) × (after.black_moves ≡ none)
  pub history : after.moves ≡ g.moves
  pub recorded : hist.piece_move ≡ record { piece = at g.board mv.from; from = mv.from; to = mv.to }
  pub remembered :
      hist.promotion ≡ (if promotes g mv then default_promotion (promotes g mv) mv.promotion else 0)

-- Between two different hexagons of the board, in a game whose current move list has its targets on
-- the board, `NewMove` returns without a panic: the piece has left its hexagon and stands on the
-- target, promoted where it is a pawn on its last rank; every other hexagon is as it was, the turn
-- has passed, a captured piece is added to those taken of its side, and both lists are dropped.
pub new_move-Made :
    (g : Game) (mv : Move)
    → in_bounds_hex mv.from ≡ true
    → in_bounds_hex mv.to ≡ true
    → mv.from ≢ mv.to
    → All TargetsInside (elements (get_curr_moves g))
    → Made g mv (new_move g mv)
unfolding new_move get_curr_moves get_turn_moves
new_move-Made g mv fi ti ne ins =
    let promotes' = promotes g mv in
    let promo = default_promotion promotes' mv.promotion in
    let p = at g.board mv.from in
    let put = placed promotes' promo p g.board.is_white_turn in
    let lifted = record g.board { pieces = write g.board.pieces mv.from empty } in
    let board = record lifted { pieces = write lifted.pieces mv.to put } in
    let g1 : Game = record g { board = board } in
    let bare =
      new_annotated_move-Described g1 (record { piece = p; from = mv.from; to = mv.to }) ti ins in
    let annotated = if promotes' then record (bare.out) { promotion = promo } else bare.out in
    let takes = not (at g.board mv.to == empty) in
    let turn = g.board.is_white_turn in
    record {
      after = record g1 {
        board = record board { is_white_turn = not turn };
        taken_white_pieces =
            if takes && not turn
            then g.taken_white_pieces ++ at g.board mv.to ∷ []
            else g.taken_white_pieces;
        taken_black_pieces =
            if takes && turn
            then g.taken_black_pieces ++ at g.board mv.to ∷ []
            else g.taken_black_pieces;
        white_moves = none;
        black_moves = none;
      };
      hist = record {
        piece_move = annotated.piece_move;
        promotion = annotated.promotion;
        notation = notation_of annotated;
        white_timer = 0;
        black_timer = 0;
      };
      returns = rw (
        get_inside g.board mv.from fi,
        get_inside g.board mv.to ti,
        is_promotion_lem g mv fi,
        set_inside g.board mv.from empty fi,
        set_inside lifted mv.to put ti,
        bare.returns,
      );
      source =
          write_other lifted.pieces mv.to mv.from put ne ∙ write_self g.board.pieces mv.from empty;
      target = write_self lifted.pieces mv.to put;
      others = λ h nf nt.
          write_other lifted.pieces mv.to h put nt ∙ write_other g.board.pieces mv.from h empty nf;
      turn = refl;
      taken_white = refl;
      taken_black = refl;
      lists = (refl, refl);
      history = refl;
      recorded = ground (arith, bare.move);
      remembered =
          elim promotes'
            as (λ c.
              (if c then record (bare.out) { promotion = promo } else bare.out).promotion
              ≡ (if c then promo else 0)) [ true ↦ refl | false ↦ bare.promotion ];
    }

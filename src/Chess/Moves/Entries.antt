-- ===== src/Chess/Moves/Entries.antt =====
-- `findPieceMoves` on any board: it does not panic, and every entry is sound.
use hexchess.Prelude.{
  ◌≡◌, ◌≢◌, refl, inl, inr, Bool, true, not, ◌&&◌, ◌||◌, Option, some, List, [], ◌∷◌, ◌++◌, arith,
  ◌==◌, All, All-append, ◌∈◌, Bool-cases, and-left, and-right,
}
use hexchess.Chess.Piece.{
  Piece, empty, white_pawn, black_pawn, white_knight, black_knight, white_bishop, black_bishop,
  white_rook, black_rook, white_queen, black_queen, is_piece_turn, opposite_color, is_king,
}
use hexchess.Chess.Hex.{Direction, Hex, in_bounds_hex, ord_hexagons}
use hexchess.Chess.Board.{Board}
use hexchess.Chess.Moves.{
  Tables, PieceMoves, moves_of_piece, moves_from, find_piece_moves, find_pawn_moves,
}
use hexchess.Chess.Moves.Targets.{at, free, read_lem}
use hexchess.Chess.Moves.Rays.{Slides, stop, go_on}
use hexchess.Chess.Moves.Finders.{Lists, sliders-Lists, find_knight_moves-Lists}
use hexchess.Chess.Moves.Pawns.{PawnReach, find_pawn_moves-PawnReach}

-- An entry of the move list of a colour: the piece stands on the board and is of that colour, and
-- every target is on the board and not held by that colour.
pub record IsSound (b : Board) (turn : Bool) (e : PieceMoves) : Type 0 where
  pub on_board : in_bounds_hex e.from ≡ true
  pub stands : e.piece ≡ at b e.from
  pub held : e.piece ≢ empty
  pub own : is_piece_turn e.piece turn ≡ true
  pub targets : (m : Hex) → m ∈ e.moves → (in_bounds_hex m ≡ true) × (free b e.piece m ≡ true)

-- `r` returns entries that are all sound.
pub record AllSound (b : Board) (turn : Bool) (r : Option (List PieceMoves × Tables)) : Type 0 where
  pub out : List PieceMoves
  pub after : Tables
  pub returns : r ≡ some (out, after)
  pub sound : All (IsSound b turn) out

all_inside : List Hex → Bool
all_inside [] = true
all_inside (h ∷ hs) = in_bounds_hex h && all_inside hs

All-of_all_inside : (hs : List Hex) → all_inside hs ≡ true → All (λ h. in_bounds_hex h ≡ true) hs
unfolding all_inside
All-of_all_inside [] e = tt
All-of_all_inside (h ∷ hs) e =
    (and-left _ _ e, All-of_all_inside hs (and-right (in_bounds_hex h) _ e))

pub ord_hexagons-inside : All (λ h. in_bounds_hex h ≡ true) ord_hexagons
ord_hexagons-inside =
    All-of_all_inside ord_hexagons (unfold all_inside ord_hexagons in_bounds_hex in refl)

-- `r` returns one entry, and it is sound.
record OneSound (b : Board) (turn : Bool) (r : Option (PieceMoves × Tables)) : Type 0 where
  out : PieceMoves
  after : Tables
  returns : r ≡ some (out, after)
  sound : IsSound b turn out

module _ (b : Board) where
  Slides-free :
      {base : Piece} {dirs : List Direction} {m h : Hex}
      → Slides b base dirs m h
      → (in_bounds_hex m ≡ true) × (free b base m ≡ true)
  unfolding opposite_color
  Slides-free (stop h w i land) = ground arith
  Slides-free (go_on h n w i c s) = Slides-free s

  PawnReach-free :
      (turn : Bool) (base : Piece) (h m : Hex)
      → PawnReach b turn base h m
      → (in_bounds_hex m ≡ true) × (free b base m ≡ true)
  PawnReach-free turn base h m r = ground arith

  module _ (turn : Bool) (h : Hex) (ih : in_bounds_hex h ≡ true) (held : at b h ≢ empty)
      (own : is_piece_turn (at b h) turn ≡ true) where
    entry :
        (e : PieceMoves)
        → e.piece ≡ at b h
        → e.from ≡ h
        → ((m : Hex) → m ∈ e.moves → (in_bounds_hex m ≡ true) × (free b (at b h) m ≡ true))
        → IsSound b turn e
    entry e p f good = record {
      on_board = rw f ih;
      stands = rw (p, f);
      held = rw p held;
      own = rw p own;
      targets = λ m k. rw p (good m k);
    }

    listed :
        {t : Tables} {reach : Hex → Type 0} {r : Option (PieceMoves × Tables)}
        → Lists b h t reach r
        → ((m : Hex) → reach m → (in_bounds_hex m ≡ true) × (free b (at b h) m ≡ true))
        → OneSound b turn r
    listed l good = record {
      out = l.out;
      after = l.after;
      returns = l.returns;
      sound = entry l.out l.piece l.from (λ m k. good m ((l.moves m).0 k));
    }

    pawn_sound : (t : Tables) → OneSound b turn (find_pawn_moves b h turn t)
    pawn_sound t =
        let (out, after, e, p, f, reach, _) = find_pawn_moves-PawnReach b turn h t ih in
        record {
          out = out;
          after = after;
          returns = e;
          sound = entry out p f (λ m k. PawnReach-free turn (at b h) h m ((reach m).0 k));
        }

    single :
        {r : Option (PieceMoves × Tables)} {r' : Option (List PieceMoves × Tables)}
        → (one : OneSound b turn r) → r' ≡ some (one.out ∷ [], one.after)
        → AllSound b turn r'
    single one e = record {
      out = one.out ∷ [];
      after = one.after;
      returns = e;
      sound = (one.sound, tt);
    }

    moves_of_piece-AllSound : (t : Tables) → AllSound b turn (moves_of_piece b (at b h) h turn t)
    unfolding moves_of_piece is_king
    moves_of_piece-AllSound t =
        let p = at b h in
        let slides = sliders-Lists b h t ih in
        let rook = listed slides.0 (λ m v. Slides-free v.2) in
        let bishop = listed slides.1 (λ m v. Slides-free v.2) in
        let queen = listed slides.2 (λ m v. Slides-free v.2) in
        let pawn = pawn_sound t in
        elim (Bool-cases (p == white_rook || p == black_rook)) [
          | inl e ↦ single rook (ground (arith, rook.returns))
          | inr n1 ↦ elim (Bool-cases (p == white_bishop || p == black_bishop)) [
            | inl e ↦ single bishop (ground (arith, bishop.returns))
            | inr n2 ↦ elim (Bool-cases (p == white_queen || p == black_queen)) [
              | inl e ↦ single queen (ground (arith, queen.returns))
              | inr n3 ↦ elim (Bool-cases (p == white_knight || p == black_knight)) [
                | inl e ↦
                    let knight =
                      listed (find_knight_moves-Lists b h t ih (ground arith))
                        (λ m v. (v.0, v.1)) in
                    single knight (ground (arith, knight.returns))
                | inr n4 ↦ elim (Bool-cases (p == white_pawn || p == black_pawn)) [
                  | inl e ↦ single pawn (ground (arith, pawn.returns))
                  | inr n5 ↦ record { out = []; after = t; returns = ground arith; sound = tt }
                ]
              ]
            ]
          ]
        ]

  moves_from-AllSound :
      (turn : Bool) (hs : List Hex) (t : Tables)
      → All (λ h. in_bounds_hex h ≡ true) hs
      → AllSound b turn (moves_from b turn hs t)
  unfolding moves_from
  moves_from-AllSound turn [] t ins = record { out = []; after = t; returns = refl; sound = tt }
  moves_from-AllSound turn (h ∷ hs) t (ih, ins) =
      elim (Bool-cases (at b h == empty || not (is_piece_turn (at b h) turn))) [
        | inl skip ↦
            let rest = moves_from-AllSound turn hs t ins in
            record {
              out = rest.out;
              after = rest.after;
              returns = ground (arith, read_lem b h t ih, rest.returns);
              sound = rest.sound;
            }
        | inr mine ↦
            let held : at b h ≢ empty = ground arith in
            let own : is_piece_turn (at b h) turn ≡ true = ground arith in
            let here = moves_of_piece-AllSound turn h ih held own t in
            let rest = moves_from-AllSound turn hs here.after ins in
            record {
              out = here.out ++ rest.out;
              after = rest.after;
              returns = ground (arith, read_lem b h t ih, here.returns, rest.returns);
              sound = All-append (IsSound b turn) here.out rest.out here.sound rest.sound;
            }
      ]

  -- On any board, for either colour and from any tables, the move list of a colour is computed
  -- without a panic, and all its entries are sound: the piece stands on the board and is of that
  -- colour, and every target is on the board and not held by that colour.
  pub find_piece_moves-AllSound :
      (turn : Bool) (t : Tables) → AllSound b turn (find_piece_moves b turn t)
  unfolding find_piece_moves
  find_piece_moves-AllSound turn t = moves_from-AllSound turn ord_hexagons t ord_hexagons-inside

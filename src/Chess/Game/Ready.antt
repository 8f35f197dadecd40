-- ===== src/Chess/Game/Ready.antt =====
-- `InitPieceMoves` on any game: it does not panic, keeps the position, and its lists are sound.
use hexchess.Prelude.{
  ◌≡◌, refl, inl, inr, Bool, true, false, Option, none, some, List, [], ◌∷◌, ◌++◌, arith, All,
  All-append, ◌∈◌, Bool-cases, if◌then◌else◌,
}
use hexchess.Chess.Piece.{is_piece_turn}
use hexchess.Chess.Hex.{Hex, in_bounds_hex, ord_hexagons}
use hexchess.Chess.Hex.Range.{in_bounds-Inside}
use hexchess.Chess.Board.{Board, get, find_king, find_king_in, is_king_of}
use hexchess.Chess.Moves.{PieceMoves, Tables}
use hexchess.Chess.Moves.Targets.{at, free}
use hexchess.Chess.Moves.Finders.{find_king_moves-Lists}
use hexchess.Chess.Moves.Entries.{IsSound, find_piece_moves-AllSound, ord_hexagons-inside}
use hexchess.Chess.Game.{
  Game, king_to_check, handle_check, add_white_king, add_black_king, init_piece_moves, clear_tables,
  clear_current_moves, emptied, get_turn_attack_table, no_tables,
}

-- What `find_king` answers: a hexagon of the board with the king of the colour, or none if no
-- listed hexagon has it.
abbrev pub KingAt : Board → Bool → List Hex → Option Hex → Type 0
KingAt b w hs none = All (λ h. is_king_of w (at b h) ≡ false) hs
KingAt b w hs (some h) = (in_bounds_hex h ≡ true) × (is_king_of w (at b h) ≡ true) × (h ∈ hs)

get_lem : (b : Board) (h : Hex) → in_bounds_hex h ≡ true → get b h.file h.rank ≡ some (at b h)
unfolding get
get_lem b h i = ground (arith, in_bounds-Inside h i)

find_king_in_lem :
    (b : Board) (w : Bool) (hs : List Hex)
    → All (λ h. in_bounds_hex h ≡ true) hs
    → (k : Option Hex) × (find_king_in b w hs ≡ some k) × KingAt b w hs k
unfolding find_king_in
find_king_in_lem b w [] ins = (none, refl, tt)
find_king_in_lem b w (h ∷ hs) (i, ins) = elim (Bool-cases (is_king_of w (at b h))) [
  | inl here ↦ (some h, ground (arith, get_lem b h i), (i, here, inl refl))
  | inr other ↦
      let (k, e, at_k) = find_king_in_lem b w hs ins in
      (k, ground (arith, get_lem b h i, e), further k other at_k)
]
  where
    further :
        (k : Option Hex) → is_king_of w (at b h) ≡ false → KingAt b w hs k → KingAt b w (h ∷ hs) k
    further none o a = (o, a)
    further (some x) o (a, c, m) = (a, c, inr m)

-- `FindKing` does not panic: it finds a hexagon of the board with the king of the colour, or there
-- is none on the board.
pub find_king-KingAt :
    (b : Board) (w : Bool) → (k : Option Hex) × (find_king b w ≡ some k) × KingAt b w ord_hexagons k
unfolding find_king
find_king-KingAt b w = find_king_in_lem b w ord_hexagons ord_hexagons-inside

-- Both lists are present and sound for the board, and the position is that of `g`.
pub record Ready (g g' : Game) : Type 0 where
  pub board : g'.board ≡ g.board
  pub history : g'.moves ≡ g.moves
  pub taken_white : g'.taken_white_pieces ≡ g.taken_white_pieces
  pub taken_black : g'.taken_black_pieces ≡ g.taken_black_pieces
  pub white : List PieceMoves
  pub black : List PieceMoves
  pub white_listed : g'.white_moves ≡ some white
  pub black_listed : g'.black_moves ≡ some black
  pub white_sound : All (IsSound g.board true) white
  pub black_sound : All (IsSound g.board false) black

with_white :
    (g0 g : Game) (ms : Option (List PieceMoves)) (t : Tables) (es : List PieceMoves)
    → ms ≡ some es
    → All (IsSound g0.board true) es
    → Ready g0 g
    → Ready g0 (record g { white_moves = ms; tables = t })
with_white g0 g ms t es e sound r = record {
  board = r.board;
  history = r.history;
  taken_white = r.taken_white;
  taken_black = r.taken_black;
  white = es;
  black = r.black;
  white_listed = e;
  black_listed = r.black_listed;
  white_sound = sound;
  black_sound = r.black_sound;
}

with_black :
    (g0 g : Game) (ms : Option (List PieceMoves)) (t : Tables) (es : List PieceMoves)
    → ms ≡ some es
    → All (IsSound g0.board false) es
    → Ready g0 g
    → Ready g0 (record g { black_moves = ms; tables = t })
with_black g0 g ms t es e sound r = record {
  board = r.board;
  history = r.history;
  taken_white = r.taken_white;
  taken_black = r.taken_black;
  black = es;
  white = r.white;
  black_listed = e;
  white_listed = r.white_listed;
  black_sound = sound;
  white_sound = r.white_sound;
}

cleared : (g0 g : Game) → Ready g0 g → Ready g0 (clear_current_moves g)
unfolding clear_current_moves
cleared g0 g r =
    elim g.board.is_white_turn
      as (λ w. Ready g0 (
        if w
        then record g { white_moves = emptied g.white_moves }
        else record g { black_moves = emptied g.black_moves })) [
          | true ↦ with_white g0 g (emptied g.white_moves) g.tables [] (rw r.white_listed) tt r
          | false ↦ with_black g0 g (emptied g.black_moves) g.tables [] (rw r.black_listed) tt r
        ]

cleared_if :
    (g0 g : Game) (a : Bool) → Ready g0 g → Ready g0 (if a then clear_current_moves g else g)
cleared_if g0 g true r = cleared g0 g r
cleared_if g0 g false r = r

-- The hexagon handed on, if any, is on the board.
abbrev OnBoard : Option Hex → Type 0
OnBoard none = Unit
OnBoard (some h) = in_bounds_hex h ≡ true

handle_check-Ready :
    (g0 g : Game) (k : Option Hex)
    → OnBoard k
    → Ready g0 g
    → (g' : Game) × (handle_check g k ≡ some g') × Ready g0 g'
unfolding handle_check
handle_check-Ready g0 g none ins r = (g, refl, r)
handle_check-Ready g0 g (some h) ins r =
    let i = in_bounds-Inside h ins in
    let a = get_turn_attack_table g g.board.is_white_turn h.file h.rank in
    (if a then clear_current_moves g else g, ground arith, cleared_if g0 g a r)

king_entry :
    (b : Board) (w : Bool) (h : Hex) (e : PieceMoves)
    → in_bounds_hex h ≡ true
    → is_king_of w (at b h) ≡ true
    → e.piece ≡ at b h
    → e.from ≡ h
    → ((m : Hex) → m ∈ e.moves → (in_bounds_hex m ≡ true) × (free b (at b h) m ≡ true))
    → IsSound b w e
unfolding is_piece_turn
king_entry b w h e i k p f good = record {
  on_board = rw f i;
  stands = rw (p, f);
  held = rw p (ground arith);
  own = rw p (ground arith);
  targets = λ m x. rw p (good m x);
}

add_white_king-Ready :
    (g0 g : Game) (hs : List Hex) (k : Option Hex)
    → KingAt g0.board true hs k
    → Ready g0 g
    → (g' : Game) × (add_white_king g k ≡ some g') × Ready g0 g'
unfolding add_white_king
add_white_king-Ready g0 g hs none at_k r = (g, refl, r)
add_white_king-Ready g0 g hs (some h) (i, c, _) r =
    let l = find_king_moves-Lists g0.board h g.tables i in
    (
      record g { white_moves = some (r.white ++ l.out ∷ []); tables = l.after },
      rw (r.board, l.returns, r.white_listed),
      with_white g0 g (some (r.white ++ l.out ∷ [])) l.after (r.white ++ l.out ∷ []) refl
          (All-append (IsSound g0.board true) r.white (l.out ∷ []) r.white_sound (
            king_entry g0.board true h l.out i c l.piece l.from
                (λ m x. let v = ((l.moves m).0 x).0 in (v.0, v.1)),
            tt,
          ))
          r,
    )

add_black_king-Ready :
    (g0 g : Game) (hs : List Hex) (k : Option Hex)
    → KingAt g0.board false hs k
    → Ready g0 g
    → (g' : Game) × (add_black_king g k ≡ some g') × Ready g0 g'
unfolding add_black_king
add_black_king-Ready g0 g hs none at_k r = (g, refl, r)
add_black_king-Ready g0 g hs (some h) (i, c, _) r =
    let l = find_king_moves-Lists g0.board h g.tables i in
    (
      record g { black_moves = some (r.black ++ l.out ∷ []); tables = l.after },
      rw (r.board, l.returns, r.black_listed),
      with_black g0 g (some (r.black ++ l.out ∷ [])) l.after (r.black ++ l.out ∷ []) refl
          (All-append (IsSound g0.board false) r.black (l.out ∷ []) r.black_sound (
            king_entry g0.board false h l.out i c l.piece l.from
                (λ m x. let v = ((l.moves m).0 x).0 in (v.0, v.1)),
            tt,
          ))
          r,
    )

OnBoard-king_to_check :
    (b : Board) (hs : List Hex) (turn : Bool) (wk bk : Option Hex)
    → KingAt b true hs wk
    → KingAt b false hs bk
    → OnBoard (king_to_check turn wk bk)
OnBoard-king_to_check b hs true (some w) bk aw ab = aw.0
OnBoard-king_to_check b hs true none none aw ab = tt
OnBoard-king_to_check b hs true none (some k) aw ab = ab.0
OnBoard-king_to_check b hs false wk none aw ab = tt
OnBoard-king_to_check b hs false wk (some k) aw ab = ab.0

-- On any game, whatever its board, `InitPieceMoves` returns without a panic. It keeps the board, the
-- history and the taken pieces, and every entry of either move list is sound for the board.
pub init_piece_moves-Ready : (g : Game) → (g' : Game) × (init_piece_moves g ≡ some g') × Ready g g'
unfolding init_piece_moves clear_tables
init_piece_moves-Ready g =
    let b = g.board in
    let white = find_piece_moves-AllSound b true no_tables in
    let black = find_piece_moves-AllSound b false white.after in
    let (wk, we, wat) = find_king-KingAt b true in
    let (bk, be, bat) = find_king-KingAt b false in
    let g1 : Game = record (clear_tables g) {
      white_moves = some white.out;
      black_moves = some black.out;
      tables = black.after;
    } in
    let r1 : Ready g g1 = record {
      board = refl;
      history = refl;
      taken_white = refl;
      taken_black = refl;
      white = white.out;
      black = black.out;
      white_listed = refl;
      black_listed = refl;
      white_sound = white.sound;
      black_sound = black.sound;
    } in
    let (g2, e2, r2) =
      handle_check-Ready g g1 (king_to_check b.is_white_turn wk bk)
        (OnBoard-king_to_check b ord_hexagons b.is_white_turn wk bk wat bat) r1 in
    let (g3, e3, r3) = add_white_king-Ready g g2 ord_hexagons wk wat r2 in
    let (g4, e4, r4) = add_black_king-Ready g g3 ord_hexagons bk bat r3 in
    (g4, ground (arith, white.returns, black.returns, we, be, e2, e3, e4), r4)

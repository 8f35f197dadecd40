-- ===== src/Chess/Moves/Offers.antt =====
-- `findPieceMoves` offers exactly the moves that the pieces of the colour, its king aside, can make.
use hexchess.Prelude.{
  each_from, ◌≡◌, refl, sym, ◌∙◌, subst, ◌↔◌, ◌⊎◌, inl, inr, Bool, true, false, not, ◌||◌, Option,
  some, List, [], ◌∷◌, ◌++◌, arith, ◌==◌, ==_iff, All, ◌∈◌, Bool-cases, if◌then◌else◌,
}
use hexchess.Chess.Piece.{
  Piece, empty, white_pawn, black_pawn, white_knight, black_knight, white_bishop, black_bishop,
  white_rook, black_rook, white_queen, black_queen, is_piece_turn, is_king,
}
use hexchess.Chess.Hex.{
  Hex, in_bounds_hex, ord_hexagons, rook_offsets, bishop_offsets, king_offsets, knight_offsets,
  same_hex,
}
use hexchess.Chess.Hex.Range.{all_hexes, all_hexes_sound, in_bounds-Inside}
use hexchess.Chess.Board.{Board}
use hexchess.Chess.Moves.{Tables, PieceMoves, moves_of_piece, moves_from, find_piece_moves}
use hexchess.Chess.Moves.Targets.{at, read_lem}
use hexchess.Chess.Moves.Finders.{Lists, SlidesAlong, Leaps, sliders-Lists, find_knight_moves-Lists}
use hexchess.Chess.Moves.Pawns.{PawnReach, find_pawn_moves-PawnReach}
use hexchess.Chess.Moves.Entries.{ord_hexagons-inside}

-- Some entry of the list is for `h` and has the target `m`.
abbrev pub Offers : List PieceMoves → Hex → Hex → Type 0
Offers [] h m = ⊥
Offers (e ∷ es) h m = ((e.from ≡ h) × (m ∈ e.moves)) ⊎ Offers es h m

Offers-append :
    (es fs : List PieceMoves) (h m : Hex) → Offers (es ++ fs) h m ↔ (Offers es h m ⊎ Offers fs h m)
Offers-append [] fs h m = (λ o. inr o, λ o. elim o [ inl x ↦ absurd x | inr y ↦ y ])
Offers-append (e ∷ es) fs h m =
    let rest = Offers-append es fs h m in
    (
      λ o. elim o [
        | inl x ↦ inl (inl x)
        | inr y ↦ elim (rest.0 y) [ inl l ↦ inl (inr l) | inr r ↦ inr r ]
      ],
      λ o. elim o [
        | inl x ↦ elim x [ inl l ↦ inl l | inr r ↦ inr (rest.1 (inl r)) ]
        | inr y ↦ inr (rest.1 (inr y))
      ],
    )

abbrev occurs : Hex → List Hex → Bool
occurs h [] = false
occurs h (x ∷ xs) = let later = occurs h xs in same_hex h x || later

occurs_sound : (h : Hex) (xs : List Hex) → occurs h xs ≡ true → h ∈ xs
unfolding same_hex
occurs_sound h [] e = cc
occurs_sound h (x ∷ xs) e = elim (Bool-cases (same_hex h x)) [
  | inl same ↦ inl (ground arith)
  | inr other ↦ inr (occurs_sound h xs (rw other at e))
]

abbrev reached_by_loop : Hex → Bool
reached_by_loop h = not (in_bounds_hex h) || occurs h ord_hexagons

loop_is_whole : all_hexes reached_by_loop ≡ true
unfolding all_hexes each_from in_bounds_hex ord_hexagons same_hex
loop_is_whole = refl

-- The loop over the board visits every hexagon of it.
in_ord_hexagons : (h : Hex) → in_bounds_hex h ≡ true → h ∈ ord_hexagons
in_ord_hexagons h ih =
    let i = in_bounds-Inside h ih in
    occurs_sound h ord_hexagons
      (rw ih at (all_hexes_sound reached_by_loop h loop_is_whole i.file_lt i.rank_lt_max))

∈-All :
    (hs : List Hex) (h : Hex)
    → All (λ x. in_bounds_hex x ≡ true) hs
    → h ∈ hs
    → in_bounds_hex h ≡ true
∈-All [] h a m = absurd m
∈-All (x ∷ hs) h (i, a) (inl e) = rw e i
∈-All (x ∷ hs) h (i, a) (inr m) = ∈-All hs h a m

module _ (b : Board) where
  -- The hexagons that a piece of the side `turn` on `h` can move to: a slide of a rook, bishop or
  -- queen, a leap of a knight, a step or a capture of a pawn. Kings are not among the pieces.
  abbrev pub Reaches : Bool → Piece → Hex → Hex → Type 0
  Reaches turn p h m =
      if p == white_rook || p == black_rook
      then SlidesAlong b rook_offsets h m
      else if p == white_bishop || p == black_bishop
      then SlidesAlong b bishop_offsets h m
      else if p == white_queen || p == black_queen
      then SlidesAlong b king_offsets h m
      else if p == white_knight || p == black_knight
      then Leaps b knight_offsets h m
      else if p == white_pawn || p == black_pawn
      then PawnReach b turn p h m
      else ⊥

  Reaches-held : (turn : Bool) (h m : Hex) → Reaches turn empty h m → ⊥
  Reaches-held turn h m r = r

  -- `r` returns entries, and they offer the moves of the relation.
  pub record Offering (moves : Hex → Hex → Type 0) (r : Option (List PieceMoves × Tables))
      : Type 0 where
    pub out : List PieceMoves
    pub after : Tables
    pub returns : r ≡ some (out, after)
    pub offers : (h m : Hex) → Offers out h m ↔ moves h m

  module _ (turn : Bool) (h : Hex) (ih : in_bounds_hex h ≡ true) where
    one_entry :
        (e : PieceMoves) (reach : Hex → Type 0)
        → e.from ≡ h
        → ((m : Hex) → (m ∈ e.moves) ↔ reach m)
        → (f m : Hex) → Offers (e ∷ []) f m ↔ ((f ≡ h) × reach m)
    one_entry e reach from moves f m = (
      λ o. elim o [ inl (x, k) ↦ (sym x ∙ from, (moves m).0 k) | inr n ↦ absurd n ],
      λ (x, v). inl (from ∙ sym x, (moves m).1 v),
    )

    offering :
        {t : Tables} {reach : Hex → Type 0} {r : Option (PieceMoves × Tables)}
        {r' : Option (List PieceMoves × Tables)}
        → (l : Lists b h t reach r) → r' ≡ some (l.out ∷ [], l.after)
        → ((m : Hex) → reach m ↔ Reaches turn (at b h) h m)
        → Offering (λ f m. (f ≡ h) × Reaches turn (at b h) h m) r'
    offering l e same = record {
      out = l.out ∷ [];
      after = l.after;
      returns = e;
      offers =
          one_entry l.out (Reaches turn (at b h) h) l.from
            (λ m. (λ k. (same m).0 ((l.moves m).0 k), λ v. (l.moves m).1 ((same m).1 v)));
    }

    moves_of_piece-Offering :
        (t : Tables)
        → Offering (λ f m. (f ≡ h) × Reaches turn (at b h) h m) (moves_of_piece b (at b h) h turn t)
    unfolding moves_of_piece is_king
    moves_of_piece-Offering t =
        let p = at b h in
        let (rook, bishop, queen) = sliders-Lists b h t ih in
        let (po, pa, pe, _, pf, pm, _) = find_pawn_moves-PawnReach b turn h t ih in
        elim (Bool-cases (p == white_rook || p == black_rook)) [
          | inl e ↦ offering rook (ground (arith, rook.returns)) (λ m. rw e (λ x. x, λ x. x))
          | inr n1 ↦ elim (Bool-cases (p == white_bishop || p == black_bishop)) [
            | inl e ↦
                offering bishop (ground (arith, bishop.returns)) (λ m. rw (n1, e) (λ x. x, λ x. x))
            | inr n2 ↦ elim (Bool-cases (p == white_queen || p == black_queen)) [
              | inl e ↦
                  offering queen (ground (arith, queen.returns))
                    (λ m. rw (n1, n2, e) (λ x. x, λ x. x))
              | inr n3 ↦ elim (Bool-cases (p == white_knight || p == black_knight)) [
                | inl e ↦
                    let knight = find_knight_moves-Lists b h t ih (ground arith) in
                    offering knight (ground (arith, knight.returns))
                      (λ m. rw (n1, n2, n3, e) (λ x. x, λ x. x))
                | inr n4 ↦ elim (Bool-cases (p == white_pawn || p == black_pawn)) [
                  | inl e ↦ record {
                    out = po ∷ [];
                    after = pa;
                    returns = ground (arith, pe);
                    offers =
                        one_entry po (Reaches turn p h) pf (λ m. rw (n1, n2, n3, n4, e) (pm m));
                  }
                  | inr n5 ↦ record {
                    out = [];
                    after = t;
                    returns = ground arith;
                    offers = λ f m. rw (n1, n2, n3, n4, n5) (λ o. absurd o, λ x. x.1);
                  }
                ]
              ]
            ]
          ]
        ]

  -- A hexagon that the loop skips has no piece that moves.
  idle :
      (turn : Bool) (h m : Hex)
      → (at b h == empty || not (is_piece_turn (at b h) turn)) ≡ true
      → is_piece_turn (at b h) turn ≡ true
      → Reaches turn (at b h) h m
      → ⊥
  idle turn h m skip own r =
      Reaches-held turn h m
        (subst (λ p. Reaches turn p h m) ((==_iff (at b h) empty).0 (ground arith)) r)

  -- A piece of the side on `h`, which is one of `hs`, reaches `m`.
  abbrev Able : Bool → List Hex → Hex → Hex → Type 0
  Able turn hs h m = (h ∈ hs) × (is_piece_turn (at b h) turn ≡ true) × Reaches turn (at b h) h m

  moves_from-Offering :
      (turn : Bool) (hs : List Hex) (t : Tables)
      → All (λ h. in_bounds_hex h ≡ true) hs
      → Offering (Able turn hs) (moves_from b turn hs t)
  unfolding moves_from
  moves_from-Offering turn [] t ins = record {
    out = [];
    after = t;
    returns = refl;
    offers = λ h m. (λ o. absurd o, λ a. a.0);
  }
  moves_from-Offering turn (h ∷ hs) t (ih, ins) =
      elim (Bool-cases (at b h == empty || not (is_piece_turn (at b h) turn))) [
        | inl skip ↦
            let rest = moves_from-Offering turn hs t ins in
            record {
              out = rest.out;
              after = rest.after;
              returns = ground (arith, read_lem b h t ih, rest.returns);
              offers = λ f m. (
                λ o. let (k, own, r) = (rest.offers f m).0 o in (inr k, own, r),
                λ a. elim (a.0) [
                  | inl e ↦ absurd (
                      idle turn h m skip (subst (λ x. is_piece_turn (at b x) turn ≡ true) e (a.1))
                        (subst (λ x. Reaches turn (at b x) x m) e (a.2)))
                  | inr k ↦ (rest.offers f m).1 (k, a.1, a.2)
                ],
              );
            }
        | inr mine ↦
            let own : is_piece_turn (at b h) turn ≡ true = ground arith in
            let here = moves_of_piece-Offering turn h ih t in
            let rest = moves_from-Offering turn hs here.after ins in
            record {
              out = here.out ++ rest.out;
              after = rest.after;
              returns = ground (arith, read_lem b h t ih, here.returns, rest.returns);
              offers = λ f m.
                  let parts = Offers-append here.out rest.out f m in
                  (
                    λ o. elim (parts.0 o) [
                      | inl l ↦
                          let (e, r) = (here.offers f m).0 l in
                          (inl e, rw e own, subst (λ x. Reaches turn (at b x) x m) (sym e) r)
                      | inr r ↦ let (k, o', v) = (rest.offers f m).0 r in (inr k, o', v)
                    ],
                    λ a. parts.1 (elim (a.0) [
                      | inl e ↦
                          inl (
                            (here.offers f m).1 (e, subst (λ x. Reaches turn (at b x) x m) e (a.2)))
                      | inr k ↦ inr ((rest.offers f m).1 (k, a.1, a.2))
                    ]),
                  );
            }
      ]

  -- On any board, for either colour and from any tables, `findPieceMoves` returns without a panic, and
  -- its list offers the move from one hexagon to another exactly if the first is on the board and holds
  -- a piece of the colour, other than a king, that reaches the second.
  pub find_piece_moves-Offering :
      (turn : Bool) (t : Tables)
      → Offering
          (λ h m.
            (in_bounds_hex h ≡ true)
            × (is_piece_turn (at b h) turn ≡ true)
            × Reaches turn (at b h) h m)
          (find_piece_moves b turn t)
  unfolding find_piece_moves
  find_piece_moves-Offering turn t =
      let r = moves_from-Offering turn ord_hexagons t ord_hexagons-inside in
      record {
        out = r.out;
        after = r.after;
        returns = r.returns;
        offers = λ h m. (
          λ o.
              let (k, own, v) = (r.offers h m).0 o in
              (∈-All ord_hexagons h ord_hexagons-inside k, own, v),
          λ (i, own, v). (r.offers h m).1 (in_ord_hexagons h i, own, v),
        );
      }

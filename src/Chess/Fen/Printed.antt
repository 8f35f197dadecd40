-- ===== src/Chess/Fen/Printed.antt =====
-- `Fen` and then `ParseFen` of backend/chess/board.go, file by file.
use hexchess.Prelude.{
  ℕ, zero, suc, ◌+◌, ◌≤◌, ◌<◌, ◌≡◌, refl, sym, ◌∙◌, ap, fun_ext, Bool, true, false, ◌&&◌, ◌||◌,
  Option, none, some, List, ◌∷◌, ◌++◌, append_assoc, ltb, leb, ◌==◌, arith, Bool-cases, inl, inr,
  if◌then◌else◌,
}
use hexchess.Chess.Piece.{empty, rune}
use hexchess.Chess.Hex.{ranks_per_file, inc32}
use hexchess.Chess.Board.{Board, in_array, get, set, update}
use hexchess.Chess.Board.Shape.{AllKnown}
use hexchess.Chess.Fen.{Scan, counted, is_space, is_letter, fen_step, scan, write_count, fen_ranks}
use hexchess.Chess.Fen.Pieces.{rune-IsLetter, pending, counted-pending, scan-write_count}

-- The pieces of a board that stand before a rank of a file.
abbrev pub so_far : Board → ℕ → ℕ → Board
so_far b f r = record {
  is_white_turn = false;
  pieces =
      λ x y. if ltb x f && ltb y (ranks_per_file x) || x == f && ltb y r then b.pieces x y else 0;
}

-- The loop of `ParseFen` there, with the rank and the count that it has.
abbrev pub reading : Board → ℕ → ℕ → ℕ → Option ℕ → Scan
reading b f r rank count = record { board = so_far b f r; file = f; rank = rank; count = count }

same_pieces : (p q : ℕ → ℕ → ℕ) → ((x y : ℕ) → p x y ≡ q x y) → p ≡ q
same_pieces p q e = fun_ext (λ x. fun_ext (λ y. e x y))

pub same_board :
    (t : Bool) (p q : ℕ → ℕ → ℕ)
    → ((x y : ℕ) → p x y ≡ q x y)
    → (let l : Board = record { is_white_turn = t; pieces = p } in l)
      ≡ record { is_white_turn = t; pieces = q }
same_board t p q e = ap (λ v. record { is_white_turn = t; pieces = v }) (same_pieces p q e)

ranks_per_file-le : (f : ℕ) → ranks_per_file f ≤ 11
unfolding ranks_per_file
ranks_per_file-le f = ground arith

in_array_lem : (f r : ℕ) → f < 11 → r < ranks_per_file f → in_array f r ≡ true
in_array_lem f r lf lr = ground (arith, ranks_per_file-le f)

module _ (b : Board) (k : AllKnown b) where
  so_far-empty : (f r : ℕ) → b.pieces f r ≡ 0 → so_far b f (r + 1) ≡ so_far b f r
  so_far-empty f r e = same_board false _ _ (λ x y. elim (Bool-cases (x == f && y == r)) [
    | inl here ↦
        let at_x : b.pieces x y ≡ b.pieces f y =
          ap (λ z. b.pieces z y) (let s : x ≡ f = ground (arith, here) in s) in
        let at_y : b.pieces f y ≡ b.pieces f r =
          ap (λ z. b.pieces f z) (let s : y ≡ r = ground (arith, here) in s) in
        ground (arith, here, at_x, at_y, e)
    | inr off ↦ ground (arith, off)
  ])

  so_far-set :
      (f r : ℕ)
      → (let l : Board = record (so_far b f r) {
        pieces = update (so_far b f r).pieces f r (b.pieces f r);
      } in
          l)
        ≡ so_far b f (r + 1)
  so_far-set f r = same_board false _ _ (λ x y. elim (Bool-cases (x == f && y == r)) [
    | inl here ↦
        let at_x : b.pieces x y ≡ b.pieces f y =
          ap (λ z. b.pieces z y) (let s : x ≡ f = ground (arith, here) in s) in
        let at_y : b.pieces f y ≡ b.pieces f r =
          ap (λ z. b.pieces f z) (let s : y ≡ r = ground (arith, here) in s) in
        ground (arith, here, at_x, at_y)
    | inr off ↦ ground (arith, off)
  ])

  pub so_far-file : (f : ℕ) → so_far b f (ranks_per_file f) ≡ so_far b (f + 1) 0
  so_far-file f = same_board false _ _ (λ x y. elim (Bool-cases (x == f)) [
    | inl here ↦
        let size : ranks_per_file x ≡ ranks_per_file f =
          ap ranks_per_file (let s : x ≡ f = ground (arith, here) in s) in
        ground (arith, here, size)
    | inr off ↦ ground (arith, off)
  ])

  -- A letter after a count.
  scan_letter :
      (f r rank e : ℕ) (rest : List ℕ)
      → f < 11
      → r < ranks_per_file f
      → rank + e ≡ r
      → (b.pieces f r == empty) ≡ false
      → scan (reading b f r rank (pending e)) (rune (b.pieces f r) ∷ rest)
        ≡ scan (reading b f (r + 1) (r + 1) none) rest
  unfolding scan fen_step set
  scan_letter f r rank e rest lf lr sum piece =
      let l = rune-IsLetter (b.pieces f r) (k.known f r (ground (arith, lf, lr))) piece in
      let more : leb 11 f ≡ false = ground arith in
      let test : (is_space (rune (b.pieces f r))
            || is_letter (rune (b.pieces f r))
            || rune (b.pieces f r) == b'/')
          ≡ true =
        ground (arith, l.letter) in
      let count : counted rank (pending e) ≡ some r =
        counted-pending rank e (omega (arith, ranks_per_file-le f)) ∙ ap some sum in
      let fits : ltb r (ranks_per_file f) ≡ true = ground arith in
      let next_rank : inc32 r ≡ r + 1 = omega (arith, ranks_per_file-le f) in
      rw
        (
          more,
          test,
          count,
          l.no_space,
          l.letter,
          fits,
          l.read,
          in_array_lem f r lf lr,
          next_rank,
          so_far-set f r,
        )
        refl

  -- What is written of a file from a rank on, after `e` empty hexagons, and how it is read.
  unfoldable pub PrintedFile : ℕ → ℕ → ℕ → ℕ → ℕ → Type 0
  PrintedFile n f r rank e =
      (text : List ℕ) × (last : ℕ) × (left : ℕ) × (fen_ranks b n f r e ≡ some text)
      × (last + left ≡ ranks_per_file f)
      × ((rest : List ℕ)
          → scan (reading b f r rank none) (text ++ rest)
            ≡ scan (reading b f (ranks_per_file f) last (pending left)) rest)

  get_lem : (f r : ℕ) → f < 11 → r < ranks_per_file f → get b f r ≡ some (b.pieces f r)
  unfolding get
  get_lem f r lf lr = rw (in_array_lem f r lf lr) refl

  -- An empty hexagon is counted.
  printed_gap :
      (n f r rank e : ℕ)
      → f < 11
      → r < ranks_per_file f
      → (b.pieces f r == empty) ≡ true
      → PrintedFile n f (r + 1) rank (e + 1)
      → PrintedFile (suc n) f r rank e
  unfolding PrintedFile fen_ranks
  printed_gap n f r rank e lf lr gap (text, last, left, written, sum, read) = (
    text,
    last,
    left,
    ground (arith, get_lem f r lf lr, gap, written),
    sum,
    λ rest.
        ap (λ board. scan (record (reading b f r rank none) { board = board }) (text ++ rest))
          (sym (so_far-empty f r (ground (arith, gap))))
        ∙ read rest,
  )

  -- A piece follows its count.
  printed_piece :
      (n f r rank e : ℕ)
      → f < 11
      → r < ranks_per_file f
      → rank + e ≡ r
      → (b.pieces f r == empty) ≡ false
      → PrintedFile n f (r + 1) (r + 1) 0
      → PrintedFile (suc n) f r rank e
  unfolding PrintedFile fen_ranks
  printed_piece n f r rank e lf lr at piece (text, last, left, written, sum, read) = (
    write_count e ++ rune (b.pieces f r) ∷ text,
    last,
    left,
    ground (arith, get_lem f r lf lr, piece, written),
    sum,
    λ rest.
        ap (λ l. scan (reading b f r rank none) l)
          (append_assoc (write_count e) (rune (b.pieces f r) ∷ text) rest)
        ∙ scan-write_count (so_far b f r) f rank e (rune (b.pieces f r) ∷ (text ++ rest)) lf
            (omega (arith, ranks_per_file-le f))
        ∙ scan_letter f r rank e (text ++ rest) lf lr at piece
        ∙ read rest,
  )

  pub printed_file :
      (n f r rank e : ℕ)
      → f < 11
      → r + n ≡ ranks_per_file f
      → rank + e ≡ r
      → PrintedFile n f r rank e
  printed_file zero f r rank e lf size at =
      let end : r ≡ ranks_per_file f = omega arith in
      (unfold PrintedFile in
        unfold fen_ranks in
        (
          write_count e,
          rank,
          e,
          refl,
          omega arith,
          λ rest.
              scan-write_count (so_far b f r) f rank e rest lf (omega (arith, ranks_per_file-le f))
              ∙ ap (λ r'. scan (reading b f r' rank (pending e)) rest) end,
        ))
  printed_file (suc n) f r rank e lf size at =
      let lr : r < ranks_per_file f = omega arith in
      elim (Bool-cases (b.pieces f r == empty)) [
        | inl gap ↦
            printed_gap n f r rank e lf lr gap
              (printed_file n f (r + 1) rank (e + 1) lf (omega arith) (omega arith))
        | inr piece ↦
            printed_piece n f r rank e lf lr at piece
              (printed_file n f (r + 1) (r + 1) 0 lf (omega arith) (omega arith))
      ]

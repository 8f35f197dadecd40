-- ===== src/Model/Serde/Boards.antt =====
-- `SerializeBoard` and `DeserializeBoard` of backend/model/serde.go.
use hexchess.Prelude.{
  ℕ, zero, suc, ◌+◌, ◌≤◌, ◌<◌, ◌≡◌, refl, ◌∙◌, ap, ap₂, fun_ext, true, ◌&&◌, some, List, [], ◌∷◌,
  ltb, leb, ◌==◌, arith, Bool-cases, inl, inr, if◌then◌else◌,
}
use hexchess.Chess.Hex.{files, ranks_per_file}
use hexchess.Chess.Board.{Board, update, ok, set_piece, get_piece}
use hexchess.Chess.Board.Shape.{in_shape, AllKnown, trimmed}
use hexchess.Chess.Start.{blank_board}
use hexchess.Model.Serde.{
  PbBoard, to_piece, set_ranks, set_files, deserialize_board, get_ranks, get_files, serialize_board,
}

-- The pieces of a file, from a rank on.
abbrev ranks_of : Board → ℕ → ℕ → ℕ → List ℕ
ranks_of b f r zero = []
ranks_of b f r (suc n) = b.pieces f r ∷ ranks_of b f (suc r) n

abbrev files_of : Board → ℕ → ℕ → List (List ℕ)
files_of b f zero = []
files_of b f (suc n) = ranks_of b f 0 (ranks_per_file f) ∷ files_of b (suc f) n

get_ranks-returns :
    (b : Board) (f r n : ℕ)
    → f < files
    → r + n ≤ ranks_per_file f
    → get_ranks b f r n ≡ some (ranks_of b f r n)
unfolding get_ranks get_piece
get_ranks-returns b f r zero lt le = refl
get_ranks-returns b f r (suc n) lt le =
    ground (arith, get_ranks-returns b f (suc r) n lt (omega (arith, le)))

get_files-returns : (b : Board) (f n : ℕ) → f + n ≤ files → get_files b f n ≡ some (files_of b f n)
unfolding get_files
get_files-returns b f zero le = refl
get_files-returns b f (suc n) le = ground (
  arith,
  get_ranks-returns b f 0 (ranks_per_file f) (omega (arith, le)) (omega arith),
  get_files-returns b (suc f) n (omega (arith, le)),
)

pub serialize_board-returns : (b : Board) → (m : PbBoard) × (serialize_board b ≡ some m)
unfolding serialize_board
serialize_board-returns b = (
  record { board_files = files_of b 0 11; is_white_turn = b.is_white_turn },
  rw (get_files-returns b 0 11 (omega arith)) refl,
)

to_piece_lem : (p : ℕ) → p < 256 → to_piece p ≡ p
to_piece_lem p lt = omega arith

-- The ranks of a file from `r` on, `n` of them, were taken over from `b`.
record Filled (b c c' : Board) (f r n : ℕ) : Type 0 where
  turn : c'.is_white_turn ≡ c.is_white_turn
  pieces :
      (x y : ℕ)
      → c'.pieces x y
        ≡ (if x == f && (leb r y && ltb y (r + n)) then b.pieces f y else c.pieces x y)

next_rank :
    (x y f r n : ℕ) (w : ℕ → ℕ) (d v : ℕ)
    → v ≡ (
        if x == f && (leb (suc r) y && ltb y (suc r + n))
        then w y
        else if x == f && y == r
        then w r
        else d)
    → v ≡ (if x == f && (leb r y && ltb y (r + suc n)) then w y else d)
next_rank x y f r n w d v e = elim (Bool-cases (y == r)) [
  | inl s ↦ let same : w y ≡ w r = ap w (ground (arith, s)) in ground (arith, s, e, same)
  | inr s ↦ ground (arith, s, e)
]

next_file :
    (x y f n : ℕ) (w : ℕ → ℕ → ℕ) (d v1 v : ℕ)
    → v1 ≡ (if x == f && (leb 0 y && ltb y (0 + ranks_per_file f)) then w f y else d)
    → v ≡ (if (leb (suc f) x && ltb x (suc f + n)) && ltb y (ranks_per_file x) then w x y else v1)
    → v ≡ (if (leb f x && ltb x (f + suc n)) && ltb y (ranks_per_file x) then w x y else d)
next_file x y f n w d v1 v e1 e = elim (Bool-cases (x == f)) [
  | inl s ↦
      let same : w x y ≡ w f y = ap (λ z. w z y) (ground (arith, s)) in
      let size : ranks_per_file x ≡ ranks_per_file f = ap ranks_per_file (ground (arith, s)) in
      ground (arith, s, e, e1, same, size)
  | inr s ↦ ground (arith, s, e, e1)
]

module _ (b : Board) (k : AllKnown b) where
  set_piece-known :
      (c : Board) (f r : ℕ)
      → f < files
      → r < ranks_per_file f
      → set_piece c f r (to_piece (b.pieces f r))
        ≡ ok (record c { pieces = update c.pieces f r (b.pieces f r) })
  unfolding set_piece
  set_piece-known c f r lt le =
      let i : in_shape f r ≡ true = ground (arith, lt, le) in
      rw (to_piece_lem (b.pieces f r) (k.small f r i)) (ground (arith, lt, le, k.known f r i))

  set_ranks-Filled :
      (f r n : ℕ) (c : Board)
      → f < files
      → r + n ≤ ranks_per_file f
      → (c' : Board) × (set_ranks f r (ranks_of b f r n) c ≡ ok c') × Filled b c c' f r n
  unfolding set_ranks
  set_ranks-Filled f r zero c lt le =
      (c, refl, record { turn = refl; pieces = λ x y. ground arith })
  set_ranks-Filled f r (suc n) c lt le =
      let c1 = record c { pieces = update c.pieces f r (b.pieces f r) } in
      let (c', e, filled) = set_ranks-Filled f (suc r) n c1 lt (omega (arith, le)) in
      (
        c',
        rw (set_piece-known c f r lt (omega (arith, le))) e,
        record {
          turn = filled.turn;
          pieces = λ x y.
              next_rank x y f r n (b.pieces f) (c.pieces x y) (c'.pieces x y) (filled.pieces x y);
        },
      )

  -- The files from `f` on, `n` of them.
  set_files-FilledAll :
      (f n : ℕ) (c : Board)
      → f + n ≤ files
      → (c' : Board) × (set_files f (files_of b f n) c ≡ ok c')
        × (c'.is_white_turn ≡ c.is_white_turn)
        × ((x y : ℕ)
            → c'.pieces x y ≡ (
                if (leb f x && ltb x (f + n)) && ltb y (ranks_per_file x)
                then b.pieces x y
                else c.pieces x y))
  unfolding set_files
  set_files-FilledAll f zero c le = (c, refl, refl, λ x y. ground arith)
  set_files-FilledAll f (suc n) c le =
      let (c1, e, filled) =
        set_ranks-Filled f 0 (ranks_per_file f) c (omega (arith, le)) (omega arith) in
      let (c', e', turn, rest) = set_files-FilledAll (suc f) n c1 (omega (arith, le)) in
      (
        c',
        rw e e',
        turn ∙ filled.turn,
        λ x y.
            next_file x y f n b.pieces (c.pieces x y) (c1.pieces x y) (c'.pieces x y)
              (filled.pieces x y) (rest x y),
      )

  -- A board comes back from its message, but for what stands outside its shape.
  pub deserialize_board-serialize_board :
      (m : PbBoard) × (serialize_board b ≡ some m) × (deserialize_board (some m) ≡ ok (trimmed b))
  unfolding serialize_board deserialize_board
  deserialize_board-serialize_board =
      let (c', e, turn, rest) =
        set_files-FilledAll 0 11 (blank_board b.is_white_turn) (omega arith) in
      (
        record { board_files = files_of b 0 11; is_white_turn = b.is_white_turn },
        rw (get_files-returns b 0 11 (omega arith)) refl,
        e
            ∙ ap ok (
                ap₂ (λ t p. record { is_white_turn = t; pieces = p }) turn
                  (fun_ext (λ x. fun_ext (λ y. ground (arith, rest x y))))),
      )

-- ===== src/Chess/Fen/Pieces.antt =====
-- The characters that `Fen` of backend/chess/board.go writes, as `ParseFen` reads them.
use hexchess.Prelude.{
  ℕ, zero, suc, ◌+◌, ◌-◌, ◌/◌, ◌%◌, ◌≤◌, ◌<◌, ◌≡◌, refl, ◌∙◌, true, false, ◌||◌, Option, none, some,
  List, [], ◌∷◌, ◌++◌, ltb, leb, ◌==◌, arith, Bool-cases, inl, inr,
}
use hexchess.Chess.Piece.{Piece, empty, rune, piece_from_rune}
use hexchess.Chess.Board.{Board}
use hexchess.Chess.Notation.{itoa}
use hexchess.Chess.Fen.{
  Scan, fen_step, scan, is_space, is_digit, is_letter, count_digit, write_count, counted,
}

-- A piece is read back from its letter.
pub record IsLetter (p : Piece) : Type 0 where
  pub letter : is_letter (rune p) ≡ true
  pub no_space : is_space (rune p) ≡ false
  pub read : piece_from_rune (rune p) ≡ some p

below_13 : (p : Piece) → (rune p == b'?') ≡ false → p < 13
unfolding rune
below_13 p known = ground arith

pub rune-IsLetter : (p : Piece) → (rune p == b'?') ≡ false → (p == empty) ≡ false → IsLetter p
unfolding rune piece_from_rune
rune-IsLetter p known some_piece = record {
  letter = ground arith;
  no_space = ground arith;
  read = ground arith;
}

write_count_one : (e : ℕ) → e < 9 → write_count (suc e) ≡ (b'0' + suc e) ∷ []
unfolding itoa
write_count_one e lt =
    let small : ltb (suc e) 10 ≡ true = ground arith in
    let rem : suc e % 10 ≡ suc e = omega arith in rw (small, rem) refl

write_count_two :
    (e : ℕ) → 9 ≤ e → e < 11 → write_count (suc e) ≡ (b'0' + 1) ∷ (b'0' + (e - 9)) ∷ []
unfolding itoa
write_count_two e ge lt =
    let big : ltb (suc e) 10 ≡ false = ground arith in
    let tens : suc e / 10 ≡ 1 = omega arith in
    let rem : suc e % 10 ≡ e - 9 = omega arith in rw (big, tens, rem) refl

scan_digit :
    (s : Scan) (d v : ℕ) (rest : List ℕ)
    → s.file < 11
    → d < 10
    → count_digit s.count (b'0' + d) ≡ v
    → scan s ((b'0' + d) ∷ rest) ≡ scan (record s { count = some v }) rest
unfolding scan fen_step
scan_digit s d v rest f lt e =
    let more : leb 11 s.file ≡ false = ground arith in
    let others : (is_space (b'0' + d) || is_letter (b'0' + d) || (b'0' + d) == b'/') ≡ false =
      ground arith in
    let digit : is_digit (b'0' + d) ≡ true = ground arith in rw (more, others, digit, e) refl

-- A count that was read, but for 0, which is not written.
abbrev pub pending : ℕ → Option ℕ
pending zero = none
pending (suc e) = some (suc e)

pub counted-pending : (r e : ℕ) → r + e < 12 → counted r (pending e) ≡ some (r + e)
counted-pending r zero lt = ground arith
counted-pending r (suc e) lt = ground arith

-- A written count is read back.
pub scan-write_count :
    (board : Board) (f r e : ℕ) (rest : List ℕ)
    → f < 11
    → e < 12
    → scan (record { board = board; file = f; rank = r; count = none }) (write_count e ++ rest)
      ≡ scan (record { board = board; file = f; rank = r; count = pending e }) rest
scan-write_count board f r zero rest lf lt = refl
scan-write_count board f r (suc e) rest lf lt =
    let s : Scan = record { board = board; file = f; rank = r; count = none } in
    elim (Bool-cases (ltb e 9)) [
      | inl small ↦
          rw (write_count_one e (ground (arith, small)))
            (scan_digit s (suc e) (suc e) rest lf (ground (arith, small)) (omega arith))
      | inr big ↦ rw (write_count_two e (ground (arith, big)) (omega arith)) (
          scan_digit s 1 1 ((b'0' + (e - 9)) ∷ rest) lf (omega arith) (omega arith)
          ∙ scan_digit (record s { count = some 1 }) (e - 9) (suc e) rest lf (omega arith)
              (ground (arith, big)))
    ]

-- ===== src/Chess/Fen/Total.antt =====
-- `ParseFen` does not panic.
use hexchess.Prelude.{
  ℕ, ◌≡◌, refl, true, false, ◌||◌, Option, none, some, List, [], ◌∷◌, ltb, leb, ◌==◌, arith,
  Bool-cases, inl, inr,
}
use hexchess.Chess.Piece.{Piece, piece_from_rune}
use hexchess.Chess.Hex.{hex_at, files, ranks_per_file, in_bounds_hex}
use hexchess.Chess.Hex.Range.{in_bounds-Inside}
use hexchess.Chess.Board.{Board, set, update}
use hexchess.Chess.Fen.{
  Scan, Step, next, stop, failed, counted, letter, slash, separator, is_space, is_digit, is_letter,
  fen_step, Scanned, scanned, bad_text, scan, place_letter, parse_fen,
}

-- The code returns something.
abbrev pub Returns : {A : Type 0} → Option A → Type 0
Returns {A = A} r = (a : A) × (r ≡ some a)

set-Returns :
    (b : Board) (f r : ℕ) (p : Piece) → in_bounds_hex (hex_at f r) ≡ true → Returns (set b f r p)
unfolding set
set-Returns b f r p i =
    (record b { pieces = update b.pieces f r p }, ground (arith, in_bounds-Inside (hex_at f r) i))

place_letter-Returns :
    (s : Scan) (rank c : ℕ) (o : Option Piece)
    → in_bounds_hex (hex_at s.file rank) ≡ true
    → Returns (place_letter s rank c o)
place_letter-Returns s rank c none i = (_, refl)
place_letter-Returns s rank c (some p) i =
    let (b, e) = set-Returns s.board s.file rank p i in rw e (_, refl)

letter-Returns : (s : Scan) (rank c : ℕ) → ltb s.file files ≡ true → Returns (letter s rank c)
unfolding in_bounds_hex
letter-Returns s rank c f = elim (Bool-cases (ltb rank (ranks_per_file s.file))) [
  | inl r ↦ rw r (place_letter-Returns s rank c (piece_from_rune c) (ground arith))
  | inr r ↦ rw r (_, refl)
]

separator-Returns :
    (s : Scan) (c : ℕ) (o : Option ℕ) → ltb s.file files ≡ true → Returns (separator s c o)
separator-Returns s c none f = (_, refl)
separator-Returns s c (some rank) f = elim (Bool-cases (is_space c)) [
  | inl sp ↦ rw sp (stop, refl)
  | inr ns ↦ elim (Bool-cases (is_letter c)) [
    | inl l ↦ rw (ns, l) (letter-Returns s rank c f)
    | inr nl ↦ rw (ns, nl) (slash s rank, refl)
  ]
]

fen_step-Returns : (s : Scan) (c : ℕ) → Returns (fen_step s c)
unfolding fen_step
fen_step-Returns s c = elim (Bool-cases (leb files s.file)) [
  | inl over ↦ rw over (stop, refl)
  | inr more ↦ elim (Bool-cases (is_space c || is_letter c || c == b'/')) [
    | inl sep ↦ rw (more, sep) (separator-Returns s c (counted s.rank s.count) (ground arith))
    | inr ns ↦ elim (Bool-cases (is_digit c)) [
      | inl d ↦ rw (more, ns, d) (_, refl)
      | inr nd ↦ rw (more, ns, nd) (_, refl)
    ]
  ]
]

-- The variables before the loop.
abbrev opening : Scan
opening = record {
  board = record { is_white_turn = false; pieces = λ f r. 0 };
  file = 0;
  rank = 0;
  count = none;
}

-- The rest of the loop after a round.
abbrev resumed : Scan → ℕ → List ℕ → Step → Option Scanned
resumed s c cs step = elim step [
  | next s' ↦ scan s' cs
  | stop ↦ some (scanned s (c ∷ cs))
  | failed e ↦ some (bad_text e)
]

resumed-Returns :
    (s : Scan) (c : ℕ) (cs : List ℕ)
    → ((s' : Scan) → Returns (scan s' cs))
    → (step : Step) → Returns (resumed s c cs step)
resumed-Returns s c cs rest (next s') = rest s'
resumed-Returns s c cs rest stop = (_, refl)
resumed-Returns s c cs rest (failed e) = (_, refl)

scan-Returns : (s : Scan) (cs : List ℕ) → Returns (scan s cs)
unfolding scan
scan-Returns s [] = (_, refl)
scan-Returns s (c ∷ cs) =
    let (step, e) = fen_step-Returns s c in
    rw e (resumed-Returns s c cs (λ s'. scan-Returns s' cs) step)

-- On any text of ASCII characters `ParseFen` returns without a panic: a board, or an error.
pub parse_fen-Returns : (text : List ℕ) → Returns (parse_fen text)
unfolding parse_fen
parse_fen-Returns text = let (s, e) = scan-Returns opening text in rw e (_, refl)

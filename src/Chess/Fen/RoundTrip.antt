-- ===== src/Chess/Fen/RoundTrip.antt =====
-- `Fen` and then `ParseFen` of backend/chess/board.go.
use hexchess.Prelude.{
  ℕ, zero, suc, ◌+◌, ◌%◌, ◌<◌, ◌≡◌, refl, ◌∙◌, ap, subst, Bool, true, false, none, some, List, [],
  ◌∷◌, ◌++◌, append-nil, append_assoc, leb, ◌==◌, arith, Bool-cases, inl, inr, if◌then◌else◌, ◌>>=◌,
}
use hexchess.Chess.Hex.{ranks_per_file}
use hexchess.Chess.Board.{Board}
use hexchess.Chess.Board.Shape.{AllKnown, trimmed}
use hexchess.Chess.Fen.{
  counted, fen_step, scanned, scan, parsed, turn_of, parsed_from, parse_fen, fen_files, fen,
}
use hexchess.Chess.Fen.Pieces.{pending, counted-pending}
use hexchess.Chess.Fen.Printed.{so_far, reading, same_board, so_far-file, PrintedFile, printed_file}

ranks_below : (f : ℕ) → ranks_per_file f < 12
unfolding ranks_per_file
ranks_below f = ground arith

module _ (b : Board) (k : AllKnown b) where
  -- A slash after a whole file.
  scan_slash :
      (f last left : ℕ) (rest : List ℕ)
      → f < 10
      → last + left ≡ ranks_per_file f
      → scan (reading b f (ranks_per_file f) last (pending left)) (b'/' ∷ rest)
        ≡ scan (reading b (f + 1) 0 0 none) rest
  unfolding scan fen_step
  scan_slash f last left rest lf sum =
      let more : leb 11 f ≡ false = ground arith in
      let count : counted last (pending left) ≡ some (ranks_per_file f) =
        counted-pending last left (omega (arith, ranks_below f)) ∙ ap some sum in
      let whole : (ranks_per_file f == ranks_per_file f) ≡ true = ground arith in
      let next_file : (f + 1) % 4294967296 ≡ f + 1 = omega arith in
      rw (more, count) (rw (whole, next_file, so_far-file b k f) refl)

  -- The space after the last file.
  scan_space :
      (f last left : ℕ) (rest : List ℕ)
      → f < 11
      → last + left ≡ ranks_per_file f
      → scan (reading b f (ranks_per_file f) last (pending left)) (b' ' ∷ rest)
        ≡ some (scanned (reading b f (ranks_per_file f) last (pending left)) (b' ' ∷ rest))
  unfolding scan fen_step
  scan_space f last left rest lf sum =
      let more : leb 11 f ≡ false = ground arith in
      let count : counted last (pending left) ≡ some (ranks_per_file f) =
        counted-pending last left (omega (arith, ranks_below f)) ∙ ap some sum in
      rw (more, count) refl

  -- What is written from a file on, and how it is read.
  PrintedFiles : ℕ → ℕ → Type 0
  PrintedFiles n f =
      (text : List ℕ) × (last : ℕ) × (left : ℕ) × (fen_files b n f ≡ some text)
      × ((turn : List ℕ)
          → scan (reading b f 0 0 none) (text ++ b' ' ∷ turn)
            ≡ some (scanned (reading b 10 (ranks_per_file 10) last (pending left)) (b' ' ∷ turn)))

  last_file : PrintedFiles 1 10
  unfolding PrintedFiles PrintedFile fen_files
  last_file =
      let (text, last, left, written, sum, read) =
        printed_file b k (ranks_per_file 10) 10 0 0 0 (omega arith) (omega arith) (omega arith) in
      (
        text ++ [] ++ [],
        last,
        left,
        rw written refl,
        λ turn.
            ap (λ l. scan (reading b 10 0 0 none) (l ++ b' ' ∷ turn))
              (append-nil (text ++ []) ∙ append-nil text)
            ∙ read (b' ' ∷ turn)
            ∙ scan_space 10 last left turn (omega arith) sum,
      )

  file_before : (n f : ℕ) → f < 10 → PrintedFiles (suc n) (f + 1) → PrintedFiles (suc (suc n)) f
  unfolding PrintedFiles PrintedFile fen_files
  file_before n f lf (others, last, left, written', read') =
      let (text, last', left', written, sum, read) =
        printed_file b k (ranks_per_file f) f 0 0 0 (omega arith) (omega arith) (omega arith) in
      (
        text ++ b'/' ∷ [] ++ others,
        last,
        left,
        rw (written, written', let more : (suc n == 0) ≡ false = ground arith in more) refl,
        λ turn.
            ap (λ l. scan (reading b f 0 0 none) l)
              (append_assoc (text ++ b'/' ∷ []) others (b' ' ∷ turn)
                ∙ append_assoc text (b'/' ∷ []) (others ++ b' ' ∷ turn))
            ∙ read (b'/' ∷ (others ++ b' ' ∷ turn))
            ∙ scan_slash f last' left' (others ++ b' ' ∷ turn) lf sum
            ∙ read' turn,
      )

  printed_files : (n f : ℕ) → f + suc n ≡ 11 → PrintedFiles (suc n) f
  printed_files zero f sum =
      let ten : 10 ≡ f = omega arith in subst (λ x. PrintedFiles 1 x) ten last_file
  printed_files (suc n) f sum =
      file_before n f (omega arith) (printed_files n (f + 1) (omega arith))

  whole_board :
      (t : Bool)
      → (let l : Board = record (so_far b 10 (ranks_per_file 10)) { is_white_turn = t } in l)
        ≡ record (trimmed b) { is_white_turn = t }
  whole_board t = same_board t _ _ (λ x y. elim (Bool-cases (x == 10)) [
    | inl here ↦
        let size : ranks_per_file x ≡ ranks_per_file 10 =
          ap ranks_per_file (let s : x ≡ 10 = ground (arith, here) in s) in
        ground (arith, here, size)
    | inr off ↦ ground (arith, off)
  ])

  turn_read :
      (t : Bool)
      → turn_of (so_far b 10 (ranks_per_file 10)) (b' ' ∷ (if t then b'w' else b'b') ∷ [])
        ≡ parsed (record (trimmed b) { is_white_turn = t })
  turn_read true = ap parsed (whole_board true)
  turn_read false = ap parsed (whole_board false)

  -- `Fen` prints a board with known pieces without a panic, and `ParseFen` reads it back without a
  -- panic or an error: all that stands on the board, and whose turn it is.
  pub parse_fen-fen :
      (text : List ℕ) × (fen b ≡ some text) × (parse_fen text ≡ some (parsed (trimmed b)))
  unfolding fen parse_fen PrintedFiles
  parse_fen-fen =
      let (text, last, left, written, read) = printed_files 10 0 (omega arith) in
      let turn : List ℕ = (if b.is_white_turn then b'w' else b'b') ∷ [] in
      let blank = same_board false (λ x y. 0) (so_far b 0 0).pieces (λ x y. ground arith) in
      let begun =
        ap (λ l. scan (record (reading b 0 0 0 none) { board = l }) (text ++ b' ' ∷ turn)) blank in
      (
        text ++ b' ' ∷ turn,
        rw written refl,
        ap (λ o. o >>= λ s. some (parsed_from s)) (begun ∙ read turn)
            ∙ ap some (turn_read b.is_white_turn),
      )

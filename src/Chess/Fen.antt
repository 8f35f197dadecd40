-- ===== src/Chess/Fen.antt =====
-- The FEN text of a board: `ParseFen` and `Fen` of backend/chess/board.go, on texts of ASCII
-- characters, where a byte is a rune. A panic is `none`. Of the errors' texts only the data is kept.
pub mod Total
pub mod Pieces
pub mod Printed
pub mod RoundTrip
pub mod Json
use hexchess.Prelude.{
  ℕ, zero, suc, ◌+◌, ◌-◌, ◌*◌, ◌%◌, ◌^◌, Bool, true, false, ◌&&◌, ◌||◌, Option, none, some, List,
  [], ◌∷◌, ◌++◌, ltb, leb, ◌==◌, if◌then◌else◌, ◌>>=◌,
}
use hexchess.Chess.Piece.{Piece, empty, rune, piece_from_rune}
use hexchess.Chess.Hex.{Hex, files, ranks_per_file, inc32, hex_at}
use hexchess.Chess.Board.{Board, get, set}
use hexchess.Chess.Notation.{itoa}

pub data FenError : Type 0 where
  bad_count : FenError
  out_of_bounds : Hex → FenError
  bad_character : ℕ → FenError
  wrong_length : ℕ → FenError
  invalid_files missing_turn : FenError
  bad_turn : ℕ → FenError

pub data Parsed : Type 0 where
  parsed : Board → Parsed
  rejected : FenError → Parsed

abbrev pub is_space : ℕ → Bool
is_space c = c == b' ' || leb 9 c && leb c 13

abbrev pub is_digit : ℕ → Bool
is_digit c = leb b'0' c && leb c b'9'

abbrev pub is_letter : ℕ → Bool
is_letter c = leb b'A' c && leb c b'Z' || leb b'a' c && leb c b'z'

-- The variables of the loop; the digits read since `startCntIdx` are kept as their number.
pub record Scan : Type 0 where
  pub board : Board
  pub file : ℕ
  pub rank : ℕ
  pub count : Option ℕ

pub data Step : Type 0 where
  next : Scan → Step
  stop : Step
  failed : FenError → Step

-- The rank after the digits before a character; `strconv.Atoi` refuses what no int64 holds.
abbrev pub counted : ℕ → Option ℕ → Option ℕ
counted rank none = some rank
counted rank (some n) = if ltb n (2 ^ 63) then some ((rank + n) % 2 ^ 32) else none

abbrev pub place_letter : Scan → ℕ → ℕ → Option Piece → Option Step
place_letter s rank c none = some (failed (bad_character c))
place_letter s rank c (some p) = do
  board ← set s.board s.file rank p
  some (next (record { board = board; file = s.file; rank = inc32 rank; count = none }))

abbrev pub letter : Scan → ℕ → ℕ → Option Step
letter s rank c =
    if ltb rank (ranks_per_file s.file)
    then place_letter s rank c (piece_from_rune c)
    else some (failed (out_of_bounds (hex_at s.file rank)))

abbrev pub slash : Scan → ℕ → Step
slash s rank =
    if rank == ranks_per_file s.file
    then next (record { board = s.board; file = inc32 s.file; rank = 0; count = none })
    else failed (wrong_length s.file)

-- A space, a letter or a slash, with the rank after the digits before it.
abbrev pub separator : Scan → ℕ → Option ℕ → Option Step
separator s c none = some (failed bad_count)
separator s c (some rank) =
    if is_space c then some stop else if is_letter c then letter s rank c else some (slash s rank)

abbrev count_digit : Option ℕ → ℕ → ℕ
count_digit none c = c - b'0'
count_digit (some n) c = 10 * n + (c - b'0')

-- One round of the loop of `ParseFen`.
unfoldable pub fen_step : Scan → ℕ → Option Step
fen_step s c =
    if leb files s.file
    then some stop
    else if is_space c || is_letter c || c == b'/'
    then separator s c (counted s.rank s.count)
    else if is_digit c
    then some (next (record s { count = some (count_digit s.count c) }))
    else some (failed (bad_character c))

pub data Scanned : Type 0 where
  scanned : Scan → List ℕ → Scanned
  bad_text : FenError → Scanned

-- The loop, with the text that it leaves.
unfoldable pub scan : Scan → List ℕ → Option Scanned
scan s [] = some (scanned s [])
scan s (c ∷ cs) = do
  step ← fen_step s c
  elim step [
    | next s' ↦ scan s' cs
    | stop ↦ some (scanned s (c ∷ cs))
    | failed e ↦ some (bad_text e)
  ]

-- The turn, after the spaces.
abbrev pub turn_of : Board → List ℕ → Parsed
turn_of b [] = rejected missing_turn
turn_of b (c ∷ cs) =
    let later = turn_of b cs in
    if is_space c
    then later
    else if c == b'w'
    then parsed (record b { is_white_turn = true })
    else if c == b'b'
    then parsed (record b { is_white_turn = false })
    else rejected (bad_turn c)

abbrev pub parsed_from : Scanned → Parsed
parsed_from (bad_text e) = rejected e
parsed_from (scanned s rest) =
    if s.file == files - 1 then turn_of s.board rest else rejected invalid_files

unfoldable pub parse_fen : List ℕ → Option Parsed
parse_fen text = do
  s ←
      scan
        (record {
          board = record { is_white_turn = false; pieces = λ f r. 0 };
          file = 0;
          rank = 0;
          count = none;
        })
        text
  some (parsed_from s)

abbrev write_count : ℕ → List ℕ
write_count zero = []
write_count (suc n) = itoa (suc n)

module _ (b : Board) where
  -- `n` ranks of a file from `rank` on, after some empty hexagons.
  unfoldable pub fen_ranks : ℕ → ℕ → ℕ → ℕ → Option (List ℕ)
  fen_ranks zero file rank empties = some (write_count empties)
  fen_ranks (suc n) file rank empties = do
    piece ← get b file rank
    elim (piece == empty) [
      | true ↦ fen_ranks n file (rank + 1) (empties + 1)
      | false ↦ do
        rest ← fen_ranks n file (rank + 1) 0
        some (write_count empties ++ rune piece ∷ rest)
    ]

  -- `n` files from `file` on.
  unfoldable pub fen_files : ℕ → ℕ → Option (List ℕ)
  fen_files zero file = some []
  fen_files (suc n) file = do
    ranks ← fen_ranks (ranks_per_file file) file 0 0
    rest ← fen_files n (file + 1)
    some (ranks ++ (if n == 0 then [] else b'/' ∷ []) ++ rest)

  unfoldable pub fen : Option (List ℕ)
  fen = do
    text ← fen_files files 0
    some (text ++ b' ' ∷ (if b.is_white_turn then b'w' else b'b') ∷ [])

-- ===== src/Chess/Fen/Json.antt =====
-- The JSON of a board: `MarshalJSON` and `UnmarshalJSON` of backend/chess/board.go, a FEN text in quotes.
use hexchess.Prelude.{
  ℕ, ◌≡◌, refl, ◌∙◌, ap, ◌&&◌, Option, none, some, List, [], ◌∷◌, ◌++◌, ◌==◌, if◌then◌else◌, ◌>>=◌,
}
use hexchess.Chess.Board.{Board}
use hexchess.Chess.Board.Shape.{AllKnown, trimmed}
use hexchess.Chess.Fen.{Parsed, parsed, parse_fen, fen}
use hexchess.Chess.Fen.RoundTrip.{parse_fen-fen}

abbrev quote : ℕ
quote = b'"'

unfoldable pub marshal_json : Board → Option (List ℕ)
marshal_json b = do text ← fen b; some (quote ∷ (text ++ quote ∷ []))

pub data Unmarshalled : Type 0 where
  unmarshalled : Parsed → Unmarshalled
  invalid_json : Unmarshalled

-- A text without its last byte, and that byte.
abbrev split_last : List ℕ → Option (List ℕ × ℕ)
split_last [] = none
split_last (c ∷ cs) = elim (split_last cs) [ none ↦ some ([], c) | some (ds, d) ↦ some (c ∷ ds, d) ]

-- The text between a first byte and the last of the others.
abbrev unquoted : ℕ → Option (List ℕ × ℕ) → Option Unmarshalled
unquoted first none = some invalid_json
unquoted first (some (inner, last)) =
    if first == quote && last == quote
    then (do p ← parse_fen inner; some (unmarshalled p))
    else some invalid_json

unfoldable pub unmarshal_json : List ℕ → Option Unmarshalled
unmarshal_json [] = some invalid_json
unmarshal_json (c ∷ cs) = unquoted c (split_last cs)

split_last-append : (cs : List ℕ) (c : ℕ) → split_last (cs ++ c ∷ []) ≡ some (cs, c)
split_last-append [] c = refl
split_last-append (d ∷ cs) c = rw (split_last-append cs c) refl

-- `MarshalJSON` of a board with known pieces returns without a panic, and `UnmarshalJSON` reads back,
-- without a panic or an error, all that stands on the board and whose turn it is.
pub unmarshal_json-marshal_json :
    (b : Board)
    → AllKnown b
    → (text : List ℕ) × (marshal_json b ≡ some text)
      × (unmarshal_json text ≡ some (unmarshalled (parsed (trimmed b))))
unfolding marshal_json unmarshal_json
unmarshal_json-marshal_json b k =
    let (text, written, read) = parse_fen-fen b k in
    (
      quote ∷ (text ++ quote ∷ []),
      rw written refl,
      ap (unquoted quote) (split_last-append text quote) ∙ rw read refl,
    )

-- ===== src/Chess/Moves.antt =====
-- The move finders of backend/chess/game.go. They read the board of the `Game` and write its two
-- attack tables, so each is a state-passing function over the tables, and the board is a parameter.
-- `none` is a panic at an index, or a ray that outlived its fuel.
pub mod Targets
pub mod Rays
pub mod Finders
pub mod Pawns
pub mod Entries
pub mod Offers
use hexchess.Prelude.{
  ℕ, zero, suc, Bool, true, false, not, ◌&&◌, ◌||◌, Option, none, some, List, [], ◌∷◌, ◌++◌, ◌==◌,
  if◌then◌else◌,
}
use hexchess.Chess.Piece.{
  Piece, empty, white_pawn, black_pawn, white_knight, black_knight, white_bishop, black_bishop,
  white_rook, black_rook, white_queen, black_queen, white_king, black_king, is_white, is_piece_turn,
  opposite_color,
}
use hexchess.Chess.Hex.{
  Direction, up, down, up_left, up_right, down_left, down_right, Hex, walk, in_bounds_hex,
  has_pawn_moved, rook_offsets, bishop_offsets, king_offsets, knight_offsets, ord_hexagons, files,
}
use hexchess.Chess.Board.{Board, in_array, update, get}

abbrev pub AttackTable : Type 0
AttackTable = ℕ → ℕ → Bool

-- `WhiteAttackTable` and `BlackAttackTable`.
pub record Tables : Type 0 where
  pub white_attack : AttackTable
  pub black_attack : AttackTable

pub record PieceMoves : Type 0 where
  pub piece : Piece
  pub from : Hex
  pub moves : List Hex

abbrev pub M : Type 0 → Type 0
M A = Tables → Option (A × Tables)

infixl 5 ◌>>=◌ ◌>>◌
abbrev pub ◌>>=◌ : {A B : Type 0} → M A → (A → M B) → M B
◌>>=◌ m f t = elim (m t) [ none ↦ none | some (a, t') ↦ f a t' ]

abbrev pub ◌>>◌ : {B : Type 0} → M Unit → M B → M B
◌>>◌ m k t = elim (m t) [ none ↦ none | some (_, t') ↦ k t' ]

abbrev pub pure : {A : Type 0} → A → M A
pure a t = some (a, t)

-- `isAttacked[file][rank]`, which may panic.
abbrev pub lookup_table : AttackTable → Hex → Option Bool
lookup_table a h = if in_array h.file h.rank then some (a h.file h.rank) else none

unfoldable pub set_attack_table : Piece → Hex → M Unit
set_attack_table p h t =
    if in_array h.file h.rank
    then some (
      tt,
      if is_white p
          then record t { white_attack = update t.white_attack h.file h.rank true }
          else record t { black_attack = update t.black_attack h.file h.rank true },
    )
    else none

-- The `switch` on a king in `findOffsetMovesFiltered`.
unfoldable pub is_attacked : Piece → Hex → M Bool
is_attacked base h t =
    if base == white_king
    then elim (lookup_table t.black_attack h) [ none ↦ none | some a ↦ some (a, t) ]
    else if base == black_king
    then elim (lookup_table t.white_attack h) [ none ↦ none | some a ↦ some (a, t) ]
    else some (false, t)

abbrev pub pick : Bool → List Direction → List Direction → List Direction
pick cond a b = if cond then a else b

-- A ray leaves the board after at most ten hexagons, whatever stands on them.
abbrev pub ray_fuel : ℕ
ray_fuel = files

module _ (b : Board) where
  unfoldable pub read : Hex → M Piece
  read h t = elim (get b h.file h.rank) [ none ↦ none | some p ↦ some (p, t) ]

  -- The inner loop of `findMovesByTraveling`, from the hexagon before.
  unfoldable pub ray : ℕ → List Direction → Piece → Hex → M (List Hex)
  ray zero dirs base hex = λ t. none
  ray (suc fuel) dirs base hex =
      let move = walk hex dirs in
      let rest = ray fuel dirs base move in
      if in_bounds_hex move
      then (do
        piece ← read move
        if piece == empty
            then (do set_attack_table base move; ms ← rest; pure (move ∷ ms))
            else if opposite_color piece base
            then (do set_attack_table base move; pure (move ∷ []))
            else pure [])
      else pure []

  unfoldable pub rays : Piece → Hex → List (List Direction) → M (List Hex)
  rays base hex [] = pure []
  rays base hex (dirs ∷ rest) = do
    ms ← ray ray_fuel dirs base hex
    others ← rays base hex rest
    pure (ms ++ others)

  unfoldable pub find_moves_by_traveling : Hex → List (List Direction) → M (List Hex)
  find_moves_by_traveling hex directions = do base ← read hex; rays base hex directions

  -- The loop of `findOffsetMovesFiltered`.
  unfoldable pub offset_moves : Piece → Hex → List (List Direction) → M (List Hex)
  offset_moves base hex [] = pure []
  offset_moves base hex (dirs ∷ directions) =
      let move = walk hex dirs in
      let rest = offset_moves base hex directions in
      if in_bounds_hex move
      then (do
        piece ← read move
        let can_move = piece == empty || opposite_color base piece
        attacked ← is_attacked base move
        if can_move && not attacked
            then (do set_attack_table base move; ms ← rest; pure (move ∷ ms))
            else rest)
      else rest

  unfoldable pub find_offset_moves_filtered : Hex → List (List Direction) → M (List Hex)
  find_offset_moves_filtered hex directions = do base ← read hex; offset_moves base hex directions

  unfoldable pub find_offset_moves : Hex → List (List Direction) → M (List Hex)
  find_offset_moves hex directions = find_offset_moves_filtered hex directions

  -- `PieceMoves{Piece: board.Get(hex), From: hex, Moves: moves}`.
  abbrev pub with_piece : Hex → M (List Hex) → M PieceMoves
  with_piece hex find = do
    p ← read hex
    ms ← find
    pure (record { piece = p; from = hex; moves = ms })

  unfoldable pub find_rook_moves : Hex → M PieceMoves
  find_rook_moves hex = with_piece hex (find_moves_by_traveling hex rook_offsets)

  unfoldable pub find_bishop_moves : Hex → M PieceMoves
  find_bishop_moves hex = with_piece hex (find_moves_by_traveling hex bishop_offsets)

  unfoldable pub find_queen_moves : Hex → M PieceMoves
  find_queen_moves hex = with_piece hex (find_moves_by_traveling hex king_offsets)

  unfoldable pub find_knight_moves : Hex → M PieceMoves
  find_knight_moves hex = with_piece hex (find_offset_moves hex knight_offsets)

  unfoldable pub find_king_moves_filtered : Hex → M PieceMoves
  find_king_moves_filtered hex = with_piece hex (find_offset_moves_filtered hex king_offsets)

  -- A forward move of a pawn, under the tests of `findPawnMoves`.
  unfoldable pub pawn_ahead : Bool → Hex → M (List Hex)
  pawn_ahead allowed move =
      if in_bounds_hex move && allowed
      then (do piece ← read move; pure (if piece == empty then move ∷ [] else []))
      else pure []

  unfoldable pub pawn_take : Piece → Hex → M (List Hex)
  pawn_take base move =
      if in_bounds_hex move
      then (do
        piece ← read move
        if not (piece == empty) && opposite_color base piece
            then (do set_attack_table base move; pure (move ∷ []))
            else pure [])
      else pure []

  unfoldable pub find_pawn_moves : Hex → Bool → M PieceMoves
  find_pawn_moves hex is_white_turn = do
    base ← read hex
    let ahead = pick is_white_turn (up ∷ []) (down ∷ [])
    let move1 = walk hex ahead
    let move2 = walk move1 ahead
    one ← pawn_ahead true move1
    two ← pawn_ahead (not (has_pawn_moved hex (is_white base))) move2
    left ← pawn_take base (walk hex (pick is_white_turn (up_left ∷ []) (down_left ∷ [])))
    right ← pawn_take base (walk hex (pick is_white_turn (up_right ∷ []) (down_right ∷ [])))
    p ← read hex
    pure (record { piece = p; from = hex; moves = one ++ two ++ left ++ right })

  -- The `switch` of `findPieceMoves`; a king and an unknown piece add nothing.
  unfoldable pub moves_of_piece : Piece → Hex → Bool → M (List PieceMoves)
  moves_of_piece piece hex is_white_turn =
      if piece == white_rook || piece == black_rook
      then (do pms ← find_rook_moves hex; pure (pms ∷ []))
      else if piece == white_bishop || piece == black_bishop
      then (do pms ← find_bishop_moves hex; pure (pms ∷ []))
      else if piece == white_queen || piece == black_queen
      then (do pms ← find_queen_moves hex; pure (pms ∷ []))
      else if piece == white_knight || piece == black_knight
      then (do pms ← find_knight_moves hex; pure (pms ∷ []))
      else if piece == white_pawn || piece == black_pawn
      then (do pms ← find_pawn_moves hex is_white_turn; pure (pms ∷ []))
      else pure []

  unfoldable pub moves_from : Bool → List Hex → M (List PieceMoves)
  moves_from is_white_turn [] = pure []
  moves_from is_white_turn (hex ∷ rest) = do
    piece ← read hex
    let skip = piece == empty || not (is_piece_turn piece is_white_turn)
    ms ← if skip then pure [] else moves_of_piece piece hex is_white_turn
    others ← moves_from is_white_turn rest
    pure (ms ++ others)

  unfoldable pub find_piece_moves : Bool → M (List PieceMoves)
  find_piece_moves is_white_turn = moves_from is_white_turn ord_hexagons

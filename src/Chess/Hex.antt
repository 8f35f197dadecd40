-- ===== src/Chess/Hex.antt =====
-- The coordinates of backend/chess/board.go: `Hex`, `Direction`, `Walk` and the offset tables.
-- File and rank are uint32, so a step down from 0 wraps around to 2^32 - 1.
pub mod Range
pub mod Axial
use hexchess.Prelude.{
  ℕ, zero, suc, ◌+◌, ◌-◌, ◌%◌, Bool, true, false, not, ◌&&◌, ◌||◌, List, [], ◌∷◌, ◌++◌, map, ltb,
  leb, ◌==◌, if◌then◌else◌,
}

abbrev pub files : ℕ
files = 11

abbrev pub max_ranks : ℕ
max_ranks = 11

abbrev pub midpoint : ℕ
midpoint = 5

-- The table `RanksPerFile`. It is read only at a file below 11.
unfoldable pub ranks_per_file : ℕ → ℕ
ranks_per_file file = if leb file midpoint then 6 + file else 16 - file

pub data Direction : Type 0 where
  up down down_left down_right up_left up_right : Direction

pub record Hex : Type 0 where
  pub file : ℕ
  pub rank : ℕ

abbrev pub hex_at : ℕ → ℕ → Hex
hex_at f r = record { file = f; rank = r }

unfoldable pub same_hex : Hex → Hex → Bool
same_hex a b = a.file == b.file && a.rank == b.rank

abbrev pub inc32 : ℕ → ℕ
inc32 n = (n + 1) % 4294967296

abbrev pub dec32 : ℕ → ℕ
dec32 n = (n + 4294967295) % 4294967296

-- One round of the loop of `Walk`.
unfoldable pub step : Direction → Hex → Hex
step up h = record h { rank = inc32 h.rank }
step down h = record h { rank = dec32 h.rank }
step up_left h = record {
  file = dec32 h.file;
  rank = if ltb midpoint h.file then inc32 h.rank else h.rank;
}
step down_left h = record {
  file = dec32 h.file;
  rank = if leb h.file midpoint then dec32 h.rank else h.rank;
}
step up_right h = record {
  file = inc32 h.file;
  rank = if ltb h.file midpoint then inc32 h.rank else h.rank;
}
step down_right h = record {
  file = inc32 h.file;
  rank = if leb midpoint h.file then dec32 h.rank else h.rank;
}

unfoldable pub walk : Hex → List Direction → Hex
unfolding step
walk h [] = h
walk h (d ∷ ds) = walk (step d h) ds

abbrev pub rook_offsets : List (List Direction)
rook_offsets =
    (up ∷ [])
    ∷ (down ∷ [])
    ∷ (down_left ∷ [])
    ∷ (down_right ∷ [])
    ∷ (up_left ∷ [])
    ∷ (up_right ∷ [])
    ∷ []

abbrev pub bishop_offsets : List (List Direction)
bishop_offsets =
    (up_right ∷ down_right ∷ [])
    ∷ (up_left ∷ down_left ∷ [])
    ∷ (up ∷ up_right ∷ [])
    ∷ (up ∷ up_left ∷ [])
    ∷ (down ∷ down_right ∷ [])
    ∷ (down ∷ down_left ∷ [])
    ∷ []

abbrev pub king_offsets : List (List Direction)
king_offsets = rook_offsets ++ bishop_offsets

abbrev pub knight_offsets : List (List Direction)
knight_offsets =
    (up_right ∷ up_right ∷ up ∷ [])
    ∷ (up_right ∷ up ∷ up ∷ [])
    ∷ (down_right ∷ down_right ∷ down ∷ [])
    ∷ (down_right ∷ down ∷ down ∷ [])
    ∷ (up_left ∷ up_left ∷ up ∷ [])
    ∷ (up_left ∷ up ∷ up ∷ [])
    ∷ (down_left ∷ down_left ∷ down ∷ [])
    ∷ (down_left ∷ down ∷ down ∷ [])
    ∷ (up_left ∷ up_left ∷ down_left ∷ [])
    ∷ (down_left ∷ down_left ∷ up_left ∷ [])
    ∷ (up_right ∷ up_right ∷ down_right ∷ [])
    ∷ (down_right ∷ down_right ∷ up_right ∷ [])
    ∷ []

-- `Board.InBounds` and `InBoundsHex`; they do not read the board.
unfoldable pub in_bounds : ℕ → ℕ → Bool
unfolding ranks_per_file
in_bounds file rank = ltb file files && ltb rank (ranks_per_file file)

unfoldable pub in_bounds_hex : Hex → Bool
unfolding in_bounds
in_bounds_hex h = in_bounds h.file h.rank

-- `n` numbers from `i` on: the counted loops over files and ranks.
abbrev pub range_from : ℕ → ℕ → List ℕ
range_from i zero = []
range_from i (suc n) = i ∷ range_from (i + 1) n

hexagons_of : List ℕ → List Hex
unfolding ranks_per_file
hexagons_of [] = []
hexagons_of (f ∷ fs) = map (hex_at f) (range_from 0 (ranks_per_file f)) ++ hexagons_of fs

-- `GetOrdHexagons`, the value of the variable `OrdHexagons`.
unfoldable pub ord_hexagons : List Hex
unfolding hexagons_of
ord_hexagons = hexagons_of (range_from 0 files)

unfoldable pub can_promote : Hex → Bool
can_promote h =
    if h.file == 0 || h.file == 10
    then leb 5 h.rank
    else if h.file == 1 || h.file == 9
    then leb 6 h.rank
    else if h.file == 2 || h.file == 8
    then leb 7 h.rank
    else if h.file == 3 || h.file == 7
    then leb 8 h.rank
    else if h.file == 4 || h.file == 6
    then leb 9 h.rank
    else if h.file == 5
    then leb 10 h.rank
    else false

-- `HasPawnMoved`. On files other than b to j `minRank` is -1, below every rank.
unfoldable pub has_pawn_moved : Hex → Bool → Bool
has_pawn_moved h true =
    if h.file == 1 || h.file == 9
    then ltb 0 h.rank
    else if h.file == 2 || h.file == 8
    then ltb 1 h.rank
    else if h.file == 3 || h.file == 7
    then ltb 2 h.rank
    else if h.file == 4 || h.file == 6
    then ltb 3 h.rank
    else if h.file == 5
    then ltb 4 h.rank
    else true
has_pawn_moved h false = ltb h.rank 7

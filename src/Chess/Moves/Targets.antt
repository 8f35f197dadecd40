-- ===== src/Chess/Moves/Targets.antt =====
-- The targets of a piece as plain lists over the board, and that the finders compute exactly these,
-- without a panic, and mark them in the attack tables.
use hexchess.Prelude.{
  ℕ, zero, suc, ◌≡◌, refl, Bool, true, false, not, ◌&&◌, ◌||◌, some, List, [], ◌∷◌, ◌++◌, arith,
  ◌==◌, if◌then◌else◌, All, fun_ext, ap, ◌∙◌,
}
use hexchess.Chess.Piece.{Piece, empty, white_king, black_king, is_white, opposite_color}
use hexchess.Chess.Hex.{Direction, Hex, walk, in_bounds_hex}
use hexchess.Chess.Hex.Range.{in_bounds-Inside}
use hexchess.Chess.Board.{Board, update, get}
use hexchess.Chess.Moves.{
  Tables, set_attack_table, is_attacked, ray, rays, ray_fuel, offset_moves, read,
}

-- The piece on a hexagon.
abbrev pub at : Board → Hex → Piece
at b h = b.pieces h.file h.rank

-- A mark that cannot panic.
unfoldable pub marked : Piece → Hex → Tables → Tables
marked p h t =
    if is_white p
    then record t { white_attack = update t.white_attack h.file h.rank true }
    else record t { black_attack = update t.black_attack h.file h.rank true }

abbrev pub mark_all : Piece → List Hex → Tables → Tables
mark_all p [] t = t
mark_all p (m ∷ ms) t = mark_all p ms (marked p m t)

-- The table that the moves of a king are held against.
unfoldable pub guarded : Piece → Tables → Hex → Bool
guarded base t h =
    if base == white_king
    then t.black_attack h.file h.rank
    else if base == black_king
    then t.white_attack h.file h.rank
    else false

-- A piece of the colour of `base` may stand on a hexagon that is empty or held by the other colour.
abbrev pub free : Board → Piece → Hex → Bool
free b base h = at b h == empty || opposite_color base (at b h)

-- The ray is off the board after at most `fuel` steps.
unfoldable pub exits : ℕ → List Direction → Hex → Bool
exits zero dirs h = false
exits (suc fuel) dirs h =
    let rest = exits fuel dirs (walk h dirs) in if in_bounds_hex (walk h dirs) then rest else true

pub mark_all-append :
    (p : Piece) (ms ns : List Hex) (t : Tables)
    → mark_all p (ms ++ ns) t ≡ mark_all p ns (mark_all p ms t)
mark_all-append p [] ns t = refl
mark_all-append p (m ∷ ms) ns t = mark_all-append p ms ns (marked p m t)

module _ (b : Board) where
  unfoldable pub ray_targets : ℕ → List Direction → Piece → Hex → List Hex
  ray_targets zero dirs base h = []
  ray_targets (suc fuel) dirs base h =
      let move = walk h dirs in
      let rest = ray_targets fuel dirs base move in
      if in_bounds_hex move
      then (if at b move == empty
          then move ∷ rest
          else if opposite_color (at b move) base
          then move ∷ []
          else [])
      else []

  unfoldable pub rays_targets : Piece → Hex → List (List Direction) → List Hex
  rays_targets base h [] = []
  rays_targets base h (dirs ∷ rest) = ray_targets ray_fuel dirs base h ++ rays_targets base h rest

  pub read_lem : (h : Hex) (t : Tables) → in_bounds_hex h ≡ true → read b h t ≡ some (at b h, t)
  unfolding read get
  read_lem h t e = ground (arith, in_bounds-Inside h e)

  pub set_attack_table_lem :
      (p : Piece) (h : Hex) (t : Tables)
      → in_bounds_hex h ≡ true
      → set_attack_table p h t ≡ some (tt, marked p h t)
  unfolding set_attack_table marked
  set_attack_table_lem p h t e = ground (arith, in_bounds-Inside h e)

  ray_lem :
      (fuel : ℕ) (dirs : List Direction) (base : Piece) (h : Hex) (t : Tables)
      → exits fuel dirs h ≡ true
      → ray b fuel dirs base h t
        ≡ some (ray_targets fuel dirs base h, mark_all base (ray_targets fuel dirs base h) t)
  unfolding ray ray_targets exits
  ray_lem zero dirs base h t e = ground arith
  ray_lem (suc fuel) dirs base h t e =
      let move = walk h dirs in
      ground (
        arith,
        read_lem move t,
        set_attack_table_lem base move t,
        ray_lem fuel dirs base move (marked base move t),
      )

  pub rays_lem :
      (dss : List (List Direction)) (base : Piece) (h : Hex) (t : Tables)
      → All (λ dirs. exits ray_fuel dirs h ≡ true) dss
      → rays b base h dss t
        ≡ some (rays_targets base h dss, mark_all base (rays_targets base h dss) t)
  unfolding rays rays_targets
  rays_lem [] base h t e = refl
  rays_lem (dirs ∷ dss) base h t (e, es) =
      let here = ray_targets ray_fuel dirs base h in
      ground (
        arith,
        ray_lem ray_fuel dirs base h t e,
        rays_lem dss base h (mark_all base here t) es,
        mark_all-append base here (rays_targets base h dss) t,
      )

  is_attacked_lem :
      (base : Piece) (h : Hex) (t : Tables)
      → in_bounds_hex h ≡ true
      → is_attacked base h t ≡ some (guarded base t h, t)
  unfolding is_attacked guarded
  is_attacked_lem base h t e = ground (arith, in_bounds-Inside h e)

  -- A mark for one colour leaves the table that its king is held against.
  guarded-marked :
      (base : Piece) (h : Hex) (t : Tables) → guarded base (marked base h t) ≡ guarded base t
  unfolding guarded marked is_white
  guarded-marked base h t = fun_ext λ x. ground arith

  -- The targets of a knight or a king under the marks `g`.
  unfoldable pub offset_targets : (Hex → Bool) → Piece → Hex → List (List Direction) → List Hex
  offset_targets g base h [] = []
  offset_targets g base h (dirs ∷ rest) =
      let move = walk h dirs in
      let others = offset_targets g base h rest in
      if in_bounds_hex move && free b base move && not (g move) then move ∷ others else others

  pub offset_moves_lem :
      (dss : List (List Direction)) (base : Piece) (h : Hex) (t : Tables) (g : Hex → Bool)
      → guarded base t ≡ g
      → offset_moves b base h dss t
        ≡ some (offset_targets g base h dss, mark_all base (offset_targets g base h dss) t)
  unfolding offset_moves offset_targets
  offset_moves_lem [] base h t g e = refl
  offset_moves_lem (dirs ∷ dss) base h t g e =
      let move = walk h dirs in
      ground (
        arith,
        read_lem move t,
        is_attacked_lem base move t,
        set_attack_table_lem base move t,
        ap (λ (f : Hex → Bool). f move) e,
        offset_moves_lem dss base h t g e,
        offset_moves_lem dss base h (marked base move t) g (guarded-marked base move t ∙ e),
      )

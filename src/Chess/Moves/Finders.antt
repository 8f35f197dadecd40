-- ===== src/Chess/Moves/Finders.antt =====
-- The finders of one piece return, and list exactly the hexagons that the piece can reach.
use hexchess.Prelude.{
  ◌≡◌, refl, ◌↔◌, ◌⊎◌, inl, inr, Bool, true, false, not, ◌&&◌, Option, some, List, [], ◌∷◌, ◌++◌,
  arith, All, All-left, All-right, Bool-cases, false≢true, ◌∈◌, ∈-append, sym, ◌∙◌,
}
use hexchess.Chess.Piece.{Piece, is_king}
use hexchess.Chess.Hex.{
  Direction, Hex, walk, in_bounds_hex, rook_offsets, bishop_offsets, king_offsets, knight_offsets,
}
use hexchess.Chess.Hex.Axial.{Displaced, walk-Displaced}
use hexchess.Chess.Board.{Board}
use hexchess.Chess.Moves.{
  Tables, PieceMoves, ray_fuel, find_moves_by_traveling, find_offset_moves_filtered,
  find_offset_moves, find_rook_moves, find_bishop_moves, find_queen_moves, find_knight_moves,
  find_king_moves_filtered, with_piece,
}
use hexchess.Chess.Moves.Targets.{
  at, free, guarded, exits, mark_all, ray_targets, rays_targets, offset_targets, read_lem, rays_lem,
  offset_moves_lem,
}
use hexchess.Chess.Moves.Rays.{Slides, ray_targets-Slides, king_offsets-exit}

-- `r` returns the moves of the piece on `h`: those that `reach` describes, each marked as attacked.
pub record Lists (b : Board) (h : Hex) (t : Tables) (reach : Hex → Type 0)
    (r : Option (PieceMoves × Tables)) : Type 0 where
  pub out : PieceMoves
  pub after : Tables
  pub returns : r ≡ some (out, after)
  pub piece : out.piece ≡ at b h
  pub from : out.from ≡ h
  pub moves : (m : Hex) → (m ∈ out.moves) ↔ reach m
  pub marks : after ≡ mark_all (at b h) out.moves t

-- Some ray of `dss` slides the piece on `h` to `m`.
abbrev pub SlidesAlong : Board → List (List Direction) → Hex → Hex → Type 0
SlidesAlong b dss h m = (dirs : List Direction) × (dirs ∈ dss) × Slides b (at b h) dirs m h

-- Some vector of `dss` leads from `h` to the hexagon `m` of the board, where the piece may stand.
abbrev pub Leaps : Board → List (List Direction) → Hex → Hex → Type 0
Leaps b dss h m =
    (in_bounds_hex m ≡ true)
    × (free b (at b h) m ≡ true)
    × ((dirs : List Direction) × (dirs ∈ dss) × Displaced dirs h m)

module _ (b : Board) (h : Hex) where
  mem_rays :
      (base : Piece) (dss : List (List Direction)) (m : Hex)
      → All (λ dirs. exits ray_fuel dirs h ≡ true) dss
      → (m ∈ rays_targets b base h dss)
        ↔ ((dirs : List Direction) × (dirs ∈ dss) × Slides b base dirs m h)
  unfolding rays_targets
  mem_rays base [] m e = (λ k. absurd k, λ (d, k, s). absurd k)
  mem_rays base (dirs ∷ dss) m (e, es) =
      let one = ray_targets-Slides b base dirs h m e in
      let others = mem_rays base dss m es in
      let split = ∈-append m (ray_targets b ray_fuel dirs base h) (rays_targets b base h dss) in
      (
        λ k. elim (split.0 k) [
          | inl here ↦ (dirs, inl refl, one.0 here)
          | inr there ↦ let (d, kd, s) = others.0 there in (d, inr kd, s)
        ],
        λ (d, kd, s). elim kd [
          | inl e ↦ split.1 (inl (one.1 (rw e at s)))
          | inr kd' ↦ split.1 (inr (others.1 (d, kd', s)))
        ],
      )

  -- What the finders of sliding pieces have in common.
  sliding :
      (dss : List (List Direction)) (t : Tables)
      → in_bounds_hex h ≡ true
      → All (λ dirs. exits ray_fuel dirs h ≡ true) dss
      → Lists b h t (SlidesAlong b dss h) (with_piece b h (find_moves_by_traveling b h dss) t)
  unfolding find_moves_by_traveling
  sliding dss t ih e = record {
    out = record { piece = at b h; from = h; moves = rays_targets b (at b h) h dss };
    after = mark_all (at b h) (rays_targets b (at b h) h dss) t;
    returns = ground (arith, read_lem b h t ih, rays_lem b dss (at b h) h t e);
    piece = refl;
    from = refl;
    moves = λ m. mem_rays (at b h) dss m e;
    marks = refl;
  }

  parts : (x y z : Bool) → (x && y && not z) ≡ true → (x ≡ true) × (y ≡ true) × (z ≡ false)
  parts x y z e = ground arith

  -- The targets under the test `g`, of offsets that `walk-Displaced` covers.
  mem_offsets :
      (g : Hex → Bool) (base : Piece) (dss : List (List Direction)) (m : Hex)
      → in_bounds_hex h ≡ true
      → ((dirs : List Direction) → dirs ∈ dss → dirs ∈ (king_offsets ++ knight_offsets))
      → (m ∈ offset_targets b g base h dss) ↔ (
          (in_bounds_hex m ≡ true)
          × (free b base m ≡ true)
          × (g m ≡ false)
          × ((dirs : List Direction) × (dirs ∈ dss) × Displaced dirs h m))
  unfolding offset_targets
  mem_offsets g base [] m ih sub = (λ k. absurd k, λ (i, f, a, v). absurd v.1)
  mem_offsets g base (dirs ∷ dss) m ih sub =
      let others = mem_offsets g base dss m ih (λ d k. sub d (inr k)) in
      let reach = walk-Displaced dirs h m (sub dirs (inl refl)) ih in
      let next = walk h dirs in
      elim (Bool-cases (in_bounds_hex next && free b base next && not (g next))) [
        | inl take ↦ (
          λ k.
              let k' : (m ≡ next) ⊎ (m ∈ offset_targets b g base h dss) = rw take at k in
              elim k' [
                | inl e ↦
                    let (i, f, a) = parts (in_bounds_hex next) (free b base next) (g next) take in
                    let im : in_bounds_hex m ≡ true = rw e i in
                    (im, rw e f, rw e a, (dirs, inl refl, (reach im).0 (sym e)))
                | inr r ↦
                    let (i, f, a, v) = others.0 r in let (d, kd, s) = v in (i, f, a, (d, inr kd, s))
              ],
          λ (i, f, a, v).
              let (d, kd, s) = v in
              elim kd [
                | inl e ↦ rw take (inl (sym ((reach i).1 (rw e at s))))
                | inr kd' ↦ rw take (inr (others.1 (i, f, a, (d, kd', s))))
              ],
        )
        | inr skip ↦ (
          λ k.
              let (i, f, a, v) = others.0 (rw skip at k) in
              let (d, kd, s) = v in (i, f, a, (d, inr kd, s)),
          λ (i, f, a, v).
              let (d, kd, s) = v in
              elim kd [
                | inl e ↦
                    let same : walk h dirs ≡ m = (reach i).1 (rw e at s) in
                    absurd (false≢true (sym skip ∙ rw same (rw (i, f, a))))
                | inr kd' ↦ rw skip (others.1 (i, f, a, (d, kd', s)))
              ],
        )
      ]

  -- A king also keeps off the hexagons that the table of the other colour marks.
  abbrev pub KingLeaps : Tables → Hex → Type 0
  KingLeaps t m = Leaps b king_offsets h m × (guarded (at b h) t m ≡ false)

  leaping :
      (dss : List (List Direction)) (t : Tables)
      → in_bounds_hex h ≡ true
      → ((dirs : List Direction) → dirs ∈ dss → dirs ∈ (king_offsets ++ knight_offsets))
      → Lists b h t
          (λ m. Leaps b dss h m × (guarded (at b h) t m ≡ false))
          (with_piece b h (find_offset_moves_filtered b h dss) t)
  unfolding find_offset_moves_filtered
  leaping dss t ih sub =
      let g = guarded (at b h) t in
      record {
        out = record { piece = at b h; from = h; moves = offset_targets b g (at b h) h dss };
        after = mark_all (at b h) (offset_targets b g (at b h) h dss) t;
        returns = ground (arith, read_lem b h t ih, offset_moves_lem b dss (at b h) h t g refl);
        piece = refl;
        from = refl;
        moves = λ m.
            let e = mem_offsets g (at b h) dss m ih sub in
            (λ k. let (i, f, a, v) = e.0 k in ((i, f, v), a), λ ((i, f, v), a). e.1 (i, f, a, v));
        marks = refl;
      }

  -- From a hexagon of the board the finders of rook, bishop and queen return, and list exactly the
  -- hexagons to which the piece slides, each marked in the attack table.
  pub sliders-Lists :
      (t : Tables)
      → in_bounds_hex h ≡ true
      → Lists b h t (SlidesAlong b rook_offsets h) (find_rook_moves b h t)
        × Lists b h t (SlidesAlong b bishop_offsets h) (find_bishop_moves b h t)
        × Lists b h t (SlidesAlong b king_offsets h) (find_queen_moves b h t)
  unfolding find_rook_moves find_bishop_moves find_queen_moves
  sliders-Lists t ih =
      let e = king_offsets-exit h ih in
      let ends = λ (dirs : List Direction). exits ray_fuel dirs h ≡ true in
      (
        sliding rook_offsets t ih (All-left ends rook_offsets bishop_offsets e),
        sliding bishop_offsets t ih (All-right ends rook_offsets bishop_offsets e),
        sliding king_offsets t ih e,
      )

  -- From a hexagon of the board the finder of king moves returns, and lists exactly the hexagons
  -- of the board at a king's vector that are empty or hold the other colour, less those that the
  -- attack table of the other colour marks.
  pub find_king_moves-Lists :
      (t : Tables)
      → in_bounds_hex h ≡ true
      → Lists b h t (KingLeaps t) (find_king_moves_filtered b h t)
  unfolding find_king_moves_filtered
  find_king_moves-Lists t ih =
      leaping king_offsets t ih (λ d k. (∈-append d king_offsets knight_offsets).1 (inl k))

  -- From a hexagon of the board that holds no king the finder of knight moves returns, and lists
  -- exactly the hexagons of the board at a knight's vector that are empty or hold the other colour.
  pub find_knight_moves-Lists :
      (t : Tables)
      → in_bounds_hex h ≡ true
      → is_king (at b h) ≡ false
      → Lists b h t (Leaps b knight_offsets h) (find_knight_moves b h t)
  unfolding find_knight_moves find_offset_moves is_king guarded
  find_knight_moves-Lists t ih nk =
      let l =
        leaping knight_offsets t ih (λ d k. (∈-append d king_offsets knight_offsets).1 (inr k)) in
      record {
        out = l.out;
        after = l.after;
        returns = l.returns;
        piece = l.piece;
        from = l.from;
        moves = λ m. (λ k. ((l.moves m).0 k).0, λ v. (l.moves m).1 (v, ground arith));
        marks = l.marks;
      }

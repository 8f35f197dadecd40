-- ===== src/Chess/Moves/Rays.antt =====
-- Rays end, and the targets along a ray are those that a sliding piece can reach.
use hexchess.Prelude.{
  ℕ, zero, suc, ◌≡◌, refl, ap, ◌↔◌, ◌⊎◌, inl, inr, Bool, true, ◌&&◌, List, [], ◌∷◌, arith, ◌==◌,
  if◌then◌else◌, Bool-cases, and-left, and-right, All, ◌∈◌, false≢true, ==_iff,
}
use hexchess.Chess.Piece.{Piece, empty, opposite_color}
use hexchess.Chess.Hex.{Direction, Hex, walk, in_bounds_hex, king_offsets}
use hexchess.Chess.Hex.Range.{all_hexes, all_hexes_sound, in_bounds-Inside}
use hexchess.Chess.Board.{Board}
use hexchess.Chess.Moves.{ray_fuel}
use hexchess.Chess.Moves.Targets.{at, exits, ray_targets}

abbrev exits_inside : List Direction → Hex → Bool
exits_inside dirs h = if in_bounds_hex h then exits ray_fuel dirs h else true

abbrev all_exit : List (List Direction) → Bool
all_exit [] = true
all_exit (dirs ∷ rest) = all_hexes (exits_inside dirs) && all_exit rest

offsets_exit : all_exit king_offsets ≡ true
unfolding all_hexes in_bounds_hex walk exits
offsets_exit = refl

exits_of_all_exit :
    (dss : List (List Direction)) (h : Hex)
    → all_exit dss ≡ true
    → in_bounds_hex h ≡ true
    → All (λ dirs. exits ray_fuel dirs h ≡ true) dss
exits_of_all_exit [] h e ih = tt
exits_of_all_exit (dirs ∷ rest) h e ih =
    let i = in_bounds-Inside h ih in
    (
      rw ih at (all_hexes_sound (exits_inside dirs) h (and-left _ _ e) i.file_lt i.rank_lt_max),
      exits_of_all_exit rest h (and-right _ _ e) ih,
    )

-- From a hexagon of the board every ray of a queen, and so of a rook or a bishop, leaves the board
-- within the fuel.
pub king_offsets-exit :
    (h : Hex) → in_bounds_hex h ≡ true → All (λ dirs. exits ray_fuel dirs h ≡ true) king_offsets
king_offsets-exit h ih = exits_of_all_exit king_offsets h offsets_exit ih

module _ (b : Board) (base : Piece) (dirs : List Direction) where
  -- `Slides m h`: a piece of the colour of `base` slides from `h` to `m` along `dirs`, over empty
  -- hexagons, onto an empty one or one of the other colour.
  pub data Slides (m : Hex) : Hex → Type 0 where
    stop :
        (h : Hex)
        → m ≡ walk h dirs
        → in_bounds_hex m ≡ true
        → (at b m ≡ empty) ⊎ (opposite_color (at b m) base ≡ true)
        → Slides m h
    go_on :
        (h n : Hex)
        → n ≡ walk h dirs
        → in_bounds_hex n ≡ true
        → at b n ≡ empty
        → Slides m n
        → Slides m h

  Slides-of_mem : (fuel : ℕ) (h m : Hex) → m ∈ ray_targets b fuel dirs base h → Slides m h
  unfolding ray_targets
  Slides-of_mem zero h m k = absurd k
  Slides-of_mem (suc fuel) h m k =
      let next = walk h dirs in
      elim (Bool-cases (in_bounds_hex next)) [
        | inr off ↦ absurd (rw off at k)
        | inl on ↦ elim (Bool-cases (at b next == empty)) [
          | inl clear ↦
              let k' : (m ≡ next) ⊎ (m ∈ ray_targets b fuel dirs base next) = rw (on, clear) at k in
              elim k' [
                | inl e ↦ stop h e (rw e on) (inl (rw e ((==_iff _ _).0 clear)))
                | inr r ↦ go_on h next refl on ((==_iff _ _).0 clear) (Slides-of_mem fuel next m r)
              ]
          | inr held ↦ elim (Bool-cases (opposite_color (at b next) base)) [
            | inl foe ↦
                let k' : m ∈ (next ∷ []) = rw (on, held, foe) at k in
                elim k' [
                  | inl e ↦ stop h e (rw e on) (inr (rw e foe))
                  | inr nowhere ↦ absurd nowhere
                ]
            | inr own ↦ absurd (rw (on, held, own) at k)
          ]
        ]
      ]

  mem_of_Slides :
      (fuel : ℕ) (h m : Hex)
      → exits fuel dirs h ≡ true
      → Slides m h
      → m ∈ ray_targets b fuel dirs base h
  unfolding ray_targets exits
  mem_of_Slides zero h m e s = absurd (false≢true e)
  mem_of_Slides (suc fuel) h m e (stop _ w on land) =
      ground (arith, ap in_bounds_hex w, ap (at b) w)
  mem_of_Slides (suc fuel) h m e (go_on _ n w on clear s) =
      let on' : in_bounds_hex (walk h dirs) ≡ true = rw (← w) on in
      let clear' : (at b (walk h dirs) == empty) ≡ true = rw (← w) ((==_iff _ _).1 clear) in
      rw (on', clear') (inr (mem_of_Slides fuel (walk h dirs) m (rw on' at e) (rw w at s)))

  pub ray_targets-Slides :
      (h m : Hex)
      → exits ray_fuel dirs h ≡ true
      → (m ∈ ray_targets b ray_fuel dirs base h) ↔ Slides m h
  ray_targets-Slides h m e = (Slides-of_mem ray_fuel h m, mem_of_Slides ray_fuel h m e)

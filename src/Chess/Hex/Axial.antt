-- ===== src/Chess/Hex/Axial.antt =====
-- `Walk` in axial coordinates, where each direction adds a fixed vector.
use hexchess.Prelude.{
  ℕ, ◌+◌, ◌-◌, ◌≡◌, refl, ◌↔◌, Bool, true, ◌&&◌, not, List, [], ◌∷◌, ◌++◌, arith, leb,
  if◌then◌else◌, length, ◌∈◌, and-left, and-right, inl, inr, sym, ◌∙◌, Bool-cases, false≢true,
}
use hexchess.Chess.Hex.{
  Direction, up, down, up_left, up_right, down_left, down_right, Hex, hex_at, walk, same_hex,
  in_bounds_hex, king_offsets, knight_offsets,
}
use hexchess.Chess.Hex.Range.{all_hexes, all_hexes_sound, in_bounds-Inside}

-- The second axial coordinate; the first is the file.
abbrev pub slant : Hex → ℕ
slant h = h.rank + (h.file - 5)

-- The vector of a direction, each component plus one.
abbrev pub file_shift : Direction → ℕ
file_shift up = 1
file_shift down = 1
file_shift down_left = 0
file_shift up_left = 0
file_shift down_right = 2
file_shift up_right = 2

abbrev pub slant_shift : Direction → ℕ
slant_shift up = 2
slant_shift down = 0
slant_shift down_left = 0
slant_shift up_left = 1
slant_shift down_right = 1
slant_shift up_right = 2

abbrev pub total : (Direction → ℕ) → List Direction → ℕ
total f [] = 0
total f (d ∷ ds) = f d + total f ds

-- `t` lies at the vector of `ds` from `h`.
pub record Displaced (ds : List Direction) (h t : Hex) : Type 0 where
  pub by_file : t.file + length ds ≡ h.file + total file_shift ds
  pub by_slant : slant t + length ds ≡ slant h + total slant_shift ds

-- The hexagon at the vector of `ds` from `h`, and whether it is on the board.
abbrev target : List Direction → Hex → Hex
target ds h =
    let f = h.file + total file_shift ds - length ds in
    hex_at f (slant h + total slant_shift ds - (length ds + (f - 5)))

abbrev lands : List Direction → Hex → Bool
lands ds h =
    leb (length ds) (h.file + total file_shift ds)
    && leb (length ds + ((target ds h).file - 5)) (slant h + total slant_shift ds)
    && in_bounds_hex (target ds h)

abbrev walks_to_target : List Direction → Hex → Bool
walks_to_target ds h =
    if in_bounds_hex h
    then (if lands ds h
        then same_hex (walk h ds) (target ds h)
        else not (in_bounds_hex (walk h ds)))
    else true

abbrev all_walk : List (List Direction) → Bool
all_walk [] = true
all_walk (ds ∷ rest) = all_hexes (walks_to_target ds) && all_walk rest

offsets_walk : all_walk (king_offsets ++ knight_offsets) ≡ true
unfolding all_hexes in_bounds_hex same_hex walk
offsets_walk = refl

all_walk-∈ :
    (dss : List (List Direction)) (ds : List Direction)
    → all_walk dss ≡ true
    → ds ∈ dss
    → all_hexes (walks_to_target ds) ≡ true
all_walk-∈ [] ds h m = absurd m
all_walk-∈ (d ∷ dss) ds h (inl e) = rw e (and-left _ _ h)
all_walk-∈ (d ∷ dss) ds h (inr m) = all_walk-∈ dss ds (and-right _ _ h) m

same_hex_sound : (a b : Hex) → same_hex a b ≡ true → a ≡ b
unfolding same_hex
same_hex_sound a b h = ground arith

target_of_Displaced : (ds : List Direction) (h t : Hex) → Displaced ds h t → target ds h ≡ t
target_of_Displaced ds h t d = ground arith

lands_of_Displaced :
    (ds : List Direction) (h t : Hex)
    → in_bounds_hex t ≡ true
    → Displaced ds h t
    → lands ds h ≡ true
lands_of_Displaced ds h t it d =
    let e : in_bounds_hex (target ds h) ≡ true = rw (target_of_Displaced ds h t d) it in
    ground arith

Displaced-of_lands :
    (ds : List Direction) (h : Hex) → lands ds h ≡ true → Displaced ds h (target ds h)
Displaced-of_lands ds h l = ground arith

-- Both halves at one hexagon, from the check.
reaches_at :
    (ds : List Direction) (h t : Hex)
    → walks_to_target ds h ≡ true
    → in_bounds_hex h ≡ true
    → in_bounds_hex t ≡ true
    → (walk h ds ≡ t) ↔ Displaced ds h t
reaches_at ds h t w ih it = elim (Bool-cases (lands ds h)) [
  | inl l ↦
      let same : walk h ds ≡ target ds h = same_hex_sound _ _ (rw (ih, l) at w) in
      (λ e. rw (← e, same) (Displaced-of_lands ds h l), λ d. same ∙ target_of_Displaced ds h t d)
  | inr off ↦ (
    λ e. absurd (false≢true (rw (ih, off, e, it) at w)),
    λ d. absurd (false≢true (sym off ∙ lands_of_Displaced ds h t it d)),
  )
]

-- A walk along an offset of a king, queen, rook, bishop or knight from a hexagon of the board
-- reaches a hexagon of the board exactly if that lies at the offset's vector.
pub walk-Displaced :
    (ds : List Direction) (h t : Hex)
    → ds ∈ (king_offsets ++ knight_offsets)
    → in_bounds_hex h ≡ true
    → in_bounds_hex t ≡ true
    → (walk h ds ≡ t) ↔ Displaced ds h t
walk-Displaced ds h t m ih it =
    let i = in_bounds-Inside h ih in
    reaches_at ds h t
      (all_hexes_sound (walks_to_target ds) h
        (all_walk-∈ (king_offsets ++ knight_offsets) ds offsets_walk m) i.file_lt i.rank_lt_max)
      ih it

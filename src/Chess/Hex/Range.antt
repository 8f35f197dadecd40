-- ===== src/Chess/Hex/Range.antt =====
-- Checks over all hexagons of the 11 by 11 array by evaluation, and facts about the board's bounds.
use hexchess.Prelude.{◌<◌, ◌≡◌, Bool, true, arith, each_from, passes_of_each}
use hexchess.Chess.Hex.{Hex, hex_at, in_bounds_hex, ranks_per_file}

unfoldable pub all_hexes : (Hex → Bool) → Bool
unfolding each_from
all_hexes p = each_from 0 11 (λ f. each_from 0 11 (λ r. p (hex_at f r)))

pub all_hexes_sound :
    (p : Hex → Bool) (h : Hex) → all_hexes p ≡ true → h.file < 11 → h.rank < 11 → p h ≡ true
unfolding all_hexes
all_hexes_sound p h e hf hr =
    passes_of_each (λ r. p (hex_at h.file r)) 11 0 h.rank (omega arith) (omega arith)
      (passes_of_each (λ f. each_from 0 11 (λ r. p (hex_at f r))) 11 0 h.file (omega arith)
        (omega arith) e)

-- A hexagon of the board, by its numbers.
pub record Inside (h : Hex) : Type 0 where
  pub file_lt : h.file < 11
  pub rank_lt : h.rank < ranks_per_file h.file
  pub rank_lt_max : h.rank < 11

pub in_bounds-Inside : (h : Hex) → in_bounds_hex h ≡ true → Inside h
unfolding in_bounds_hex
in_bounds-Inside h e = ground arith

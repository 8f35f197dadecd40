-- ===== src/Chess/Moves/Pawns.antt =====
-- The finder of pawn moves.
use hexchess.Prelude.{
  ◌≡◌, refl, ◌↔◌, ◌⊎◌, inl, inr, Bool, true, false, not, ◌&&◌, some, List, [], ◌∷◌, ◌++◌, arith,
  ◌==◌, if◌then◌else◌, ◌∈◌, ∈-append, ◌≢◌,
}
use hexchess.Chess.Piece.{Piece, empty, white_pawn, black_pawn, opposite_color, is_white}
use hexchess.Chess.Hex.{
  up, down, up_left, up_right, down_left, down_right, Hex, walk, in_bounds_hex, has_pawn_moved,
}
use hexchess.Chess.Hex.Range.{in_bounds-Inside}
use hexchess.Chess.Board.{Board}
use hexchess.Chess.Moves.{Tables, PieceMoves, pick, pawn_ahead, pawn_take, find_pawn_moves}
use hexchess.Chess.Moves.Targets.{at, mark_all, mark_all-append, read_lem, set_attack_table_lem}

module _ (b : Board) where
  abbrev pub ahead_targets : Bool → Hex → List Hex
  ahead_targets allowed m = if in_bounds_hex m && allowed && at b m == empty then m ∷ [] else []

  abbrev pub take_targets : Piece → Hex → List Hex
  take_targets base m =
      if in_bounds_hex m && not (at b m == empty) && opposite_color base (at b m)
      then m ∷ []
      else []

  pawn_ahead_lem :
      (allowed : Bool) (m : Hex) (t : Tables)
      → pawn_ahead b allowed m t ≡ some (ahead_targets allowed m, t)
  unfolding pawn_ahead
  pawn_ahead_lem allowed m t = ground (arith, read_lem b m t)

  pawn_take_lem :
      (base : Piece) (m : Hex) (t : Tables)
      → pawn_take b base m t ≡ some (take_targets base m, mark_all base (take_targets base m) t)
  unfolding pawn_take
  pawn_take_lem base m t = ground (arith, read_lem b m t, set_attack_table_lem b base m t)

  -- The hexagons one and two ahead, and the two that a pawn takes on.
  abbrev pub one_ahead : Bool → Hex → Hex
  one_ahead turn h = walk h (pick turn (up ∷ []) (down ∷ []))

  abbrev pub two_ahead : Bool → Hex → Hex
  two_ahead turn h = walk (one_ahead turn h) (pick turn (up ∷ []) (down ∷ []))

  abbrev pub take_left : Bool → Hex → Hex
  take_left turn h = walk h (pick turn (up_left ∷ []) (down_left ∷ []))

  abbrev pub take_right : Bool → Hex → Hex
  take_right turn h = walk h (pick turn (up_right ∷ []) (down_right ∷ []))

  abbrev pub takes_of : Bool → Piece → Hex → List Hex
  takes_of turn base h =
      take_targets base (take_left turn h) ++ take_targets base (take_right turn h)

  unfoldable pub pawn_targets : Bool → Piece → Hex → List Hex
  pawn_targets turn base h =
      ahead_targets true (one_ahead turn h)
      ++ ahead_targets (not (has_pawn_moved h (is_white base))) (two_ahead turn h)
      ++ take_targets base (take_left turn h)
      ++ take_targets base (take_right turn h)

  -- From a hexagon of the board the finder returns the targets, and marks those that are taken.
  pub find_pawn_moves_lem :
      (turn : Bool) (h : Hex) (t : Tables)
      → in_bounds_hex h ≡ true
      → find_pawn_moves b h turn t
        ≡ some (
          record { piece = at b h; from = h; moves = pawn_targets turn (at b h) h },
          mark_all (at b h) (takes_of turn (at b h) h) t,
        )
  unfolding find_pawn_moves pawn_targets
  find_pawn_moves_lem turn h t ih =
      let base = at b h in
      let left = take_targets base (take_left turn h) in
      let right = take_targets base (take_right turn h) in
      let t1 = mark_all base left t in
      ground (
        arith,
        read_lem b h t ih,
        pawn_ahead_lem true (one_ahead turn h) t,
        pawn_ahead_lem (not (has_pawn_moved h (is_white base))) (two_ahead turn h) t,
        pawn_take_lem base (take_left turn h) t,
        pawn_take_lem base (take_right turn h) t1,
        read_lem b h (mark_all base right t1) ih,
        mark_all-append base left right t,
      )

  abbrev pub StepsTo : Bool → Hex → Hex → Type 0
  StepsTo allowed x m = (m ≡ x) × (in_bounds_hex x ≡ true) × (allowed ≡ true) × (at b x ≡ empty)

  abbrev pub TakesOn : Piece → Hex → Hex → Type 0
  TakesOn base x m =
      (m ≡ x) × (in_bounds_hex x ≡ true) × (at b x ≢ empty) × (opposite_color base (at b x) ≡ true)

  -- What a pawn may do: step one ahead or, unmoved, two, onto an empty hexagon, or take.
  abbrev pub PawnReach : Bool → Piece → Hex → Hex → Type 0
  PawnReach turn base h m =
      StepsTo true (one_ahead turn h) m
      ⊎ (StepsTo (not (has_pawn_moved h (is_white base))) (two_ahead turn h) m
          ⊎ (TakesOn base (take_left turn h) m ⊎ TakesOn base (take_right turn h) m))

  mem_ahead : (allowed : Bool) (x m : Hex) → (m ∈ ahead_targets allowed x) ↔ StepsTo allowed x m
  mem_ahead allowed x m = (ground arith, ground arith)

  mem_take : (base : Piece) (x m : Hex) → (m ∈ take_targets base x) ↔ TakesOn base x m
  mem_take base x m = (ground arith, ground arith)

  mem_pawn :
      (turn : Bool) (base : Piece) (h m : Hex)
      → (m ∈ pawn_targets turn base h) ↔ PawnReach turn base h m
  unfolding pawn_targets
  mem_pawn turn base h m =
      let one = ahead_targets true (one_ahead turn h) in
      let two = ahead_targets (not (has_pawn_moved h (is_white base))) (two_ahead turn h) in
      let left = take_targets base (take_left turn h) in
      let right = take_targets base (take_right turn h) in
      let m1 = mem_ahead true (one_ahead turn h) m in
      let m2 = mem_ahead (not (has_pawn_moved h (is_white base))) (two_ahead turn h) m in
      let m3 = mem_take base (take_left turn h) m in
      let m4 = mem_take base (take_right turn h) m in
      let s3 = ∈-append m (one ++ two ++ left) right in
      let s2 = ∈-append m (one ++ two) left in
      let s1 = ∈-append m one two in
      (
        λ k. elim (s3.0 k) [
          | inr r ↦ inr (inr (inr (m4.0 r)))
          | inl k3 ↦ elim (s2.0 k3) [
            | inr r ↦ inr (inr (inl (m3.0 r)))
            | inl k2 ↦ elim (s1.0 k2) [ inl r ↦ inl (m1.0 r) | inr r ↦ inr (inl (m2.0 r)) ]
          ]
        ],
        elim [
          | inl a ↦ s3.1 (inl (s2.1 (inl (s1.1 (inl (m1.1 a))))))
          | inr (inl a) ↦ s3.1 (inl (s2.1 (inl (s1.1 (inr (m2.1 a))))))
          | inr (inr (inl a)) ↦ s3.1 (inl (s2.1 (inr (m3.1 a))))
          | inr (inr (inr a)) ↦ s3.1 (inr (m4.1 a))
        ],
      )

  -- From a hexagon of the board the finder of pawn moves returns, and lists exactly the hexagons
  -- that the pawn steps to or takes on; only those taken on are marked as attacked.
  pub find_pawn_moves-PawnReach :
      (turn : Bool) (h : Hex) (t : Tables)
      → in_bounds_hex h ≡ true
      → (out : PieceMoves) × (after : Tables) × (find_pawn_moves b h turn t ≡ some (out, after))
        × (out.piece ≡ at b h)
        × (out.from ≡ h)
        × ((m : Hex) → (m ∈ out.moves) ↔ PawnReach turn (at b h) h m)
        × (after ≡ mark_all (at b h) (takes_of turn (at b h) h) t)
  find_pawn_moves-PawnReach turn h t ih = (
    record { piece = at b h; from = h; moves = pawn_targets turn (at b h) h },
    mark_all (at b h) (takes_of turn (at b h) h) t,
    find_pawn_moves_lem turn h t ih,
    refl,
    refl,
    mem_pawn turn (at b h) h,
    refl,
  )

  -- A white pawn that has not moved steps two ahead whenever that hexagon is on the board and
  -- empty, also over a piece on the hexagon between, where it cannot step.
  pub unmoved_pawn_jumps :
      (h : Hex) (t : Tables)
      → in_bounds_hex h ≡ true
      → at b h ≡ white_pawn
      → has_pawn_moved h true ≡ false
      → in_bounds_hex (two_ahead true h) ≡ true
      → at b (two_ahead true h) ≡ empty
      → at b (one_ahead true h) ≢ empty
      → (out : PieceMoves) × (after : Tables) × (find_pawn_moves b h true t ≡ some (out, after))
        × (two_ahead true h ∈ out.moves)
        × ¬ (one_ahead true h ∈ out.moves)
  unfolding walk is_white
  unmoved_pawn_jumps h t ih p fresh i2 clear blocked =
      let i = in_bounds-Inside h ih in
      let e = mem_pawn true (at b h) h in
      (
        record { piece = at b h; from = h; moves = pawn_targets true (at b h) h },
        mark_all (at b h) (takes_of true (at b h) h) t,
        find_pawn_moves_lem true h t ih,
        (e (two_ahead true h)).1 (inr (inl (refl, i2, ground arith, clear))),
        λ k. ground (arith, (e (one_ahead true h)).0 k),
      )

  -- A black pawn on rank 7, where every black pawn starts, is not offered the step of two.
  pub black_pawn_steps_once :
      (h : Hex) (t : Tables)
      → in_bounds_hex h ≡ true
      → at b h ≡ black_pawn
      → h.rank ≡ 6
      → (out : PieceMoves) × (after : Tables) × (find_pawn_moves b h false t ≡ some (out, after))
        × ¬ (two_ahead false h ∈ out.moves)
  unfolding walk is_white has_pawn_moved
  black_pawn_steps_once h t ih p r =
      let i = in_bounds-Inside h ih in
      (
        record { piece = at b h; from = h; moves = pawn_targets false (at b h) h },
        mark_all (at b h) (takes_of false (at b h) h) t,
        find_pawn_moves_lem false h t ih,
        λ k. ground (arith, (mem_pawn false (at b h) h (two_ahead false h)).0 k),
      )

-- ===== src/Chess/Game/Play/Validity.antt =====
-- `ValidateMove` accepts exactly the legal moves, and `NewValidMove` plays them.
use hexchess.Prelude.{
  ◌≡◌, ◌≢◌, ◌↔◌, refl, sym, ◌∙◌, ap, subst, Bool, true, false, not, ◌&&◌, ◌||◌, Option, none, some,
  List, [], ◌∷◌, arith, ◌==◌, ◌∈◌, if◌then◌else◌, Bool-cases, find, inl, inr, false≢true,
}
use hexchess.Chess.Hex.{Hex, same_hex, in_bounds_hex}
use hexchess.Chess.Notation.{Move}
use hexchess.Chess.Moves.{PieceMoves}
use hexchess.Chess.Game.{Game, elements, get_curr_moves}
use hexchess.Chess.Game.Play.{
  contains_hex, MoveError, MoveErrorKind, noop, out_of_bounds, invalid_promotion, valid_promotion,
  verdict, refusal, validate_move,
}
use hexchess.Chess.Game.Play.Making.{promotes, is_promotion_lem}

same_hex_iff : (a b : Hex) → (same_hex a b ≡ true) ↔ (a ≡ b)
unfolding same_hex
same_hex_iff a b = (ground arith, ground arith)

contains_hex_iff : (ms : List Hex) (h : Hex) → (contains_hex ms h ≡ true) ↔ (h ∈ ms)
unfolding contains_hex
contains_hex_iff [] h = (λ e. cc, λ k. absurd k)
contains_hex_iff (m ∷ ms) h =
    let rest = contains_hex_iff ms h in
    let here = same_hex_iff m h in
    (
      λ e. elim (Bool-cases (same_hex m h)) [
        | inl s ↦ inl (sym (here.0 s))
        | inr n ↦ inr (rest.0 (rw n at e))
      ],
      λ k. elim k [ inl e ↦ rw (here.1 (sym e)) | inr r ↦ ground (arith, rest.1 r) ],
    )

-- The entry of the list of the side to move that starts at the hexagon.
abbrev pub entry_of : Game → Hex → Option PieceMoves
entry_of g h = find (λ pms. same_hex pms.from h) (elements (get_curr_moves g))

-- The move is from one hexagon of the board to another, names a piece if it promotes, and its target
-- is in the entry that starts at its source.
pub record Legal (g : Game) (mv : Move) : Type 0 where
  pub apart : mv.from ≢ mv.to
  pub from_inside : in_bounds_hex mv.from ≡ true
  pub to_inside : in_bounds_hex mv.to ≡ true
  pub promotion : promotes g mv ≡ true → valid_promotion mv.promotion ≡ true
  pub entry : PieceMoves
  pub found : entry_of g mv.from ≡ some entry
  pub listed : mv.to ∈ entry.moves

verdict_iff :
    (o : Option PieceMoves) (to : Hex)
    → (verdict o to ≡ none) ↔ ((e : PieceMoves) × (o ≡ some e) × (to ∈ e.moves))
verdict_iff none to = (λ e. cc, λ x. cc (x.1))
verdict_iff (some pms) to =
    let c = contains_hex_iff pms.moves to in
    (
      λ e. (pms, refl, c.0 (ground arith)),
      λ x. rw (c.1 (subst (λ (o : Option PieceMoves). In o) (sym x.1) x.2)),
    )
  where
    In : Option PieceMoves → Type 0
    In none = ⊥
    In (some e) = to ∈ e.moves

-- The tests of a refusal in their order.
abbrev ladder : Bool → Bool → Bool → Option MoveErrorKind → Option MoveErrorKind
ladder r o p v =
    if r
    then some noop
    else if o
    then some out_of_bounds
    else if p
    then some invalid_promotion
    else v

ladder_iff :
    (r o p : Bool) (v : Option MoveErrorKind)
    → (ladder r o p v ≡ none) ↔ ((r ≡ false) × (o ≡ false) × (p ≡ false) × (v ≡ none))
ladder_iff r o p v = (ground arith, ground arith)

inside_both : (a b : Bool) → (not a || not b) ≡ false → (a ≡ true) × (b ≡ true)
inside_both a b e = ground arith

named : (a b : Bool) → (a && not b) ≡ false → a ≡ true → b ≡ true
named a b e p = ground arith

not_bad : (a b : Bool) → (a ≡ true → b ≡ true) → (a && not b) ≡ false
not_bad true b h = rw (h refl)
not_bad false b h = refl

abbrev as_error : Move → Option MoveErrorKind → Option MoveError
as_error mv none = none
as_error mv (some k) = some (record { kind = k; move = mv })

none_kind : (mv : Move) (k : Option MoveErrorKind) → as_error mv k ≡ none → k ≡ none
none_kind mv none e = refl
none_kind mv (some k) e = cc

error_move :
    (mv : Move) (k : Option MoveErrorKind) (e : MoveError) → as_error mv k ≡ some e → e.move ≡ mv
error_move mv none e h = cc
error_move mv (some k) e h = ground arith

module _ (g : Game) (mv : Move) where
  abbrev at_rest : Bool
  at_rest = mv.from.file == mv.to.file && mv.from.rank == mv.to.rank

  abbrev outside : Bool
  outside = not (in_bounds_hex mv.from) || not (in_bounds_hex mv.to)

  abbrev bad_promotion : Bool
  bad_promotion = promotes g mv && not (valid_promotion mv.promotion)

  -- The refusal with its tests laid out.
  refusal_lem :
      refusal g mv
      ≡ some (ladder at_rest outside bad_promotion (verdict (entry_of g mv.from) mv.to))
  unfolding refusal
  refusal_lem = elim (Bool-cases at_rest) [
    | inl r ↦ rw r
    | inr m ↦ elim (Bool-cases outside) [
      | inl o ↦ rw (m, o)
      | inr i ↦ rw (m, i) (rw (is_promotion_lem g mv (ground arith)))
    ]
  ]

  at_rest_iff : (at_rest ≡ false) ↔ (mv.from ≢ mv.to)
  at_rest_iff = (
    λ e s. absurd (false≢true (sym e ∙ rw (ap Hex.file s, ap Hex.rank s) (ground arith))),
    λ ne. elim (Bool-cases at_rest) [ inl r ↦ absurd (ne (ground arith)) | inr m ↦ m ],
  )

  refusal-Legal :
      (ladder at_rest outside bad_promotion (verdict (entry_of g mv.from) mv.to) ≡ none)
      ↔ Legal g mv
  refusal-Legal =
      let v = verdict_iff (entry_of g mv.from) mv.to in
      let l = ladder_iff at_rest outside bad_promotion (verdict (entry_of g mv.from) mv.to) in
      (
        λ e.
            let (r, o, p, f) = l.0 e in
            let (entry, found, k) = v.0 f in
            let (i1, i2) = inside_both (in_bounds_hex mv.from) (in_bounds_hex mv.to) o in
            record {
              apart = at_rest_iff.0 r;
              from_inside = i1;
              to_inside = i2;
              promotion = λ q. named (promotes g mv) (valid_promotion mv.promotion) p q;
              entry = entry;
              found = found;
              listed = k;
            },
        λ x. l.1 (
          at_rest_iff.1 x.apart,
          rw (x.from_inside, x.to_inside),
          not_bad (promotes g mv) (valid_promotion mv.promotion) x.promotion,
          v.1 (x.entry, x.found, x.listed),
        ),
      )

-- `ValidateMove` does not panic, and it accepts exactly the legal moves. A refusal is about the move
-- that was asked for.
pub validate_move-Legal :
    (g : Game) (mv : Move)
    → (r : Option MoveError) × (validate_move g mv ≡ some r)
      × ((r ≡ none) ↔ Legal g mv)
      × ((e : MoveError) → r ≡ some e → e.move ≡ mv)
unfolding validate_move
validate_move-Legal g mv =
    let k =
      ladder (at_rest g mv) (outside g mv) (bad_promotion g mv)
        (verdict (entry_of g mv.from) mv.to) in
    let e = refusal-Legal g mv in
    (
      as_error mv k,
      rw (refusal_lem g mv),
      (λ n. e.0 (none_kind mv k n), λ l. rw (e.1 l)),
      error_move mv k,
    )

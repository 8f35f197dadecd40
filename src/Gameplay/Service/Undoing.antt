-- ===== src/Gameplay/Service/Undoing.antt =====
-- `AttemptGameUndo`.
use hexchess.Prelude.{◌≡◌, true, false, some, [], arith, Bool-cases, inl, inr}
use hexchess.Prelude.Int.{ℤ, pos}
use hexchess.Gameplay.State.{
  PlayerState, ChessState, has_both_players, same_id, is_same, curr_player, UndoResult, undone,
  no_move_undo, jump_failed, undo,
}
use hexchess.Gameplay.Service.{
  undo_noop, undo_curr_player, no_undo, no_moves, Updated, updated, failed, UndoKind, undo_create,
  undo_accept, undo_reject, accepted, without_undo, attempt_game_undo,
}
use hexchess.Gameplay.Service.Sane.{Sane}
use hexchess.Gameplay.Service.TakenBack.{TakenBack, undo-TakenBack}
use hexchess.Gameplay.Service.Seats.{SaneAnswer}

-- What a request about an undo does.
pub data Attempted (p : PlayerState) (s : ChessState) : UndoKind → Updated → Type 0 where
  own_turn : is_same p (curr_player s) ≡ true → Attempted p s undo_create (failed undo_curr_player)
  asked :
      is_same p (curr_player s) ≡ false
      → Attempted p s undo_create (updated (record s { undo_id = p.id }))
  none_to_accept : same_id s.undo_id (pos 0) ≡ true → Attempted p s undo_accept (failed no_undo)
  own_undo :
      same_id s.undo_id (pos 0) ≡ false
      → same_id s.undo_id p.id ≡ true
      → Attempted p s undo_accept (failed undo_noop)
  nothing_to_undo :
      same_id s.undo_id (pos 0) ≡ false
      → same_id s.undo_id p.id ≡ false
      → s.game.moves ≡ []
      → Attempted p s undo_accept (failed no_moves)
  taken_back :
      (s' : ChessState)
      → same_id s.undo_id (pos 0) ≡ false
      → same_id s.undo_id p.id ≡ false
      → undo s ≡ some (undone s')
      → TakenBack s (undone s')
      → Attempted p s undo_accept (updated (record s' { undo_id = pos 0 }))
  none_to_reject : same_id s.undo_id (pos 0) ≡ true → Attempted p s undo_reject (failed no_undo)
  dropped :
      same_id s.undo_id (pos 0) ≡ false
      → Attempted p s undo_reject (updated (record s { undo_id = pos 0 }))

accepted-Attempted :
    (p : PlayerState) (s : ChessState) (r : UndoResult)
    → same_id s.undo_id (pos 0) ≡ false
    → same_id s.undo_id p.id ≡ false
    → undo s ≡ some r
    → TakenBack s r
    → Attempted p s undo_accept (accepted r)
accepted-Attempted p s (undone s') z o e t = taken_back s' z o e t
accepted-Attempted p s no_move_undo z o e t = nothing_to_undo z o t
accepted-Attempted p s (jump_failed x) z o e t = absurd t

-- On a Sane state, that is, one whose history, with its promotions, gives back its position when it is
-- redone from the initial board, whose move lists are sound where it has both, and whose two players
-- differ, AttemptGameUndo returns without a panic for every player. A state that was read from redis
-- after a promotion to another piece than a queen need not be Sane. Anyone but the player to move may ask for an undo, and anyone but the one who
-- asked may accept it; then the last move is taken back. It is an error to ask in one's own turn, to
-- accept or reject where nobody asked, to accept one's own undo, and to accept before the first move.
pub attempt_game_undo-Attempted :
    (kind : UndoKind) (p : PlayerState) (s : ChessState)
    → Sane s
    → (u : Updated) × (attempt_game_undo kind p s ≡ some u) × Attempted p s kind u
unfolding attempt_game_undo
attempt_game_undo-Attempted undo_create p s sane = elim (Bool-cases (is_same p (curr_player s))) [
  | inl e ↦ (failed undo_curr_player, ground (arith, e), own_turn e)
  | inr e ↦ (updated (record s { undo_id = p.id }), ground (arith, e), asked e)
]
attempt_game_undo-Attempted undo_reject p s sane = elim (Bool-cases (same_id s.undo_id (pos 0))) [
  | inl e ↦ (failed no_undo, ground (arith, e), none_to_reject e)
  | inr e ↦ (updated (without_undo s), ground (arith, e), dropped e)
]
attempt_game_undo-Attempted undo_accept p s sane = elim (Bool-cases (same_id s.undo_id (pos 0))) [
  | inl e ↦ (failed no_undo, ground (arith, e), none_to_accept e)
  | inr e ↦ elim (Bool-cases (same_id s.undo_id p.id)) [
    | inl o ↦ (failed undo_noop, ground (arith, e, o), own_undo e o)
    | inr o ↦
        let (r, q, t) = undo-TakenBack s sane in
        (accepted r, ground (arith, e, o, q), accepted-Attempted p s r e o q t)
  ]
]

-- The undo that was asked for does not matter.
undo_id-Sane : (s : ChessState) (asked_by : ℤ) → Sane s → Sane (record s { undo_id = asked_by })
unfolding has_both_players
undo_id-Sane s asked_by sane = record {
  replays = sane.replays;
  consistent = sane.consistent;
  apart = sane.apart;
}

pub Attempted-Sane :
    (kind : UndoKind) (p : PlayerState) (s : ChessState) (u : Updated)
    → Sane s
    → Attempted p s kind u
    → SaneAnswer u
Attempted-Sane kind p s u sane (own_turn e) = tt
Attempted-Sane kind p s u sane (asked e) = undo_id-Sane s p.id sane
Attempted-Sane kind p s u sane (none_to_accept e) = tt
Attempted-Sane kind p s u sane (own_undo e o) = tt
Attempted-Sane kind p s u sane (nothing_to_undo e o m) = tt
Attempted-Sane kind p s u sane (taken_back s' e o q t) = undo_id-Sane s' (pos 0) t.0
Attempted-Sane kind p s u sane (none_to_reject e) = tt
Attempted-Sane kind p s u sane (dropped e) = undo_id-Sane s (pos 0) sane

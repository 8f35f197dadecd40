-- ===== src/Gameplay/Service/Kept.antt =====
-- What the requests of backend/service/gameplay.go leave as it is, on any state.
use hexchess.Prelude.{
  ◌≡◌, refl, ◌∙◌, ap, Bool, true, false, ◌&&◌, Option, none, some, and-left, and-right, arith,
  Bool-cases, Option-cases, List-cases, inl, inr, not, suc, ◌||◌, length, ◌>>=◌, if◌then◌else◌,
}
use hexchess.Prelude.Int.{ℤ, same_id_comm, same_id, pos}
use hexchess.Chess.Notation.{Move}
use hexchess.Chess.Game.{Game, ensure_piece_moves, checkmate, clear_tables, deep_copy}
use hexchess.Chess.Game.Play.{new_valid_move, MoveResult, refused, moved}
use hexchess.Chess.Game.Replay.{jump_move_index, Jumped, jumped, bad_index}
use hexchess.Gameplay.State.{
  EndKind, finished, aborted, PlayerState, ChessState, has_both_players, is_ended, is_either_player,
  is_same, curr_player, undo, with_game, less_two,
}
use hexchess.Gameplay.Service.{
  Updated, updated, failed, join_game, make_game_move, settle_move, play_move, UndoKind,
  undo_create, undo_accept, undo_reject, attempt_game_undo, accepted, end_game,
}
use hexchess.Gameplay.Service.Seats.{
  Joined, as_white, as_black, absent, taken, again_black, again_white, no_random, join_game-Joined,
}

-- Two players in the seats are not the same one.
abbrev pub Apart : ChessState → Type 0
Apart s =
    (s.white_player.present && s.black_player.present) ≡ true
    → same_id s.white_player.id s.black_player.id ≡ false

-- A state and a later one of the same game: who sits stays, the end is final, and no player comes to
-- hold both seats.
pub record Kept (s s' : ChessState) : Type 0 where
  pub kept_id : s'.id ≡ s.id
  pub kept_mode : s'.mode ≡ s.mode
  pub kept_color : s'.first_color ≡ s.first_color
  pub kept_white : s.white_player.present ≡ true → s'.white_player ≡ s.white_player
  pub kept_black : s.black_player.present ≡ true → s'.black_player ≡ s.black_player
  pub kept_end : is_ended s.end_state ≡ true → s'.end_state ≡ s.end_state
  pub kept_apart : Apart s → Apart s'

pub Kept-refl : (s : ChessState) → Kept s s
Kept-refl s = record {
  kept_id = refl;
  kept_mode = refl;
  kept_color = refl;
  kept_white = λ e. refl;
  kept_black = λ e. refl;
  kept_end = λ e. refl;
  kept_apart = λ a. a;
}

pub Kept-trans : (s t u : ChessState) → Kept s t → Kept t u → Kept s u
Kept-trans s t u k l = record {
  kept_id = l.kept_id ∙ k.kept_id;
  kept_mode = l.kept_mode ∙ k.kept_mode;
  kept_color = l.kept_color ∙ k.kept_color;
  kept_white = λ e. l.kept_white (ap (λ p. p.present) (k.kept_white e) ∙ e) ∙ k.kept_white e;
  kept_black = λ e. l.kept_black (ap (λ p. p.present) (k.kept_black e) ∙ e) ∙ k.kept_black e;
  kept_end = λ e. l.kept_end (ap is_ended (k.kept_end e) ∙ e) ∙ k.kept_end e;
  kept_apart = λ a. l.kept_apart (k.kept_apart a);
}

-- An answer of this kind, if it is a new state.
abbrev pub KeptAnswer : ChessState → Option Updated → Type 0
KeptAnswer s none = Unit
KeptAnswer s (some (updated s')) = Kept s s'
KeptAnswer s (some (failed e)) = Unit

-- A change of all but the seats.
replaced :
    (s : ChessState) (undo_id : ℤ) (e : EndKind) (g : Game)
    → (is_ended s.end_state ≡ true → e ≡ s.end_state)
    → Kept s (record s { undo_id = undo_id; end_state = e; game = g })
replaced s undo_id e g ends = record {
  kept_id = refl;
  kept_mode = refl;
  kept_color = refl;
  kept_white = λ h. refl;
  kept_black = λ h. refl;
  kept_end = ends;
  kept_apart = λ a. a;
}

Joined-Kept :
    (p : PlayerState) (s : ChessState) (u : Updated) → Joined p s u → KeptAnswer s (some u)
Joined-Kept p s u (as_white here w apart) = record {
  kept_id = refl;
  kept_mode = refl;
  kept_color = refl;
  kept_white = λ e. absurd (ground (arith, w, e));
  kept_black = λ e. refl;
  kept_end = λ e. refl;
  kept_apart = λ a h. same_id_comm p.id s.black_player.id ∙ apart (and-right p.present _ h);
}
Joined-Kept p s u (as_black here b apart) = record {
  kept_id = refl;
  kept_mode = refl;
  kept_color = refl;
  kept_white = λ e. refl;
  kept_black = λ e. absurd (ground (arith, b, e));
  kept_end = λ e. refl;
  kept_apart = λ a h. apart (and-left s.white_player.present _ h);
}
Joined-Kept p s u (absent e) = Kept-refl s
Joined-Kept p s u (taken e) = Kept-refl s
Joined-Kept p s u (again_black b e) = Kept-refl s
Joined-Kept p s u (again_white w e) = Kept-refl s
Joined-Kept p s u (no_random w b) = tt

pub join_game-Kept :
    (even : Option Bool) (p : PlayerState) (s : ChessState)
    → KeptAnswer s (some (join_game even p s))
join_game-Kept even p s = Joined-Kept p s (join_game even p s) (join_game-Joined even p s)

settle_move-Kept :
    (p : PlayerState) (s : ChessState) (r : Game × MoveResult)
    → is_ended s.end_state ≡ false
    → KeptAnswer s (settle_move p s r)
settle_move-Kept p s (g, refused e) going = tt
settle_move-Kept p s (g, moved m) going = elim (Option-cases (checkmate g)) [
  | inl e ↦ rw e tt
  | inr (mate, e) ↦ rw e (
      replaced s (pos 0) (if mate then finished else s.end_state) (clear_tables g)
        (λ h. absurd (ground (arith, going, h))))
]

play_move-Kept :
    (p : PlayerState) (mv : Move) (s : ChessState)
    → is_ended s.end_state ≡ false
    → KeptAnswer s (play_move p mv s)
play_move-Kept p mv s going = elim (Option-cases (ensure_piece_moves s.game)) [
  | inl e ↦ rw e tt
  | inr (g, e) ↦ elim (Option-cases (new_valid_move g mv)) [
    | inl f ↦ rw (e, f) tt
    | inr (r, f) ↦ rw (e, f) (settle_move-Kept p s r going)
  ]
]

pub make_game_move-Kept :
    (p : PlayerState) (mv : Move) (s : ChessState) → KeptAnswer s (make_game_move p mv s)
unfolding make_game_move
make_game_move-Kept p mv s = elim (Bool-cases (has_both_players s)) [
  | inr a ↦ rw a tt
  | inl a ↦ elim (Bool-cases (is_ended s.end_state)) [
    | inl b ↦ rw (a, b) tt
    | inr b ↦
        elim (Bool-cases (not (curr_player s).present || not (same_id (curr_player s).id p.id))) [
          | inl c ↦ rw (a, b, c) tt
          | inr c ↦ rw (a, b, c) (play_move-Kept p mv s b)
        ]
  ]
]

-- An undo that is accepted.
accept-Kept : (s : ChessState) → KeptAnswer s (do r ← undo s; some (accepted r))
unfolding undo
accept-Kept s = elim (List-cases s.game.moves) [
  | inl e ↦ rw e tt
  | inr (m, ms, e) ↦
      elim (Option-cases
        (jump_move_index s.initial_board s.game.moves (less_two (suc (length ms))))) [
          | inl f ↦ rw (ap length e, f) tt
          | inr (j, f) ↦ rw (ap length e, f) (back j)
        ]
]
  where
    back : (j : Jumped) → KeptAnswer s (some (accepted (with_game s j)))
    back (jumped g) = replaced s (pos 0) s.end_state (deep_copy g) (λ h. refl)
    back (bad_index e) = tt

pub attempt_game_undo-Kept :
    (kind : UndoKind) (p : PlayerState) (s : ChessState) → KeptAnswer s (attempt_game_undo kind p s)
unfolding attempt_game_undo
attempt_game_undo-Kept undo_create p s = elim (Bool-cases (is_same p (curr_player s))) [
  | inl e ↦ rw e tt
  | inr e ↦ rw e (replaced s p.id s.end_state s.game (λ h. refl))
]
attempt_game_undo-Kept undo_accept p s = elim (Bool-cases (same_id s.undo_id (pos 0))) [
  | inl e ↦ rw e tt
  | inr e ↦ elim (Bool-cases (same_id s.undo_id p.id)) [
    | inl f ↦ rw (e, f) tt
    | inr f ↦ rw (e, f) (accept-Kept s)
  ]
]
attempt_game_undo-Kept undo_reject p s = elim (Bool-cases (same_id s.undo_id (pos 0))) [
  | inl e ↦ rw e tt
  | inr e ↦ rw e (replaced s (pos 0) s.end_state s.game (λ h. refl))
]

pub end_game-Kept : (p : PlayerState) (s : ChessState) → KeptAnswer s (some (end_game p s))
unfolding end_game
end_game-Kept p s = elim (Bool-cases (is_ended s.end_state)) [
  | inl e ↦ rw e tt
  | inr e ↦ elim (Bool-cases (is_either_player s p)) [
    | inl o ↦
        rw (e, o)
          (replaced s s.undo_id
            (if s.white_player.present && s.black_player.present then finished else aborted) s.game
            (λ h. absurd (ground (arith, e, h))))
    | inr o ↦ rw (e, o) tt
  ]
]

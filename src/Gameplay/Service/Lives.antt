-- ===== src/Gameplay/Service/Lives.antt =====
-- The life of a game: requests of backend/service/gameplay.go in any order, each on the state that
-- backend/service/chessrepo.go reads from redis.
use hexchess.Prelude.{
  ◌≡◌, refl, sym, ◌∙◌, ap₂, subst, Bool, true, ◌&&◌, and-left, and-right, Option, some, Bool-cases,
  inl, inr,
}
use hexchess.Prelude.Int.{same_id}
use hexchess.Chess.Notation.{Move}
use hexchess.Gameplay.State.{PlayerState, ChessState, has_both_players, is_ended, is_either_player}
use hexchess.Gameplay.Service.{
  Updated, updated, failed, join_game, make_game_move, UndoKind, attempt_game_undo, end_game,
}
use hexchess.Gameplay.Service.Sane.{Sane}
use hexchess.Gameplay.Service.Seats.{SaneAnswer, join_game-Sane}
use hexchess.Gameplay.Service.Undoing.{attempt_game_undo-Attempted, Attempted-Sane}
use hexchess.Gameplay.Service.Kept.{
  Kept, Kept-refl, Kept-trans, KeptAnswer, join_game-Kept, make_game_move-Kept,
  attempt_game_undo-Kept, end_game-Kept,
}
use hexchess.Model.Serde.Reload.{reloaded_player, reloaded_state}
use hexchess.Gameplay.Service.Moving.{MoveAnswer, make_game_move-MoveAnswer, MadeMove-Sane}

pub data Request : Type 0 where
  -- With what the random source answers.
  join : Option Bool → PlayerState → Request
  play : PlayerState → Move → Request
  attempt : UndoKind → PlayerState → Request
  resign : PlayerState → Request

abbrev pub answer : Request → ChessState → Option Updated
answer (join even p) s = some (join_game even p s)
answer (play p mv) s = make_game_move p mv s
answer (attempt kind p) s = attempt_game_undo kind p s
answer (resign p) s = some (end_game p s)

end_game-Sane : (p : PlayerState) (s : ChessState) → Sane s → SaneAnswer (end_game p s)
unfolding end_game has_both_players
end_game-Sane p s sane = elim (Bool-cases (is_ended s.end_state)) [
  | inl e ↦ rw e tt
  | inr e ↦ elim (Bool-cases (is_either_player s p)) [
    | inl o ↦
        rw (e, o)
          (record { replays = sane.replays; consistent = sane.consistent; apart = sane.apart })
    | inr o ↦ rw (e, o) tt
  ]
]

MoveAnswer-Sane :
    (p : PlayerState) (mv : Move) (s : ChessState) (u : Updated)
    → Sane s
    → MoveAnswer p mv s u
    → SaneAnswer u
MoveAnswer-Sane p mv s (updated s') sane m = MadeMove-Sane p mv s s' sane m
MoveAnswer-Sane p mv s (failed e) sane m = tt

-- On such a state every request is answered without a panic, and leaves such a state or an error.
pub answer-Sane :
    (r : Request) (s : ChessState) → Sane s → (u : Updated) × (answer r s ≡ some u) × SaneAnswer u
answer-Sane (join even p) s sane = (join_game even p s, refl, join_game-Sane even p s sane)
answer-Sane (play p mv) s sane =
    let (u, e, a) = make_game_move-MoveAnswer p mv s sane.consistent in
    (u, e, MoveAnswer-Sane p mv s u sane a)
answer-Sane (attempt kind p) s sane =
    let (u, e, a) = attempt_game_undo-Attempted kind p s sane in
    (u, e, Attempted-Sane kind p s u sane a)
answer-Sane (resign p) s sane = (end_game p s, refl, end_game-Sane p s sane)

answer-Kept : (r : Request) (s : ChessState) → KeptAnswer s (answer r s)
answer-Kept (join even p) s = join_game-Kept even p s
answer-Kept (play p mv) s = make_game_move-Kept p mv s
answer-Kept (attempt kind p) s = attempt_game_undo-Kept kind p s
answer-Kept (resign p) s = end_game-Kept p s

-- A player who is there comes back.
present_back : (p : PlayerState) → p.present ≡ true → reloaded_player p ≡ p
present_back p e = rw e refl

absent_back : (p : PlayerState) → (reloaded_player p).present ≡ p.present
absent_back p = elim (Bool-cases p.present) [ inl e ↦ rw e refl | inr e ↦ rw e refl ]

-- What is read of a state in redis keeps it so far.
reloaded_state-Kept : (s : ChessState) → Kept s (reloaded_state s)
reloaded_state-Kept s = record {
  kept_id = refl;
  kept_mode = refl;
  kept_color = refl;
  kept_white = present_back s.white_player;
  kept_black = present_back s.black_player;
  kept_end = λ e. refl;
  kept_apart = λ a h.
      let w = absent_back s.white_player in
      let b = absent_back s.black_player in
      let both : (s.white_player.present && s.black_player.present) ≡ true =
        ap₂ ◌&&◌ (sym w) (sym b) ∙ h in
      let white = present_back s.white_player (and-left s.white_player.present _ both) in
      let black = present_back s.black_player (and-right s.white_player.present _ both) in
      ap₂ (λ p q. same_id p.id q.id) white black ∙ a both;
}

-- The states that a stored state leads to: each request is made on what is read of the state in redis,
-- and a new state is stored.
pub data Follows (s : ChessState) : ChessState → Type 0 where
  at_first : Follows s s
  requested :
      (t u : ChessState) (r : Request)
      → Follows s t
      → answer r (reloaded_state t) ≡ some (updated u)
      → Follows s u

-- Whatever requests to join, move, undo and forfeit are made on a stored state, in whatever order, each
-- on what is read of the state in redis, where promotions are lost: the identifier, the mode and
-- the first color of the game stay, a player who sits keeps the seat, the end of the game is final
-- once it is there, and two players in the seats are not the same one if they were not at first.
pub Follows-Kept : (s u : ChessState) → Follows s u → Kept s u
Follows-Kept s u at_first = Kept-refl s
Follows-Kept s u (requested t _ r f e) =
    let read = reloaded_state-Kept t in
    let step : Kept (reloaded_state t) u =
      subst (KeptAnswer (reloaded_state t)) e (answer-Kept r (reloaded_state t)) in
    Kept-trans s t u (Follows-Kept s t f) (Kept-trans t (reloaded_state t) u read step)

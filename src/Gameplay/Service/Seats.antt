-- ===== src/Gameplay/Service/Seats.antt =====
-- `JoinGame`: who takes which seat.
use hexchess.Prelude.{
  ◌≡◌, sym, subst, ◌∙◌, Bool, true, false, ◌&&◌, Option, none, some, and-left, and-right, arith,
  Bool-cases, inl, inr, if◌then◌else◌,
}
use hexchess.Prelude.Int.{same_id_comm}
use hexchess.Gameplay.State.{PlayerState, ChessState, has_both_players, same_id}
use hexchess.Gameplay.Service.{
  random_source, Updated, updated, failed, join_first, join_game, seat_white, seat_black,
  pick_white,
}
use hexchess.Gameplay.Service.Sane.{Sane}

-- What a request to join does.
pub data Joined (p : PlayerState) (s : ChessState) : Updated → Type 0 where
  as_white :
      p.present ≡ true
      → s.white_player.present ≡ false
      → (s.black_player.present ≡ true → same_id s.black_player.id p.id ≡ false)
      → Joined p s (updated (record s { white_player = p }))
  as_black :
      p.present ≡ true
      → s.black_player.present ≡ false
      → (s.white_player.present ≡ true → same_id s.white_player.id p.id ≡ false)
      → Joined p s (updated (record s { black_player = p }))
  absent : p.present ≡ false → Joined p s (updated s)
  taken : has_both_players s ≡ true → Joined p s (updated s)
  again_black :
      s.black_player.present ≡ true → same_id s.black_player.id p.id ≡ true → Joined p s (updated s)
  again_white :
      s.white_player.present ≡ true → same_id s.white_player.id p.id ≡ true → Joined p s (updated s)
  no_random :
      s.white_player.present ≡ false
      → s.black_player.present ≡ false
      → Joined p s (failed random_source)

first-Joined :
    (even : Option Bool) (p : PlayerState) (s : ChessState)
    → p.present ≡ true
    → s.white_player.present ≡ false
    → s.black_player.present ≡ false
    → Joined p s (join_first even p s)
first-Joined none p s here w b = no_random w b
first-Joined (some even) p s here w b =
    elim (pick_white s.first_color even)
      as (λ c. Joined p s (updated (if c then seat_white s p else seat_black s p))) [
        | true ↦ as_white here w (λ t. cc)
        | false ↦ as_black here b (λ t. cc)
      ]

second_white :
    (p : PlayerState) (s : ChessState)
    → p.present ≡ true
    → s.white_player.present ≡ false
    → s.black_player.present ≡ true
    → Joined p s (updated (if same_id s.black_player.id p.id then s else seat_white s p))
second_white p s here w b = elim (Bool-cases (same_id s.black_player.id p.id)) [
  | inl e ↦ rw e (again_black b e)
  | inr e ↦ rw e (as_white here w (λ t. e))
]

second_black :
    (p : PlayerState) (s : ChessState)
    → p.present ≡ true
    → s.white_player.present ≡ true
    → s.black_player.present ≡ false
    → Joined p s (updated (if same_id s.white_player.id p.id then s else seat_black s p))
second_black p s here w b = elim (Bool-cases (same_id s.white_player.id p.id)) [
  | inl e ↦ rw e (again_white w e)
  | inr e ↦ rw e (as_black here b (λ t. e))
]

-- JoinGame takes an empty seat for a player that is there and does not hold the other seat, or it
-- leaves the state as it was: for a player that is not there or has joined before, and once both
-- seats are taken. Its only error is that of the random source, while both seats are empty.
pub join_game-Joined :
    (even : Option Bool) (p : PlayerState) (s : ChessState) → Joined p s (join_game even p s)
unfolding join_game has_both_players
join_game-Joined even p s = elim (Bool-cases p.present) [
  | inr away ↦ as_answer (updated s) (ground (arith, away)) (absent away)
  | inl here ↦ elim (Bool-cases s.white_player.present) [
    | inl w ↦ elim (Bool-cases s.black_player.present) [
      | inl b ↦ as_answer (updated s) (ground (arith, here, w, b)) (taken (ground (arith, w, b)))
      | inr b ↦ as_answer _ (ground (arith, here, w, b)) (second_black p s here w b)
    ]
    | inr w ↦ elim (Bool-cases s.black_player.present) [
      | inl b ↦ as_answer _ (ground (arith, here, w, b)) (second_white p s here w b)
      | inr b ↦ as_answer _ (ground (arith, here, w, b)) (first-Joined even p s here w b)
    ]
  ]
]
  where
    as_answer :
        (u : Updated) → join_game even p s ≡ u → Joined p s u → Joined p s (join_game even p s)
    as_answer u e j = subst (Joined p s) (sym e) j

-- What holds of the answer to a request.
abbrev pub SaneAnswer : Updated → Type 0
SaneAnswer (updated s) = Sane s
SaneAnswer (failed e) = Unit

-- A change of the players only.
seated :
    (s : ChessState) (w b : PlayerState)
    → Sane s
    → ((w.present && b.present) ≡ true → same_id w.id b.id ≡ false)
    → Sane (record s { white_player = w; black_player = b })
unfolding has_both_players
seated s w b sane apart = record {
  replays = sane.replays;
  consistent = sane.consistent;
  apart = apart;
}

Joined-Sane :
    (p : PlayerState) (s : ChessState) (u : Updated) → Sane s → Joined p s u → SaneAnswer u
Joined-Sane p s u sane (as_white here w apart) =
    seated s p s.black_player sane
      (λ h. same_id_comm p.id s.black_player.id ∙ apart (and-right p.present _ h))
Joined-Sane p s u sane (as_black here b apart) =
    seated s s.white_player p sane (λ h. apart (and-left s.white_player.present _ h))
Joined-Sane p s u sane (absent e) = sane
Joined-Sane p s u sane (taken e) = sane
Joined-Sane p s u sane (again_black b e) = sane
Joined-Sane p s u sane (again_white w e) = sane
Joined-Sane p s u sane (no_random w b) = tt

pub join_game-Sane :
    (even : Option Bool) (p : PlayerState) (s : ChessState)
    → Sane s
    → SaneAnswer (join_game even p s)
join_game-Sane even p s sane = Joined-Sane p s (join_game even p s) sane (join_game-Joined even p s)

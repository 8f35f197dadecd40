-- ===== src/Tournament/Updates/Lobby.antt =====
-- The lives of a tournament before its first round.
use hexchess.Prelude.{
  ℕ, suc, ◌+◌, ◌*◌, ◌^◌, ◌≤◌, ◌≡◌, refl, sym, subst, Bool, true, false, not, ◌&&◌, ◌||◌, ◌==◌,
  Option, some, List, [], ◌∷◌, ◌++◌, length, length-append, if◌then◌else◌, ltb, leb, Bool-cases,
  inl, inr, arith,
}
use hexchess.Prelude.Int.{ℤ, pos, negsuc}
use hexchess.Tournament.Scoring.{Ruleset, knockout, round_robin, swiss, contains}
use hexchess.Tournament.Matcher.{
  Status, lobby, scheduled, in_progress, finished, cancelled, knockout_participants_at_round,
}
use hexchess.Tournament.Matcher.Powers.{pow_pos, pow_fits}
use hexchess.Tournament.Updates.{
  TournamentInst, Tournament, Changed, changed, refused, is_lobby, inserted, knockout_inserted,
  inserted_for, create_tournament, is_capacity_reached, insert_participant, join_tournament,
  without, tournament_not_lobby, too_many_participants, leave_tournament,
  begin_tournament_countdown,
}

abbrev pub all_different : List ℕ → Bool
all_different [] = true
all_different (x ∷ xs) = not (contains xs x) && all_different xs

contains-append :
    (xs : List ℕ) (a b : ℕ)
    → contains xs a ≡ false
    → (b == a) ≡ false
    → contains (xs ++ b ∷ []) a ≡ false
contains-append [] a b p q = ground arith
contains-append (x ∷ xs) a b p q = ground (arith, contains-append xs a b)

all_different-append :
    (xs : List ℕ) (a : ℕ)
    → all_different xs ≡ true
    → contains xs a ≡ false
    → all_different (xs ++ a ∷ []) ≡ true
all_different-append [] a p q = ground arith
all_different-append (x ∷ xs) a p q =
    ground (arith, all_different-append xs a, contains-append xs x a)

contains-without :
    (id a : ℕ) (xs : List ℕ) → contains xs a ≡ false → contains (without id xs) a ≡ false
contains-without id a [] p = refl
contains-without id a (x ∷ xs) p = ground (arith, contains-without id a xs)

all_different-without :
    (id : ℕ) (xs : List ℕ) → all_different xs ≡ true → all_different (without id xs) ≡ true
all_different-without id [] p = refl
all_different-without id (x ∷ xs) p =
    ground (arith, all_different-without id xs, contains-without id x xs)

length-without : (id : ℕ) (xs : List ℕ) → length (without id xs) ≤ length xs
length-without id [] = omega arith
length-without id (x ∷ xs) = ground (arith, length-without id xs)

-- The rounds of a knockout are from 1 to 5, and no more take part than it has places.
abbrev pub Fits : Ruleset → ℕ → ℕ → Type 0
Fits knockout rounds n = (1 ≤ rounds) × (rounds ≤ 5) × (n ≤ 2 ^ rounds)
Fits round_robin rounds n = rounds ≡ 0
Fits swiss rounds n = rounds ≡ 0

-- How many events to advance the tournament there are at a status.
abbrev pub Scheduled : Status → ℕ → Type 0
Scheduled lobby n = n ≡ 0
Scheduled scheduled n = n ≡ 1
Scheduled in_progress n = Unit
Scheduled finished n = Unit
Scheduled cancelled n = Unit

pub record SaneTournament (t : Tournament) : Type 0 where
  pub fits : Fits t.rules t.rounds (length t.participants)
  pub different : all_different t.participants ≡ true
  pub once : Scheduled t.status (length t.advances)

abbrev pub SaneChange : Changed → Type 0
SaneChange (changed t) = SaneTournament t
SaneChange (refused e) = Unit

places : (rounds : ℕ) → rounds ≤ 5 → knockout_participants_at_round rounds 1 ≡ some (2 ^ rounds)
unfolding knockout_participants_at_round
places rounds p = ground (arith, pow_fits rounds)

inserted-SaneTournament :
    (i : TournamentInst) (rounds : ℕ) → Fits i.rules rounds 0 → SaneTournament (inserted i rounds)
inserted-SaneTournament i rounds f = record { fits = f; different = refl; once = refl }

knockout_inserted-SaneChange :
    (i : TournamentInst) (rounds : ℤ) → i.rules ≡ knockout → SaneChange (knockout_inserted i rounds)
knockout_inserted-SaneChange i (negsuc n) e = tt
knockout_inserted-SaneChange i (pos n) e = elim (Bool-cases (ltb n 1 || ltb 5 n)) [
  | inl b ↦ rw b tt
  | inr b ↦
      let f : Fits knockout n 0 = (ground arith, ground arith, ground (arith, pow_pos n)) in
      rw b (inserted-SaneTournament i n (subst (λ r. Fits r n 0) (sym e) f))
]

inserted_for-SaneChange :
    (r : Ruleset) (i : TournamentInst) → i.rules ≡ r → SaneChange (inserted_for r i)
inserted_for-SaneChange knockout i e = knockout_inserted-SaneChange i i.rounds e
inserted_for-SaneChange round_robin i e =
    inserted-SaneTournament i 0 (subst (λ r. Fits r 0 0) (sym e) refl)
inserted_for-SaneChange swiss i e =
    inserted-SaneTournament i 0 (subst (λ r. Fits r 0 0) (sym e) refl)

create_tournament-SaneChange : (i : TournamentInst) → SaneChange (create_tournament i)
unfolding create_tournament
create_tournament-SaneChange i = inserted_for-SaneChange i.rules i refl

-- The test for a place is answered, and where there is one, one more fits.
place_left :
    (r : Ruleset) (t : Tournament)
    → Fits r t.rounds (length t.participants)
    → (full : Bool) × (is_capacity_reached r t ≡ some full)
      × (full ≡ false → Fits r t.rounds (suc (length t.participants)))
place_left knockout t (least, most, n) = (
  leb (2 ^ t.rounds) (length t.participants),
  rw (places t.rounds most) refl,
  λ e. (least, most, ground arith),
)
place_left round_robin t f = (false, refl, λ e. f)
place_left swiss t f = (false, refl, λ e. f)

insert_participant-SaneChange :
    (is_user : ℕ → Bool) (id : ℕ) (t : Tournament)
    → SaneTournament t
    → Fits t.rules t.rounds (suc (length t.participants))
    → SaneChange (insert_participant is_user id t)
insert_participant-SaneChange is_user id t sane f = elim (Bool-cases (contains t.participants id)) [
  | inl c ↦ rw c tt
  | inr c ↦ elim (Bool-cases (is_user id)) [
    | inl u ↦
        let n : suc (length t.participants) ≡ length (t.participants ++ id ∷ []) =
          omega (arith, length-append t.participants (id ∷ [])) in
        rw (c, u)
          (record {
            fits = subst (λ k. Fits t.rules t.rounds k) n f;
            different = all_different-append t.participants id sane.different c;
            once = sane.once;
          })
    | inr u ↦ rw (c, u) tt
  ]
]

join_tournament-SaneChange :
    (is_user : ℕ → Bool) (id : ℕ) (t : Tournament)
    → SaneTournament t
    → (c : Changed) × (join_tournament is_user id t ≡ some c) × SaneChange c
unfolding join_tournament
join_tournament-SaneChange is_user id t sane = elim (Bool-cases (is_lobby t.status)) [
  | inr l ↦ (refused tournament_not_lobby, rw l refl, tt)
  | inl l ↦
      let (full, e, more) = place_left t.rules t sane.fits in
      elim (Bool-cases full) [
        | inl b ↦ (refused too_many_participants, rw (l, e, b) refl, tt)
        | inr b ↦ (
          insert_participant is_user id t,
          rw (l, e, b) refl,
          insert_participant-SaneChange is_user id t sane (more b),
        )
      ]
]

fewer_fit : (r : Ruleset) (rounds m n : ℕ) → m ≤ n → Fits r rounds n → Fits r rounds m
fewer_fit knockout rounds m n p (least, most, f) = (least, most, omega arith)
fewer_fit round_robin rounds m n p f = f
fewer_fit swiss rounds m n p f = f

leave_tournament-SaneTournament :
    (id : ℕ) (t : Tournament) → SaneTournament t → SaneTournament (leave_tournament id t).0
unfolding leave_tournament
leave_tournament-SaneTournament id t sane = elim (Bool-cases (is_lobby t.status)) [
  | inr l ↦
      subst
        (λ b.
          let left : Tournament × Bool =
            if b
            then (record t { participants = without id t.participants }, contains t.participants id)
            else (t, false) in
          SaneTournament left.0)
        (sym l) sane
  | inl l ↦ rw l (record {
    fits =
        fewer_fit t.rules t.rounds (length (without id t.participants)) (length t.participants)
          (length-without id t.participants) sane.fits;
    different = all_different-without id t.participants sane.different;
    once = sane.once;
  })
]

-- In a lobby nothing is scheduled.
none_in_lobby : (s : Status) (n : ℕ) → is_lobby s ≡ true → Scheduled s n → n ≡ 0
none_in_lobby lobby n l o = o
none_in_lobby scheduled n l o = cc
none_in_lobby in_progress n l o = cc
none_in_lobby finished n l o = cc
none_in_lobby cancelled n l o = cc

begin_tournament_countdown-SaneChange :
    (now later id : ℕ) (t : Tournament)
    → SaneTournament t
    → SaneChange (begin_tournament_countdown now later id t)
unfolding begin_tournament_countdown
begin_tournament_countdown-SaneChange now later id t sane = elim (Bool-cases (is_lobby t.status)) [
  | inr l ↦ rw l tt
  | inl l ↦ elim (Bool-cases (id == t.created_by)) [
    | inr c ↦ rw (l, c) tt
    | inl c ↦
        rw (l, c)
          (record {
            fits = sane.fits;
            different = sane.different;
            once = omega (
              arith,
              none_in_lobby t.status (length t.advances) l sane.once,
              length-append t.advances ((later + t.countdown * 1000000000) ∷ []),
            );
          })
  ]
]

-- A request of a user.
pub data LobbyRequest : Type 0 where
  join leave : ℕ → LobbyRequest
  -- With the time of the update and that of the event.
  begin : ℕ → ℕ → ℕ → LobbyRequest

abbrev pub lobby_answer : (ℕ → Bool) → LobbyRequest → Tournament → Option Changed
lobby_answer is_user (join id) t = join_tournament is_user id t
lobby_answer is_user (leave id) t = some (changed (leave_tournament id t).0)
lobby_answer is_user (begin now later id) t = some (begin_tournament_countdown now later id t)

-- A tournament that was created, after requests in any order.
pub data LobbyReached (is_user : ℕ → Bool) (i : TournamentInst) : Tournament → Type 0 where
  created : (t : Tournament) → create_tournament i ≡ changed t → LobbyReached is_user i t
  requested :
      (t t' : Tournament) (r : LobbyRequest)
      → LobbyReached is_user i t
      → lobby_answer is_user r t ≡ some (changed t')
      → LobbyReached is_user i t'

lobby_answer-SaneChange :
    (is_user : ℕ → Bool) (r : LobbyRequest) (t : Tournament)
    → SaneTournament t
    → (c : Changed) × (lobby_answer is_user r t ≡ some c) × SaneChange c
lobby_answer-SaneChange is_user (join id) t sane = join_tournament-SaneChange is_user id t sane
lobby_answer-SaneChange is_user (leave id) t sane =
    (changed (leave_tournament id t).0, refl, leave_tournament-SaneTournament id t sane)
lobby_answer-SaneChange is_user (begin now later id) t sane = (
  begin_tournament_countdown now later id t,
  refl,
  begin_tournament_countdown-SaneChange now later id t sane,
)

pub LobbyReached-SaneTournament :
    (is_user : ℕ → Bool) (i : TournamentInst) (t : Tournament)
    → LobbyReached is_user i t
    → SaneTournament t
LobbyReached-SaneTournament is_user i t (created _ e) =
    subst SaneChange e (create_tournament-SaneChange i)
LobbyReached-SaneTournament is_user i t (requested t0 _ r reached e) =
    let (c, e', sane) =
      lobby_answer-SaneChange is_user r t0 (LobbyReached-SaneTournament is_user i t0 reached) in
    let same : c ≡ changed t = cc in subst SaneChange same sane

-- A tournament that was created, after any requests to join, to leave and to begin the countdown in
-- whatever order, answers every request without a panic. A knockout then has 1 to 5 rounds and at most
-- two to the power of its rounds participants, all participants are different users, and there is one
-- event to advance it if it is scheduled, and none while it is in the lobby.
pub lobby_answer-returns :
    (is_user : ℕ → Bool) (i : TournamentInst) (t : Tournament) (r : LobbyRequest)
    → LobbyReached is_user i t
    → SaneTournament t × (c : Changed) × (lobby_answer is_user r t ≡ some c)
lobby_answer-returns is_user i t r reached =
    let sane = LobbyReached-SaneTournament is_user i t reached in
    let (c, e, s) = lobby_answer-SaneChange is_user r t sane in (sane, c, e)

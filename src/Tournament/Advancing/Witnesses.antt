-- ===== src/Tournament/Advancing/Witnesses.antt =====
-- A knockout of two in its lobby and when it is started, for the theorems on lobbies and events.
use hexchess.Prelude.{
  All, ℕ, suc, ◌+◌, ◌/◌, ◌≡◌, ◌<◌, ◌==◌, refl, ap, Bool, true, none, some, List, [], ◌∷◌, ◌++◌, ltb,
  leb,
}
use hexchess.Prelude.Int.{pos}
use hexchess.Model.Enums.{timed_1_plus_0}
use hexchess.Tournament.Scoring.{Ratings, knockout}
use hexchess.Tournament.Matcher.{
  scheduled, in_progress, Runtime, new_first_matches, make_matches_linearly,
  knockout_participants_at_round, knockout_matches_at_round,
}
use hexchess.Tournament.Updates.{
  TournamentInst, Tournament, Changed, changed, refused, too_many_participants, inserted,
  create_tournament, join_tournament, begin_tournament_countdown,
}
use hexchess.Tournament.Updates.Lobby.{
  SaneTournament, join, begin, lobby_answer, LobbyReached, created, requested, lobby_answer-returns,
}
use hexchess.Tournament.Advancing.{
  TournamentMatch, Rows, Advanced, advanced, find_row, advance_tournament,
}
use hexchess.Tournament.Advancing.Games.{
  Setup, Games, Known, SetUp, setup_games-SetUp, set_up, advance_with_games,
  advance_with_games-again,
}
use hexchess.Tournament.Advancing.Started.{Started}
use hexchess.Tournament.Advancing.Begun.{rows_of, advance_tournament-LobbyReached}

abbrev everyone : ℕ → Bool
everyone id = true

abbrev cup : TournamentInst
cup = record {
  rounds = pos 1;
  mode = timed_1_plus_0;
  rules = knockout;
  countdown = 60000000000;
  created_by = 4;
}

abbrev with_users : List ℕ → Tournament
with_users ids = record (inserted cup 1) { participants = ids }

cup_created : create_tournament cup ≡ changed (with_users [])
unfolding create_tournament
cup_created = refl

first_joined : join_tournament everyone 4 (with_users []) ≡ some (changed (with_users (4 ∷ [])))
unfolding join_tournament knockout_participants_at_round
first_joined = refl

second_joined :
    join_tournament everyone 7 (with_users (4 ∷ [])) ≡ some (changed (with_users (4 ∷ 7 ∷ [])))
unfolding join_tournament knockout_participants_at_round
second_joined = refl

third_refused :
    join_tournament everyone 9 (with_users (4 ∷ 7 ∷ [])) ≡ some (refused too_many_participants)
unfolding join_tournament knockout_participants_at_round
third_refused = refl

abbrev scheduled_cup : Tournament
scheduled_cup = record (with_users (4 ∷ 7 ∷ [])) {
  status = scheduled;
  countdown_started_on = some 1;
  advances = 60000000000002 ∷ [];
}

-- A countdown of a minute ends after 60000 seconds.
begun_later : begin_tournament_countdown 1 2 4 (with_users (4 ∷ 7 ∷ [])) ≡ changed scheduled_cup
unfolding begin_tournament_countdown
begun_later = refl

full_cup : LobbyReached everyone cup (with_users (4 ∷ 7 ∷ []))
full_cup =
    requested (with_users (4 ∷ [])) (with_users (4 ∷ 7 ∷ [])) (join 7)
      (requested (with_users []) (with_users (4 ∷ [])) (join 4)
        (created (with_users []) cup_created) first_joined)
      second_joined

lobby_answer-returns_example :
    SaneTournament (with_users (4 ∷ 7 ∷ []))
    × (c : Changed) × (lobby_answer everyone (begin 1 2 4) (with_users (4 ∷ 7 ∷ [])) ≡ some c)
lobby_answer-returns_example =
    lobby_answer-returns everyone cup (with_users (4 ∷ 7 ∷ [])) (begin 1 2 4) full_cup

abbrev counted : Ratings
counted = record {
  Rating = ℕ;
  zero_rating = 0;
  start_elo = 1000;
  add = ◌+◌;
  halve = λ x. x / 2;
  ge = λ x y. leb y x;
  gt = λ x y. ltb y x;
  eq = ◌==◌;
}

abbrev drawn_from : ℕ → Runtime
drawn_from n = record { game_id = λ i. n + i; sort_func = λ before xs. xs; range_order = λ t. t }

abbrev two : Rows ℕ
two = record {
  status = scheduled;
  rules = knockout;
  rounds = 1;
  winner_id = none;
  participants = 4 ∷ 7 ∷ [];
  elos = [];
  results = [];
  matches = [];
  event_keys = [];
}

abbrev final : TournamentMatch
final = record { round = 1; game_id = 100; white_id = 4; black_id = 7 }

abbrev two_playing : Rows ℕ
two_playing = record two {
  status = in_progress;
  matches = final ∷ [];
  event_keys = (33, final ∷ []) ∷ [];
}

two_started :
    advance_tournament counted (drawn_from 100) 33 two ≡ some (advanced two_playing (final ∷ []))
unfolding advance_tournament new_first_matches make_matches_linearly knockout_participants_at_round
    knockout_matches_at_round
two_started = refl

-- Every user is known, and no game has been created.
abbrev setup : Setup
setup = record {
  now = 5;
  mode = timed_1_plus_0;
  user_data = λ id. some (record { username = []; country = [] });
  id_text = λ id. id ∷ [];
  new_id = [];
}

abbrev no_games : Games
no_games = λ id. none

final-Known : All (Known setup) (final ∷ [])
final-Known = (
  (record { username = []; country = [] }, record { username = []; country = [] }, refl, refl),
  tt,
)

abbrev first_games : Games
first_games = (setup_games-SetUp setup (final ∷ []) no_games final-Known).0

final_set_up :
    advance_with_games counted (drawn_from 100) setup 33 two no_games
    ≡ some (set_up two_playing first_games (final ∷ []))
unfolding advance_with_games
final_set_up = rw (two_started, (setup_games-SetUp setup (final ∷ []) no_games final-Known).1) refl

advance_with_games-again_example :
    (renewed_games : Games) × (advance_with_games counted
        (drawn_from 500)
        setup
        33
        two_playing
        first_games
      ≡ some (set_up two_playing renewed_games (final ∷ [])))
    × ((id : ℕ) → SetUp setup id (final ∷ []) (first_games id) (renewed_games id))
    × (find_row 33 two.event_keys ≡ none → two_playing.matches ≡ two.matches ++ final ∷ [])
advance_with_games-again_example =
    advance_with_games-again counted (drawn_from 100) (drawn_from 500) setup setup 33 two
      two_playing no_games first_games first_games (final ∷ []) final_set_up final-Known

advance_tournament-LobbyReached_example :
    (k : ℕ) × (a : Advanced ℕ) × (1 ≡ suc k)
    × (k < 5)
    × (advance_tournament counted (drawn_from 100) 33 (rows_of [] scheduled_cup) ≡ some a)
    × Started k (rows_of [] scheduled_cup) a
advance_tournament-LobbyReached_example =
    advance_tournament-LobbyReached counted (drawn_from 100) everyone cup scheduled_cup [] 33
      (requested (with_users (4 ∷ 7 ∷ [])) scheduled_cup (begin 1 2 4) full_cup
        (ap (λ c. some c) begun_later))
      refl refl

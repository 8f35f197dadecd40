-- ===== src/Tournament/Advancing.antt =====
-- The transaction of backend/service/tournamentadvancer.go, on the rows of one tournament and the
-- events that were handled. A panic is `none`. The matches stand in the order in which they were
-- inserted, which is that of their rounds; the creations of an event are kept before their JSON.
pub mod Repeated
pub mod Started
pub mod Begun
pub mod Games
mod Witnesses
use hexchess.Prelude.{
  ℕ, Bool, true, false, Option, none, some, List, [], ◌∷◌, ◌++◌, ◌==◌, if◌then◌else◌, ◌>>=◌, map,
}
use hexchess.Tournament.Scoring.{Ratings, Ruleset, ReplayResult, CompletedPrevMatch, Table}
use hexchess.Tournament.Matcher.{
  Status, lobby, scheduled, in_progress, finished, cancelled, MatchCreation, MatchmakingOutput,
  MatchError, Runtime, Result, ok, err, FirstMatchParticipant, new_first_matches,
}
use hexchess.Tournament.Matcher.Rounds.{do_matchmaking}

-- A row of the matches; its ordering and its time are those of the database, and its mode is that of
-- the tournament.
pub record TournamentMatch : Type 0 where
  pub round : ℕ
  pub game_id : ℕ
  pub white_id : ℕ
  pub black_id : ℕ

-- What the queries of one tournament read: its row, the ratings of users and the results of games.
pub record Rows (R : Type 0) : Type 0 where
  pub status : Status
  pub rules : Ruleset
  pub rounds : ℕ
  pub winner_id : Option ℕ
  pub participants : List ℕ
  pub elos : Table R
  pub results : Table ReplayResult
  pub matches : List TournamentMatch
  pub event_keys : Table (List TournamentMatch)

pub data AdvanceError : Type 0 where
  status_assertion : Status → AdvanceError
  matchmaking_error : MatchError → AdvanceError
  unfinished_match : AdvanceError

pub data Advanced (R : Type 0) : Type 0 where
  advanced : Rows R → List TournamentMatch → Advanced R
  aborted : AdvanceError → Advanced R

-- The row with a key.
abbrev pub find_row : {A : Type 0} → ℕ → Table A → Option A
find_row key [] = none
find_row key ((k, v) ∷ rest) = if k == key then some v else find_row key rest

abbrev pub inserted_rows : ℕ → List MatchCreation → List TournamentMatch
inserted_rows round [] = []
inserted_rows round (m ∷ ms) =
    record { round = round; game_id = m.game_id; white_id = m.white_id; black_id = m.black_id }
    ∷ inserted_rows round ms

abbrev pub new_winner : ℕ → Option ℕ → Option ℕ
new_winner winner_id old = if winner_id == 0 then old else some winner_id

-- `insertTournamentMatches`, after the key of the event was not found.
abbrev pub insert_tournament_matches : {R : Type 0} → ℕ → MatchmakingOutput → Rows R → Advanced R
insert_tournament_matches event_id out s =
    let ms = inserted_rows out.next_match_round out.next_matches in
    advanced
      (record s {
        status = out.next_status;
        rounds = out.total_rounds;
        winner_id = new_winner out.winner_id s.winner_id;
        matches = s.matches ++ ms;
        event_keys = s.event_keys ++ (event_id, ms) ∷ [];
      })
      ms

module _ (R : Ratings) where
  open R use {Rating, start_elo}

  abbrev pub elo_or_start : Option Rating → Rating
  elo_or_start none = start_elo
  elo_or_start (some elo) = elo

  abbrev pub completed_row :
      Table Rating → TournamentMatch → ReplayResult → CompletedPrevMatch Rating
  completed_row elos m result = record {
    round = m.round;
    white_id = m.white_id;
    black_id = m.black_id;
    white_elo = elo_or_start (find_row m.white_id elos);
    black_elo = elo_or_start (find_row m.black_id elos);
    result = result;
  }

  -- The loop over the matches, which stops at one without a result.
  abbrev pub completed_rows :
      Table Rating
      → Table ReplayResult
      → List TournamentMatch
      → Option (List (CompletedPrevMatch Rating))
  completed_rows elos results [] = some []
  completed_rows elos results (m ∷ ms) = do
    result ← find_row m.game_id results
    rest ← completed_rows elos results ms
    some (completed_row elos m result ∷ rest)

  module _ (G : Runtime) where
    abbrev pub participant : Table Rating → ℕ → FirstMatchParticipant R G
    participant elos id = record { user_id = id; elo = find_row id elos }

    abbrev pub inserted_result : ℕ → Rows Rating → Result MatchmakingOutput → Advanced Rating
    inserted_result event_id s (ok out) = insert_tournament_matches event_id out s
    inserted_result event_id s (err e) = aborted (matchmaking_error e)

    abbrev pub advance_scheduled_tournament : Rows Rating → Option (Result MatchmakingOutput)
    advance_scheduled_tournament s = new_first_matches R G (record {
      rules = s.rules;
      participants = map (participant s.elos) s.participants;
      total_rounds = s.rounds;
    })

    abbrev pub advance_completed :
        ℕ → Rows Rating → Option (List (CompletedPrevMatch Rating)) → Option (Advanced Rating)
    advance_completed event_id s none = some (aborted unfinished_match)
    advance_completed event_id s (some ms) = do
      result ←
          do_matchmaking R G (record { rules = s.rules; matches = ms; total_rounds = s.rounds })
      some (inserted_result event_id s result)

    abbrev pub advance_for : Status → ℕ → Rows Rating → Option (Advanced Rating)
    advance_for scheduled event_id s = do
      result ← advance_scheduled_tournament s
      some (inserted_result event_id s result)
    advance_for in_progress event_id s =
        advance_completed event_id s (completed_rows s.elos s.results s.matches)
    advance_for lobby event_id s = some (aborted (status_assertion lobby))
    advance_for finished event_id s = some (aborted (status_assertion finished))
    advance_for cancelled event_id s = some (aborted (status_assertion cancelled))

    abbrev pub advance_unless :
        Option (List TournamentMatch) → ℕ → Rows Rating → Option (Advanced Rating)
    advance_unless (some ms) event_id s = some (advanced s ms)
    advance_unless none event_id s = advance_for s.status event_id s

    unfoldable pub advance_tournament : ℕ → Rows Rating → Option (Advanced Rating)
    advance_tournament event_id s = advance_unless (find_row event_id s.event_keys) event_id s

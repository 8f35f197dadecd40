-- ===== src/Tournament/Updates.antt =====
-- The lobby of a tournament: backend/service/tournamentupdater.go on the row of one tournament and its
-- participants, with what the statements of backend/database/sql/mutate/tournament.sql do to them.
-- Times and durations are nanoseconds. A panic is `none`.
pub mod Lobby
use hexchess.Prelude.{
  ℕ, ◌+◌, ◌*◌, ◌/◌, Bool, true, false, not, ◌||◌, ◌==◌, Option, none, some, List, [], ◌∷◌, ◌++◌,
  length, if◌then◌else◌, ◌>>=◌, ltb, leb,
}
use hexchess.Prelude.Int.{ℤ, pos, negsuc}
use hexchess.Model.Enums.{GameMode}
use hexchess.Tournament.Scoring.{Ruleset, knockout, round_robin, swiss, contains}
use hexchess.Tournament.Matcher.{
  Status, lobby, scheduled, in_progress, finished, cancelled, knockout_participants_at_round,
}

pub record TournamentInst : Type 0 where
  pub rounds : ℤ
  pub mode : GameMode
  pub rules : Ruleset
  pub countdown : ℕ
  pub created_by : ℕ

-- The row of a tournament with its participants, and the times of the events that are to advance it.
pub record Tournament : Type 0 where
  pub rounds : ℕ
  pub status : Status
  pub mode : GameMode
  pub rules : Ruleset
  -- In milliseconds.
  pub countdown : ℕ
  pub countdown_started_on : Option ℕ
  pub created_by : ℕ
  pub participants : List ℕ
  pub advances : List ℕ

pub data TournamentError : Type 0 where
  invalid_rounds tournament_not_lobby too_many_participants : TournamentError
  tournament_already_joined invalid_tournament_participant : TournamentError
  invalid_countdown_tournament_status tournament_countdown_permissions : TournamentError

pub data Changed : Type 0 where
  changed : Tournament → Changed
  refused : TournamentError → Changed

abbrev pub max_knockout_tournament_rounds : ℕ
max_knockout_tournament_rounds = 5

abbrev pub is_lobby : Status → Bool
is_lobby lobby = true
is_lobby scheduled = false
is_lobby in_progress = false
is_lobby finished = false
is_lobby cancelled = false

-- The row that is inserted, with its number of rounds.
abbrev pub inserted : TournamentInst → ℕ → Tournament
inserted i rounds = record {
  rounds = rounds;
  status = lobby;
  mode = i.mode;
  rules = i.rules;
  countdown = i.countdown / 1000000;
  countdown_started_on = none;
  created_by = i.created_by;
  participants = [];
  advances = [];
}

abbrev pub knockout_inserted : TournamentInst → ℤ → Changed
knockout_inserted i (negsuc n) = refused invalid_rounds
knockout_inserted i (pos n) =
    if ltb n 1 || ltb max_knockout_tournament_rounds n
    then refused invalid_rounds
    else changed (inserted i n)

abbrev pub inserted_for : Ruleset → TournamentInst → Changed
inserted_for knockout i = knockout_inserted i i.rounds
inserted_for round_robin i = changed (inserted i 0)
inserted_for swiss i = changed (inserted i 0)

unfoldable pub create_tournament : TournamentInst → Changed
create_tournament i = inserted_for i.rules i

-- Whether as many take part as a knockout has places; a count fits into an int32.
abbrev pub is_capacity_reached : Ruleset → Tournament → Option Bool
is_capacity_reached knockout t = do
  places ← knockout_participants_at_round t.rounds 1
  some (leb places (length t.participants))
is_capacity_reached round_robin t = some false
is_capacity_reached swiss t = some false

-- The insertion, with the primary key of the participants and their reference to a user.
abbrev pub insert_participant : (ℕ → Bool) → ℕ → Tournament → Changed
insert_participant is_user id t =
    if contains t.participants id
    then refused tournament_already_joined
    else if not (is_user id)
    then refused invalid_tournament_participant
    else changed (record t { participants = t.participants ++ id ∷ [] })

unfoldable pub join_tournament : (ℕ → Bool) → ℕ → Tournament → Option Changed
join_tournament is_user id t =
    if not (is_lobby t.status) then some (refused tournament_not_lobby) else do
      full ← is_capacity_reached t.rules t
      some (if full then refused too_many_participants else insert_participant is_user id t)

abbrev pub without : ℕ → List ℕ → List ℕ
without id [] = []
without id (x ∷ xs) = let rest = without id xs in if x == id then rest else x ∷ rest

-- With whether a participant was deleted.
unfoldable pub leave_tournament : ℕ → Tournament → Tournament × Bool
leave_tournament id t =
    if is_lobby t.status
    then (record t { participants = without id t.participants }, contains t.participants id)
    else (t, false)

-- `now` is the time of the update, and `later` that of the event.
unfoldable pub begin_tournament_countdown : ℕ → ℕ → ℕ → Tournament → Changed
begin_tournament_countdown now later id t =
    if not (is_lobby t.status)
    then refused invalid_countdown_tournament_status
    else if not (id == t.created_by)
    then refused tournament_countdown_permissions
    else changed (record t {
      status = scheduled;
      countdown_started_on = some now;
      advances = t.advances ++ (later + t.countdown * 1000000000) ∷ [];
    })

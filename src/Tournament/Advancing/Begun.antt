-- ===== src/Tournament/Advancing/Begun.antt =====
-- From the lobby of backend/service/tournamentupdater.go to the first round.
use hexchess.Prelude.{ℕ, suc, ◌-◌, ◌<◌, ◌≡◌, refl, subst, Bool, none, some, [], length, arith}
use hexchess.Tournament.Scoring.{Ratings, knockout, Table}
use hexchess.Tournament.Matcher.{scheduled, Runtime}
use hexchess.Tournament.Updates.{Tournament, TournamentInst}
use hexchess.Tournament.Updates.Lobby.{Fits, LobbyReached, LobbyReached-SaneTournament}
use hexchess.Tournament.Advancing.{Rows, Advanced, advance_tournament}
use hexchess.Tournament.Advancing.Started.{Started, advance_tournament-Started}

-- The rows of a tournament before its first round.
abbrev pub rows_of : {R : Type 0} → Table R → Tournament → Rows R
rows_of elos t = record {
  status = t.status;
  rules = t.rules;
  rounds = t.rounds;
  winner_id = none;
  participants = t.participants;
  elos = elos;
  results = [];
  matches = [];
  event_keys = [];
}

module _ (R : Ratings) (G : Runtime) where
  open R use {Rating}

  -- Whatever requests a knockout got in its lobby, when its countdown has begun, the first event to
  -- advance it is handled without a panic. If all places of its at most 5 rounds were taken, then it is
  -- in progress, with the participants playing in the order in which they joined in half as many
  -- matches; otherwise it is aborted, with an error that says how many were wanted.
  pub advance_tournament-LobbyReached :
      (is_user : ℕ → Bool) (i : TournamentInst) (t : Tournament) (elos : Table Rating)
      (event_id : ℕ)
      → LobbyReached is_user i t
      → t.rules ≡ knockout
      → t.status ≡ scheduled
      → (k : ℕ) × (a : Advanced Rating) × (t.rounds ≡ suc k)
        × (k < 5)
        × (advance_tournament R G event_id (rows_of elos t) ≡ some a)
        × Started k (rows_of elos t) a
  advance_tournament-LobbyReached is_user i t elos event_id reached rules status =
      let sane = LobbyReached-SaneTournament is_user i t reached in
      let fits : Fits knockout t.rounds (length t.participants) =
        subst (λ r. Fits r t.rounds (length t.participants)) rules sane.fits in
      let (least, most, n) = fits in
      let rounds : t.rounds ≡ suc (t.rounds - 1) = omega arith in
      let few : t.rounds - 1 < 5 = omega arith in
      let (a, q, started) =
        advance_tournament-Started R G (t.rounds - 1) event_id (rows_of elos t) (omega arith) status
          rules rounds refl in
      (t.rounds - 1, a, rounds, few, q, started)

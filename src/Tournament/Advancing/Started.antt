-- ===== src/Tournament/Advancing/Started.antt =====
-- The event that starts a knockout.
use hexchess.Prelude.{
  ℕ, suc, ◌^◌, ◌<◌, ◌≡◌, ◌≢◌, refl, sym, ◌∙◌, ap, none, some, List, [], ◌∷◌, ◌++◌, length, map,
  ◌>>=◌,
}
use hexchess.Tournament.Scoring.{Ratings, knockout, Table}
use hexchess.Tournament.Matcher.{
  scheduled, in_progress, MatchCreation, MatchmakingOutput, participant_count, Runtime, Result, ok,
  err, ids_of,
}
use hexchess.Tournament.Matcher.Pairing.{players, KnockoutStart, new_first_matches-KnockoutStart}
use hexchess.Tournament.Advancing.{
  TournamentMatch, Rows, Advanced, advanced, aborted, matchmaking_error, find_row, inserted_rows,
  participant, inserted_result, advance_scheduled_tournament, advance_for, advance_unless,
  advance_tournament,
}

-- The players of a list of rows, white before black.
abbrev pub players_of : List TournamentMatch → List ℕ
players_of [] = []
players_of (m ∷ ms) = m.white_id ∷ m.black_id ∷ players_of ms

players_of-inserted_rows :
    (round : ℕ) (ms : List MatchCreation) → players_of (inserted_rows round ms) ≡ players ms
players_of-inserted_rows round [] = refl
players_of-inserted_rows round (m ∷ ms) = rw (players_of-inserted_rows round ms) refl

length-inserted_rows :
    (round : ℕ) (ms : List MatchCreation) → length (inserted_rows round ms) ≡ length ms
length-inserted_rows round [] = refl
length-inserted_rows round (m ∷ ms) = ap suc (length-inserted_rows round ms)

-- A full knockout is started with its participants in order; another is refused with the number that
-- was wanted.
abbrev pub Started : {R : Type 0} → ℕ → Rows R → Advanced R → Type 0
Started k s (advanced s' ms) =
    (length s.participants ≡ 2 ^ suc k)
    × (players_of ms ≡ s.participants)
    × (length ms ≡ 2 ^ k)
    × (s'.status ≡ in_progress)
    × (s'.rounds ≡ suc k)
    × (s'.matches ≡ s.matches ++ ms)
    × (s'.participants ≡ s.participants)
Started k s (aborted e) =
    (length s.participants ≢ 2 ^ suc k)
    × (e ≡ matchmaking_error (participant_count (2 ^ suc k) (length s.participants)))

module _ (R : Ratings) (G : Runtime) where
  open R use {Rating}

  ids_of-participant :
      (elos : Table Rating) (ids : List ℕ) → ids_of R G (map (participant R G elos) ids) ≡ ids
  ids_of-participant elos [] = refl
  ids_of-participant elos (id ∷ ids) = ap (λ l. id ∷ l) (ids_of-participant elos ids)

  length-participant :
      (elos : Table Rating) (ids : List ℕ) → length (map (participant R G elos) ids) ≡ length ids
  length-participant elos [] = refl
  length-participant elos (id ∷ ids) = ap suc (length-participant elos ids)

  inserted_result-Started :
      (k event_id : ℕ) (s : Rows Rating) (r : Result MatchmakingOutput)
      → KnockoutStart R G k (map (participant R G s.elos) s.participants) r
      → Started k s (inserted_result R G event_id s r)
  inserted_result-Started k event_id s (ok out) (n, all, half, status, round, rounds) = (
    sym (length-participant s.elos s.participants) ∙ n,
    players_of-inserted_rows out.next_match_round out.next_matches
        ∙ all
        ∙ ids_of-participant s.elos s.participants,
    length-inserted_rows out.next_match_round out.next_matches ∙ half,
    status,
    rounds,
    refl,
    refl,
  )
  inserted_result-Started k event_id s (err e) (other, which) =
      let n = length-participant s.elos s.participants in
      (
        λ full. other (n ∙ full),
        ap (λ x. matchmaking_error x) (which ∙ ap (λ l. participant_count (2 ^ suc k) l) n),
      )

  -- A new event that finds a knockout of 1 to 62 rounds scheduled is handled without a panic. If as
  -- many take part as the bracket holds, then the tournament is in progress, with the participants
  -- playing in the order in which they joined in half as many new matches; otherwise it is aborted,
  -- with an error that says how many were wanted.
  pub advance_tournament-Started :
      (k event_id : ℕ) (s : Rows Rating)
      → k < 62
      → s.status ≡ scheduled
      → s.rules ≡ knockout
      → s.rounds ≡ suc k
      → find_row event_id s.event_keys ≡ none
      → (a : Advanced Rating) × (advance_tournament R G event_id s ≡ some a) × Started k s a
  unfolding advance_tournament
  advance_tournament-Started k event_id s p status rules rounds fresh =
      let (r, q, started) =
        new_first_matches-KnockoutStart R G k (map (participant R G s.elos) s.participants) p in
      let first : advance_scheduled_tournament R G s ≡ some r = rw (rules, rounds) q in
      (
        inserted_result R G event_id s r,
        ap (λ o. advance_unless R G o event_id s) fresh
            ∙ ap (λ st. advance_for R G st event_id s) status
            ∙ ap (λ o. do x ← o; some (inserted_result R G event_id s x)) first,
        inserted_result-Started k event_id s r started,
      )

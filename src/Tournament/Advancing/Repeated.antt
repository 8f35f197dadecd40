-- ===== src/Tournament/Advancing/Repeated.antt =====
-- An event to advance a tournament that is delivered twice.
use hexchess.Prelude.{
  ℕ, ◌≡◌, refl, sym, ◌∙◌, ap, subst, Option, none, some, List, [], ◌∷◌, ◌++◌, ◌==◌, ◌>>=◌,
  Option-cases, Bool-cases, inl, inr, arith,
}
use hexchess.Tournament.Scoring.{Ratings, Table, CompletedPrevMatch}
use hexchess.Tournament.Matcher.{
  Status, lobby, scheduled, in_progress, finished, cancelled, MatchmakingOutput, Runtime, Result,
  ok, err,
}
use hexchess.Tournament.Matcher.Rounds.{do_matchmaking}
use hexchess.Tournament.Advancing.{
  TournamentMatch, Rows, Advanced, advanced, aborted, status_assertion, unfinished_match, find_row,
  completed_rows, inserted_result, advance_scheduled_tournament, advance_completed, advance_for,
  advance_unless, advance_tournament,
}

pub find_row-append :
    {A : Type 0} (key : ℕ) (v : A) (t : Table A)
    → find_row key t ≡ none
    → find_row key (t ++ (key, v) ∷ []) ≡ some v
find_row-append key v [] e = ground arith
find_row-append key v ((k, w) ∷ t) e = elim (Bool-cases (k == key)) [
  | inl b ↦ cc (rw b at e)
  | inr b ↦ rw b (find_row-append key v t (ground (arith, e, b)))
]

-- The creations of the event, and that they were added to the matches.
abbrev pub Recorded : {R : Type 0} → ℕ → Rows R → Advanced R → Type 0
Recorded event_id s (aborted e) = Unit
Recorded event_id s (advanced s' ms) =
    (find_row event_id s'.event_keys ≡ some ms) × (s'.matches ≡ s.matches ++ ms)

module _ (R : Ratings) (G : Runtime) where
  open R use {Rating}

  inserted_result-Recorded :
      (event_id : ℕ) (s : Rows Rating) (r : Result MatchmakingOutput)
      → find_row event_id s.event_keys ≡ none
      → Recorded event_id s (inserted_result R G event_id s r)
  inserted_result-Recorded event_id s (ok out) e = (find_row-append event_id _ s.event_keys e, refl)
  inserted_result-Recorded event_id s (err x) e = tt

  -- The last step of either way to advance.
  bound_result-Recorded :
      (event_id : ℕ) (s : Rows Rating) (o : Option (Result MatchmakingOutput)) (a : Advanced Rating)
      → find_row event_id s.event_keys ≡ none
      → (do r ← o; some (inserted_result R G event_id s r)) ≡ some a
      → Recorded event_id s a
  bound_result-Recorded event_id s none a e q = absurd cc
  bound_result-Recorded event_id s (some r) a e q =
      let same : inserted_result R G event_id s r ≡ a = cc in
      subst (Recorded event_id s) same (inserted_result-Recorded event_id s r e)

  advance_completed-Recorded :
      (event_id : ℕ) (s : Rows Rating) (o : Option (List (CompletedPrevMatch Rating)))
      (a : Advanced Rating)
      → find_row event_id s.event_keys ≡ none
      → advance_completed R G event_id s o ≡ some a
      → Recorded event_id s a
  advance_completed-Recorded event_id s none a e q =
      let same : aborted unfinished_match ≡ a = cc in subst (Recorded event_id s) same tt
  advance_completed-Recorded event_id s (some ms) a e q =
      bound_result-Recorded event_id s
        (do_matchmaking R G (record { rules = s.rules; matches = ms; total_rounds = s.rounds })) a e
        q

  pub advance_for-Recorded :
      (st : Status) (event_id : ℕ) (s : Rows Rating) (a : Advanced Rating)
      → find_row event_id s.event_keys ≡ none
      → advance_for R G st event_id s ≡ some a
      → Recorded event_id s a
  advance_for-Recorded scheduled event_id s a e q =
      bound_result-Recorded event_id s (advance_scheduled_tournament R G s) a e q
  advance_for-Recorded in_progress event_id s a e q =
      advance_completed-Recorded event_id s (completed_rows R s.elos s.results s.matches) a e q
  advance_for-Recorded lobby event_id s a e q =
      let same : aborted (status_assertion lobby) ≡ a = cc in subst (Recorded event_id s) same tt
  advance_for-Recorded finished event_id s a e q =
      let same : aborted (status_assertion finished) ≡ a = cc in subst (Recorded event_id s) same tt
  advance_for-Recorded cancelled event_id s a e q =
      let same : aborted (status_assertion cancelled) ≡ a = cc in
      subst (Recorded event_id s) same tt

module _ (R : Ratings) where
  open R use {Rating}

  -- When an event that advanced a tournament is delivered again right after, the transaction gives the
  -- same matches and changes none of its rows, whatever is drawn at random. If the event was new, then
  -- its matches were added to the rows of those before them. This is about the transaction: the games
  -- that AdvanceTournament creates for the matches after it are not among its rows.
  pub advance_tournament-again :
      (G G' : Runtime) (event_id : ℕ) (s s' : Rows Rating) (ms : List TournamentMatch)
      → advance_tournament R G event_id s ≡ some (advanced s' ms)
      → (advance_tournament R G' event_id s' ≡ some (advanced s' ms))
        × (find_row event_id s.event_keys ≡ none → s'.matches ≡ s.matches ++ ms)
  unfolding advance_tournament
  advance_tournament-again G G' event_id s s' ms q =
      elim (Option-cases (find_row event_id s.event_keys)) [
        | inl n ↦
            let fresh = ap (λ o. advance_unless R G o event_id s) (sym n) ∙ q in
            let (found, added) =
              advance_for-Recorded R G s.status event_id s (advanced s' ms) n fresh in
            (ap (λ o. advance_unless R G' o event_id s') found, λ e. added)
        | inr (before, f) ↦
            let old = ap (λ o. advance_unless R G o event_id s) (sym f) ∙ q in
            let same : advanced s before ≡ advanced s' ms = cc in
            let same_rows : s ≡ s' = cc in
            let same_matches : before ≡ ms = cc in
            (
              ap (λ o. advance_unless R G' o event_id s')
                    (subst (λ v. find_row event_id v.event_keys ≡ some before) same_rows f)
                  ∙ ap (λ m. some (advanced s' m)) same_matches,
              λ e. absurd cc,
            )
      ]

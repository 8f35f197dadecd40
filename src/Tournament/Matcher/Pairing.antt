-- ===== src/Tournament/Matcher/Pairing.antt =====
-- Who meets in the first round: what `NewFirstMatches` makes of the participants.
use hexchess.Prelude.{
  ℕ, zero, suc, ◌+◌, ◌*◌, ◌^◌, ◌<◌, ◌≡◌, ◌≢◌, refl, some, List, [], ◌∷◌, length, ◌==◌, arith, ◌∙◌,
  Bool-cases, inl, inr, ==_iff,
}
use hexchess.Tournament.Scoring.{Ratings, knockout, tiebreaker_none}
use hexchess.Tournament.Matcher.{
  Runtime, in_progress, MatchCreation, MatchmakingOutput, participant_count, Result, ok, err,
  pair_up, FirstMatchParticipant, ids_of, new_first_matches, knockout_participants_at_round,
  knockout_matches_at_round, make_matches_linearly,
}
use hexchess.Tournament.Matcher.Powers.{pow_double, pow_fits}

-- The players of a list of matches, white before black.
abbrev pub players : List MatchCreation → List ℕ
players [] = []
players (m ∷ ms) = m.white_id ∷ m.black_id ∷ players ms

pub players-pair_up :
    (game_id : ℕ → ℕ) (n i : ℕ) (ids : List ℕ)
    → length ids ≡ 2 * n
    → (players (pair_up game_id i ids) ≡ ids) × (length (pair_up game_id i ids) ≡ n)
players-pair_up game_id zero i [] e = (refl, refl)
players-pair_up game_id zero i (a ∷ ids) e = absurd (omega arith)
players-pair_up game_id (suc n) i [] e = absurd (omega arith)
players-pair_up game_id (suc n) i (a ∷ []) e = absurd (omega arith)
players-pair_up game_id (suc n) i (a ∷ b ∷ ids) e =
    let (ps, l) = players-pair_up game_id n (i + 1) ids (omega arith) in (rw ps, rw l)

module _ (R : Ratings) (G : Runtime) where
  pub length-ids_of : (ps : List (FirstMatchParticipant R G)) → length (ids_of R G ps) ≡ length ps
  length-ids_of [] = refl
  length-ids_of (p ∷ ps) = omega (arith, length-ids_of ps)

  -- A knockout of `suc k` rounds: the outputs for the right number of participants and another.
  abbrev pub KnockoutStart :
      ℕ → List (FirstMatchParticipant R G) → Result MatchmakingOutput → Type 0
  KnockoutStart k ps (ok out) =
      (length ps ≡ 2 ^ suc k)
      × (players out.next_matches ≡ ids_of R G ps)
      × (length out.next_matches ≡ 2 ^ k)
      × (out.next_status ≡ in_progress)
      × (out.next_match_round ≡ 1)
      × (out.total_rounds ≡ suc k)
  KnockoutStart k ps (err e) =
      (length ps ≢ 2 ^ suc k) × (e ≡ participant_count (2 ^ suc k) (length ps))

  participants_lem : (k : ℕ) → k < 62 → knockout_participants_at_round (suc k) 1 ≡ some (2 ^ suc k)
  unfolding knockout_participants_at_round
  participants_lem k p = ground (arith, pow_fits (suc k) (omega arith))

  matches_lem : (k : ℕ) → k < 62 → knockout_matches_at_round (suc k) 1 ≡ some (2 ^ k)
  unfolding knockout_matches_at_round
  matches_lem k p = ground (arith, pow_fits k (omega arith))

  pub make_matches_linearly_lem :
      (n : ℕ) (ps : List (FirstMatchParticipant R G))
      → length ps ≡ 2 * n
      → make_matches_linearly R G ps ≡ some (pair_up G.game_id 0 (ids_of R G ps))
  unfolding make_matches_linearly
  make_matches_linearly_lem n ps e = ground arith

  -- For a knockout of 1 to 62 rounds `NewFirstMatches` returns without a panic. With as many
  -- participants as the bracket holds, each plays in exactly the place it has in the list, in half as
  -- many matches as participants; with another number the error says which was wanted.
  pub new_first_matches-KnockoutStart :
      (k : ℕ) (ps : List (FirstMatchParticipant R G))
      → k < 62
      → (r : Result MatchmakingOutput) × (new_first_matches R G
            (record { rules = knockout; participants = ps; total_rounds = suc k })
          ≡ some r)
        × KnockoutStart k ps r
  unfolding new_first_matches
  new_first_matches-KnockoutStart k ps p = elim (Bool-cases (length ps == 2 ^ suc k)) [
    | inl full ↦
        let n : length ps ≡ 2 ^ suc k = (==_iff (length ps) (2 ^ suc k)).0 full in
        let (all, half) =
          players-pair_up G.game_id (2 ^ k) 0 (ids_of R G ps)
            (length-ids_of ps ∙ n ∙ pow_double k) in
        (
          ok (record {
            next_matches = pair_up G.game_id 0 (ids_of R G ps);
            total_rounds = suc k;
            next_status = in_progress;
            next_match_round = 1;
            winner_id = 0;
            tiebreaker = tiebreaker_none;
          }),
          rw (
            participants_lem k p,
            full,
            make_matches_linearly_lem (2 ^ k) ps (n ∙ pow_double k),
            matches_lem k p,
            half,
            (==_iff (2 ^ k) (2 ^ k)).1 refl,
          ),
          (n, all, half, refl, refl, refl),
        )
    | inr other ↦ (
      err (participant_count (2 ^ suc k) (length ps)),
      rw (participants_lem k p, other),
      (λ n. ground (arith), refl),
    )
  ]

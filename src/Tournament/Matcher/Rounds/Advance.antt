-- ===== src/Tournament/Matcher/Rounds/Advance.antt =====
-- What `DoMatchmaking` does with the matches of a knockout.
use hexchess.Prelude.{
  ℕ, zero, suc, ◌+◌, ◌*◌, ◌/◌, ◌%◌, ◌^◌, ◌≡◌, ◌⊎◌, inl, inr, refl, some, List, [], ◌∷◌, length,
  take, ltb, ◌==◌, ==_iff, Bool-cases, arith, true, false,
}
use hexchess.Tournament.Scoring.{
  ReplayResult, white_win, black_win, draw, knockout_winner, Ratings, knockout, Match,
  get_knockout_winner_id, tiebreaker_none,
}
use hexchess.Tournament.Matcher.{
  Runtime, MatchCreation, MatchmakingOutput, match_parity, ok, err, in_progress, finished,
}
use hexchess.Tournament.Matcher.Powers.{pow_double}
use hexchess.Tournament.Matcher.Pairing.{players}
use hexchess.Tournament.Matcher.Rounds.{
  get_prev_round_matches, winners_of, knockout_pairs, do_knockout_matchmaking, do_matchmaking,
  concluded, last_match, find_tournament_winner,
}

halves : (n : ℕ) → (n ≡ 2 * (n / 2)) ⊎ (n ≡ 2 * (n / 2) + 1)
halves n = grind arith

module _ (R : Ratings) where
  -- Who goes on from a match: who won it, and after a draw the white player if its rating is at least
  -- the one of black, else the black player.
  pub data Won (m : Match R) : ℕ → Type 0 where
    won_by_white : m.result ≡ white_win → Won m m.white_id
    won_by_black : m.result ≡ black_win → Won m m.black_id
    white_rated : m.result ≡ draw → R.ge m.white_elo m.black_elo ≡ true → Won m m.white_id
    black_rated : m.result ≡ draw → R.ge m.white_elo m.black_elo ≡ false → Won m m.black_id

  -- The players who go on from matches, in the order of these.
  pub data AllWon : List (Match R) → List ℕ → Type 0 where
    none_won : AllWon [] []
    each_won :
        (m : Match R) (ms : List (Match R)) (id : ℕ) (ids : List ℕ)
        → Won m id
        → AllWon ms ids
        → AllWon (m ∷ ms) (id ∷ ids)

  get_knockout_winner_id-Won : (m : Match R) → Won m (get_knockout_winner_id R m).0
  unfolding get_knockout_winner_id
  get_knockout_winner_id-Won m = winner m.result refl
    where
      winner : (r : ReplayResult) → m.result ≡ r → Won m (knockout_winner R m r).0
      winner white_win e = won_by_white e
      winner black_win e = won_by_black e
      winner draw e = elim (Bool-cases (R.ge m.white_elo m.black_elo)) [
        | inl t ↦ rw t (white_rated e t)
        | inr t ↦ rw t (black_rated e t)
      ]

module _ (R : Ratings) (G : Runtime) where
  winners_of-AllWon : (ms : List (Match R)) → AllWon R ms (winners_of R G ms)
  winners_of-AllWon [] = none_won
  winners_of-AllWon (m ∷ ms) =
      each_won m ms (get_knockout_winner_id R m).0 (winners_of R G ms)
        (get_knockout_winner_id-Won R m) (winners_of-AllWon ms)

  knockout_pairs-winners_of :
      (n i : ℕ) (prev : List (Match R))
      → (length prev ≡ 2 * n) ⊎ (length prev ≡ 2 * n + 1)
      → (players (knockout_pairs R G i prev) ≡ take (2 * n) (winners_of R G prev))
        × (length (knockout_pairs R G i prev) ≡ n)
  knockout_pairs-winners_of zero i [] e = (refl, refl)
  knockout_pairs-winners_of zero i (a ∷ []) e = (refl, refl)
  knockout_pairs-winners_of zero i (a ∷ b ∷ prev) e = absurd (ground arith)
  knockout_pairs-winners_of (suc n) i [] e = absurd (ground arith)
  knockout_pairs-winners_of (suc n) i (a ∷ []) e = absurd (ground arith)
  knockout_pairs-winners_of (suc n) i (a ∷ b ∷ prev) e =
      let (ps, l) = knockout_pairs-winners_of n (i + 1) prev (ground arith) in
      let e2 : 2 * suc n ≡ suc (suc (2 * n)) = omega arith in (rw (e2, ps), rw l)

  do_knockout_matchmaking_lem :
      (m : Match R) (ms : List (Match R))
      → (next : List MatchCreation) × (do_knockout_matchmaking R G m ms ≡ some next)
        × (players next
            ≡ take
                (2 * (length (get_prev_round_matches R G m ms) / 2))
                (winners_of R G (get_prev_round_matches R G m ms)))
  unfolding do_knockout_matchmaking
  do_knockout_matchmaking_lem m ms =
      let prev = get_prev_round_matches R G m ms in
      let (ps, l) = knockout_pairs-winners_of (length prev / 2) 0 prev (halves (length prev)) in
      (knockout_pairs R G 0 prev, ground (arith, l), ps)

  concluded_lem :
      (total : ℕ) (m : Match R) (ms : List (Match R)) (next : List MatchCreation)
      → (out : MatchmakingOutput) × (concluded R G knockout total m ms next ≡ some (ok out))
        × (out.next_matches ≡ next)
        × (out.next_match_round ≡ (last_match R G m ms).round + 1)
  unfolding find_tournament_winner
  concluded_lem total m ms next =
      let won = get_knockout_winner_id R (last_match R G m ms) in
      let round = (last_match R G m ms).round + 1 in
      elim (Bool-cases (ltb total round)) [
        | inl over ↦ (
          record {
            next_matches = next;
            total_rounds = total;
            next_status = finished;
            next_match_round = round;
            winner_id = won.0;
            tiebreaker = won.1;
          },
          rw over,
          refl,
          refl,
        )
        | inr more ↦ (
          record {
            next_matches = next;
            total_rounds = total;
            next_status = in_progress;
            next_match_round = round;
            winner_id = 0;
            tiebreaker = tiebreaker_none;
          },
          rw more,
          refl,
          refl,
        )
      ]

  -- In a knockout with a bracket of `suc k` rounds, of which the last `suc d`, at least the final, are
  -- still to be drawn (so many matches are missing to a full bracket), `DoMatchmaking` returns a next
  -- round without a panic. In it the winners of the round before meet in the order of their matches.
  -- The winner of a match that was drawn is the white player if its rating is at least the one of
  -- black, else the black player.
  pub do_matchmaking-winners_of :
      (k d total : ℕ) (m : Match R) (ms : List (Match R))
      → length (m ∷ ms) + 2 ^ suc d ≡ 2 ^ suc k
      → (out : MatchmakingOutput) × (do_matchmaking R G
            (record { rules = knockout; matches = m ∷ ms; total_rounds = total })
          ≡ some (ok out))
        × (players out.next_matches
            ≡ take
                (2 * (length (get_prev_round_matches R G m ms) / 2))
                (winners_of R G (get_prev_round_matches R G m ms)))
        × AllWon R
            (get_prev_round_matches R G m ms)
            (winners_of R G (get_prev_round_matches R G m ms))
        × (out.next_match_round ≡ (last_match R G m ms).round + 1)
  unfolding do_matchmaking
  do_matchmaking-winners_of k d total m ms full =
      let (next, made, who) = do_knockout_matchmaking_lem m ms in
      let (out, concludes, kept, round) = concluded_lem total m ms next in
      let even : (length (m ∷ ms) % 2 == 0) ≡ true =
        (==_iff (length (m ∷ ms) % 2) 0).1 (omega (arith, full, pow_double k, pow_double d)) in
      (
        out,
        rw (even, made, concludes),
        rw (kept, who),
        winners_of-AllWon (get_prev_round_matches R G m ms),
        round,
      )

  -- With the matches of a full bracket of `suc k` rounds, the final among them, `DoMatchmaking` of a
  -- knockout returns an error about the number of matches, whatever the number of rounds asked for:
  -- it never finishes the tournament and names no winner.
  pub do_matchmaking-full_bracket :
      (k total : ℕ) (m : Match R) (ms : List (Match R))
      → length (m ∷ ms) + 1 ≡ 2 ^ suc k
      → do_matchmaking R G (record { rules = knockout; matches = m ∷ ms; total_rounds = total })
        ≡ some (err (match_parity (length (m ∷ ms))))
  unfolding do_matchmaking
  do_matchmaking-full_bracket k total m ms full =
      let one : length (m ∷ ms) % 2 ≡ 1 = omega (arith, full, pow_double k) in
      let odd : (length (m ∷ ms) % 2 == 0) ≡ false = ground arith in rw odd

-- ===== src/Tournament/Matcher/Rounds/Rotation.antt =====
-- What `DoMatchmaking` does with the matches of a round robin.
use hexchess.Prelude.{
  ℕ, ◌+◌, ◌<◌, ◌≡◌, refl, none, List, [], ◌∷◌, lt→ltb, ◌==◌, if◌then◌else◌, arith, All,
}
use hexchess.Tournament.Scoring.{
  Ratings, round_robin, draw, Match, win_count_from, make_win_count_table,
  find_scoring_table_winners, winners_from,
}
use hexchess.Tournament.Matcher.{Runtime}
use hexchess.Tournament.Matcher.Pairing.{players}
use hexchess.Tournament.Matcher.Rounds.{
  last_match, get_prev_round_matches, shifted, rotated, do_round_robin_matchmaking, do_matchmaking,
  find_tournament_winner,
}

-- 1 for equal players.
unfoldable pub hit : ℕ → ℕ → ℕ
hit x y = if x == y then 1 else 0

-- How often a player is in a list.
abbrev pub count : ℕ → List ℕ → ℕ
count x [] = 0
count x (y ∷ ys) = hit x y + count x ys

module _ (R : Ratings) (G : Runtime) where
  -- The players of the matches of a round, white before black.
  abbrev pub players_of : List (Match R) → List ℕ
  players_of [] = []
  players_of (m ∷ ms) = m.white_id ∷ m.black_id ∷ players_of ms

  count-shifted :
      (x i : ℕ) (m : Match R) (ms : List (Match R))
      → count x ((last_match R G m ms).black_id ∷ players (shifted R G i m.black_id ms))
        ≡ count x (m.black_id ∷ players_of ms)
  count-shifted x i m [] = refl
  count-shifted x i m (n ∷ ms) = omega (arith, count-shifted x (i + 1) n ms)

  count-rotated :
      (x : ℕ) (ms : List (Match R)) → count x (players (rotated R G ms)) ≡ count x (players_of ms)
  count-rotated x [] = refl
  count-rotated x (m ∷ ms) = omega (arith, count-shifted x 1 m ms)

  -- The next round of a round robin gives every player as many matches as the round before did.
  pub count-do_round_robin_matchmaking :
      (x : ℕ) (m : Match R) (ms : List (Match R))
      → count x (players (do_round_robin_matchmaking R G m ms))
        ≡ count x (players_of (get_prev_round_matches R G m ms))
  unfolding do_round_robin_matchmaking
  count-do_round_robin_matchmaking x m ms = count-rotated x (get_prev_round_matches R G m ms)

  win_count_from-drawn :
      (ms : List (Match R)) → All (λ m. m.result ≡ draw) ms → win_count_from R [] ms ≡ []
  unfolding win_count_from
  win_count_from-drawn [] d = refl
  win_count_from-drawn (m ∷ ms) (d, ds) = rw d (win_count_from-drawn ms ds)

  -- If ranging over an empty map visits nothing, a round robin whose matches were all drawn ends in a
  -- panic after its last round: nobody is in the table of wins.
  pub do_matchmaking-drawn :
      (total : ℕ) (m : Match R) (ms : List (Match R))
      → G.range_order {S = ℕ} [] ≡ []
      → All (λ n. n.result ≡ draw) (m ∷ ms)
      → total < (last_match R G m ms).round + 1
      → do_matchmaking R G (record { rules = round_robin; matches = m ∷ ms; total_rounds = total })
        ≡ none
  unfolding do_matchmaking find_tournament_winner make_win_count_table find_scoring_table_winners
      winners_from
  do_matchmaking-drawn total m ms empty draws over = rw (
    lt→ltb total ((last_match R G m ms).round + 1) over,
    win_count_from-drawn (m ∷ ms) draws,
    empty,
  )

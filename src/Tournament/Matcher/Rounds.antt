-- ===== src/Tournament/Matcher/Rounds.antt =====
-- `DoMatchmaking` of backend/service/tournamentmatcher.go: the pairings of the rounds after the
-- first, and the winner. A panic is `none`.
pub mod Advance
pub mod Rotation
use hexchess.Prelude.{
  ℕ, ◌+◌, ◌/◌, ◌%◌, Bool, true, false, not, Option, none, some, List, [], ◌∷◌, length, ltb, leb,
  ◌==◌, if◌then◌else◌, ◌>>=◌,
}
use hexchess.Tournament.Scoring.{
  Ratings, Ruleset, knockout, round_robin, swiss, TieBreakerKind, tiebreaker_none,
  tiebreaker_by_sonneborn_berger, Table, score_of, contains, Match, get_knockout_winner_id,
  find_scoring_table_winners, make_win_count_table, make_sonneborn_table, make_swiss_table,
}
use hexchess.Tournament.Matcher.{
  Runtime, in_progress, finished, MatchCreation, MatchmakingOutput, match_parity, empty_matches,
  Result, ok, err, pair_up,
}

module _ (R : Ratings) (G : Runtime) where
  open R use {Rating, zero_rating, gt, eq}
  open G use {game_id, sort_func, range_order}

  pub record MatchmakingInput : Type 0 where
    pub rules : Ruleset
    pub matches : List (Match R)
    pub total_rounds : ℕ

  abbrev pub last_match : Match R → List (Match R) → Match R
  last_match m [] = m
  last_match m (n ∷ ms) = last_match n ms

  abbrev pub of_round : ℕ → List (Match R) → List (Match R)
  of_round r [] = []
  of_round r (m ∷ ms) = let rest = of_round r ms in if m.round == r then m ∷ rest else rest

  -- `getPrevRoundMatches`, of a list that is not empty.
  unfoldable pub get_prev_round_matches : Match R → List (Match R) → List (Match R)
  get_prev_round_matches m ms = of_round ((last_match m ms).round) (m ∷ ms)

  -- The winner of each match, by `getKnockoutWinnerID`.
  abbrev pub winners_of : List (Match R) → List ℕ
  winners_of [] = []
  winners_of (m ∷ ms) = (get_knockout_winner_id R m).0 ∷ winners_of ms

  -- The loop of `DoKnockoutMatchmaking`, over the matches of the previous round.
  abbrev pub knockout_pairs : ℕ → List (Match R) → List MatchCreation
  knockout_pairs i (one ∷ two ∷ rest) =
      record {
        game_id = game_id i;
        white_id = (get_knockout_winner_id R one).0;
        black_id = (get_knockout_winner_id R two).0;
      }
      ∷ knockout_pairs (i + 1) rest
  knockout_pairs i rest = []

  unfoldable pub do_knockout_matchmaking : Match R → List (Match R) → Option (List MatchCreation)
  do_knockout_matchmaking m ms =
      let prev = get_prev_round_matches m ms in
      let next = knockout_pairs 0 prev in if length next == length prev / 2 then some next else none

  -- The loop of `DoRoundRobinMatchmaking` from the second match on.
  abbrev pub shifted : ℕ → ℕ → List (Match R) → List MatchCreation
  shifted i black [] = []
  shifted i black (m ∷ ms) =
      record { game_id = game_id i; white_id = black; black_id = m.white_id }
      ∷ shifted (i + 1) m.black_id ms

  abbrev pub rotated : List (Match R) → List MatchCreation
  rotated [] = []
  rotated (m ∷ ms) =
      record { game_id = game_id 0; white_id = m.white_id; black_id = (last_match m ms).black_id }
      ∷ shifted 1 m.black_id ms

  unfoldable pub do_round_robin_matchmaking : Match R → List (Match R) → List MatchCreation
  do_round_robin_matchmaking m ms = rotated (get_prev_round_matches m ms)

  -- The users of a table.
  abbrev pub keys : {S : Type 0} → Table S → List ℕ
  keys [] = []
  keys ((id, v) ∷ t) = id ∷ keys t

  -- The comparison of the sort: scores from the highest, then ids from the lowest.
  abbrev score_before : Table ℕ → ℕ → ℕ → Bool
  score_before t a b =
      let sa = score_of 0 a t in
      let sb = score_of 0 b t in if ltb sb sa then true else if ltb sa sb then false else leb a b

  unfoldable pub do_swiss_matchmaking : Match R → List (Match R) → List MatchCreation
  do_swiss_matchmaking m ms =
      let t = make_swiss_table R (m ∷ ms) in
      pair_up game_id 0 (sort_func (score_before t) (keys (range_order t)))

  abbrev pub gt_score : ℕ → ℕ → Bool
  gt_score a b = ltb b a

  abbrev pub keep_all : ℕ → Bool
  keep_all id = false

  abbrev first_winner : List ℕ → Option (ℕ × TieBreakerKind)
  first_winner [] = none
  first_winner (id ∷ ids) = some (id, tiebreaker_by_sonneborn_berger)

  -- The tie of several users, by their Sonneborn-Berger scores.
  abbrev break_tie : List (Match R) → List ℕ → Option (ℕ × TieBreakerKind)
  break_tie ms tied = do
    best ←
        find_scoring_table_winners gt eq (λ id. not (contains tied id)) zero_rating
          (range_order (make_sonneborn_table R ms))
    first_winner best

  abbrev single_or_tie : List (Match R) → List ℕ → Option (ℕ × TieBreakerKind)
  single_or_tie ms (id ∷ []) = some (id, tiebreaker_none)
  single_or_tie ms ids = break_tie ms ids

  -- The winner by a table of scores.
  abbrev table_winner : List (Match R) → Table ℕ → Option (ℕ × TieBreakerKind)
  table_winner ms t = do
    best ← find_scoring_table_winners gt_score ◌==◌ keep_all 0 (range_order t)
    single_or_tie ms best

  unfoldable pub find_tournament_winner :
      Ruleset → Match R → List (Match R) → Option (ℕ × TieBreakerKind)
  find_tournament_winner knockout m ms = some (get_knockout_winner_id R (last_match m ms))
  find_tournament_winner round_robin m ms = table_winner (m ∷ ms) (make_win_count_table R (m ∷ ms))
  find_tournament_winner swiss m ms = table_winner (m ∷ ms) (make_swiss_table R (m ∷ ms))

  -- The end of `DoMatchmaking`: the status and the winner.
  abbrev pub concluded :
      Ruleset
      → ℕ
      → Match R
      → List (Match R)
      → List MatchCreation
      → Option (Result MatchmakingOutput)
  concluded rules total m ms next =
      let next_round = (last_match m ms).round + 1 in
      if ltb total next_round
      then (do
        (winner, tiebreaker) ← find_tournament_winner rules m ms
        some (
            ok (record {
              next_matches = next;
              total_rounds = total;
              next_status = finished;
              next_match_round = next_round;
              winner_id = winner;
              tiebreaker = tiebreaker;
            })))
      else some (
          ok (record {
            next_matches = next;
            total_rounds = total;
            next_status = in_progress;
            next_match_round = next_round;
            winner_id = 0;
            tiebreaker = tiebreaker_none;
          }))

  abbrev pub matchmaking_for :
      Ruleset → ℕ → Match R → List (Match R) → Option (Result MatchmakingOutput)
  matchmaking_for knockout total m ms =
      if length (m ∷ ms) % 2 == 0
      then (do next ← do_knockout_matchmaking m ms; concluded knockout total m ms next)
      else some (err (match_parity (length (m ∷ ms))))
  matchmaking_for round_robin total m ms =
      concluded round_robin total m ms (do_round_robin_matchmaking m ms)
  matchmaking_for swiss total m ms = concluded swiss total m ms (do_swiss_matchmaking m ms)

  abbrev pub matchmaking_of : Ruleset → ℕ → List (Match R) → Option (Result MatchmakingOutput)
  matchmaking_of rules total [] = some (err empty_matches)
  matchmaking_of rules total (m ∷ ms) = matchmaking_for rules total m ms

  unfoldable pub do_matchmaking : MatchmakingInput → Option (Result MatchmakingOutput)
  do_matchmaking request = matchmaking_of request.rules request.total_rounds request.matches

-- ===== src/Tournament/Witnesses.antt =====
-- The theorems on tournaments at small ones, with whole numbers for ratings and an insertion sort.
use hexchess.Prelude.{
  ℕ, suc, ◌+◌, ◌*◌, ◌/◌, ◌≡◌, refl, Bool, none, some, List, [], ◌∷◌, length, take, leb, ltb, ◌==◌,
  if◌then◌else◌, arith,
}
use hexchess.Tournament.Scoring.{
  Ratings, round_robin, knockout, white_win, black_win, draw, Match, find_scoring_table_winners,
}
use hexchess.Tournament.Scoring.Leaders.{Found, above, find_scoring_table_winners-Found}
use hexchess.Tournament.Matcher.{
  Runtime, MatchmakingOutput, Result, ok, err, match_parity, FirstMatchParticipant,
  new_first_matches,
}
use hexchess.Tournament.Matcher.Pairing.{players, KnockoutStart, new_first_matches-KnockoutStart}
use hexchess.Tournament.Matcher.Rounds.{
  get_prev_round_matches, winners_of, do_matchmaking, do_round_robin_matchmaking,
}
use hexchess.Tournament.Matcher.Rounds.Advance.{
  AllWon, do_matchmaking-winners_of, do_matchmaking-full_bracket,
}
use hexchess.Tournament.Matcher.Rounds.Rotation.{
  count, players_of, count-do_round_robin_matchmaking, do_matchmaking-drawn,
}

abbrev whole : Ratings
whole = record {
  Rating = ℕ;
  zero_rating = 0;
  start_elo = 1000;
  add = ◌+◌;
  halve = λ x. x / 2;
  ge = λ x y. leb y x;
  gt = λ x y. ltb y x;
  eq = ◌==◌;
}

module _ {A : Type 0} (before : A → A → Bool) where
  abbrev inserted : A → List A → List A
  inserted x [] = x ∷ []
  inserted x (y ∷ ys) = if before x y then x ∷ y ∷ ys else y ∷ inserted x ys

  abbrev sorted : List A → List A
  sorted [] = []
  sorted (x ∷ xs) = inserted x (sorted xs)

  length-inserted : (x : A) (xs : List A) → length (inserted x xs) ≡ suc (length xs)
  length-inserted x [] = refl
  length-inserted x (y ∷ ys) = ground (arith, length-inserted x ys)

  length-sorted : (xs : List A) → length (sorted xs) ≡ length xs
  length-sorted [] = refl
  length-sorted (x ∷ xs) = omega (arith, length-inserted x (sorted xs), length-sorted xs)

abbrev in_order : Runtime
in_order = record {
  game_id = λ i. 100 + i;
  sort_func = λ before xs. sorted before xs;
  range_order = λ t. t;
}

abbrev four : List (FirstMatchParticipant whole in_order)
four =
    record { user_id = 1; elo = some 900 }
    ∷ record { user_id = 2; elo = none }
    ∷ record { user_id = 3; elo = some 1200 }
    ∷ record { user_id = 4; elo = some 1000 }
    ∷ []

-- Two first matches of four players, and the final.
abbrev one_two : Match whole
one_two = record {
  round = 1;
  white_id = 1;
  black_id = 2;
  white_elo = 900;
  black_elo = 1000;
  result = white_win;
}

abbrev three_four : Match whole
three_four = record {
  round = 1;
  white_id = 3;
  black_id = 4;
  white_elo = 1200;
  black_elo = 1000;
  result = draw;
}

abbrev final : Match whole
final = record {
  round = 2;
  white_id = 1;
  black_id = 3;
  white_elo = 900;
  black_elo = 1200;
  result = black_win;
}

abbrev drawn : Match whole
drawn = record {
  round = 1;
  white_id = 1;
  black_id = 2;
  white_elo = 900;
  black_elo = 1000;
  result = draw;
}

new_first_matches-KnockoutStart_example :
    (r : Result MatchmakingOutput) × (new_first_matches whole in_order
        (record { rules = knockout; participants = four; total_rounds = 2 })
      ≡ some r)
    × KnockoutStart whole in_order 1 four r
new_first_matches-KnockoutStart_example =
    new_first_matches-KnockoutStart whole in_order 1 four (omega arith)

do_matchmaking-winners_of_example :
    (out : MatchmakingOutput) × (do_matchmaking whole in_order
        (record { rules = knockout; matches = one_two ∷ three_four ∷ []; total_rounds = 2 })
      ≡ some (ok out))
    × (players out.next_matches
        ≡ take
            (2 * (length (get_prev_round_matches whole in_order one_two (three_four ∷ [])) / 2))
            (winners_of whole in_order
              (get_prev_round_matches whole in_order one_two (three_four ∷ []))))
    × AllWon whole (get_prev_round_matches whole in_order one_two (three_four ∷ [])) (
        winners_of whole in_order (get_prev_round_matches whole in_order one_two (three_four ∷ [])))
    × (out.next_match_round ≡ 2)
do_matchmaking-winners_of_example =
    do_matchmaking-winners_of whole in_order 1 0 2 one_two (three_four ∷ []) refl

do_matchmaking-full_bracket_example :
    do_matchmaking whole in_order
      (record { rules = knockout; matches = one_two ∷ three_four ∷ final ∷ []; total_rounds = 2 })
    ≡ some (err (match_parity 3))
do_matchmaking-full_bracket_example =
    do_matchmaking-full_bracket whole in_order 1 2 one_two (three_four ∷ final ∷ []) refl

count-do_round_robin_matchmaking_example :
    count 3 (players (do_round_robin_matchmaking whole in_order one_two (three_four ∷ [])))
    ≡ count 3 (
        players_of whole in_order (get_prev_round_matches whole in_order one_two (three_four ∷ [])))
count-do_round_robin_matchmaking_example =
    count-do_round_robin_matchmaking whole in_order 3 one_two (three_four ∷ [])

do_matchmaking-drawn_example :
    do_matchmaking whole in_order
      (record { rules = round_robin; matches = drawn ∷ []; total_rounds = 1 })
    ≡ none
do_matchmaking-drawn_example =
    do_matchmaking-drawn whole in_order 1 drawn [] refl (refl, tt) (omega arith)

find_scoring_table_winners-Found_example :
    Found
      (λ id. id == 9)
      ((9, 5) ∷ (1, 2) ∷ (2, 4) ∷ (3, 4) ∷ [])
      (find_scoring_table_winners above ◌==◌
        (λ id. id == 9)
        0
        ((9, 5) ∷ (1, 2) ∷ (2, 4) ∷ (3, 4) ∷ []))
find_scoring_table_winners-Found_example =
    find_scoring_table_winners-Found (λ id. id == 9) ((9, 5) ∷ (1, 2) ∷ (2, 4) ∷ (3, 4) ∷ [])

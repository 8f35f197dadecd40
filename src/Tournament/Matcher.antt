-- ===== src/Tournament/Matcher.antt =====
-- The pairings of backend/service/tournamentmatcher.go: `NewFirstMatches`; its child has
-- `DoMatchmaking`. A panic is `none`. What the code takes from its libraries is a record of
-- operations, `Runtime`. Rulesets and results are values of the database's enumerations.
use hexchess.Prelude.{
  ℕ, zero, suc, ◌+◌, ◌-◌, ◌*◌, ◌/◌, ◌%◌, ◌^◌, Bool, true, false, not, ◌&&◌, ◌||◌, Option, none,
  some, List, [], ◌∷◌, ◌++◌, length, get_elem?, map, ltb, leb, ◌==◌, if◌then◌else◌, ◌>>=◌,
}
use hexchess.Tournament.Scoring.{
  Ratings, Ruleset, knockout, round_robin, swiss, TieBreakerKind, tiebreaker_none,
  tiebreaker_by_sonneborn_berger, CompletedPrevMatch, Table, score_of, contains, Match,
  get_knockout_winner_id, find_scoring_table_winners, make_win_count_table, make_sonneborn_table,
  make_swiss_table,
}
pub mod Powers
pub mod Pairing
pub mod CrissCross
pub mod Rounds

pub data Status : Type 0 where
  lobby scheduled in_progress finished cancelled : Status

-- A match to create; its game mode is that of the request, and is left out.
pub record MatchCreation : Type 0 where
  pub game_id : ℕ
  pub white_id : ℕ
  pub black_id : ℕ

pub record MatchmakingOutput : Type 0 where
  pub next_matches : List MatchCreation
  pub total_rounds : ℕ
  pub next_status : Status
  pub next_match_round : ℕ
  pub winner_id : ℕ
  pub tiebreaker : TieBreakerKind

pub data MatchError : Type 0 where
  participant_count : ℕ → ℕ → MatchError
  participant_parity : ℕ → MatchError
  match_parity : ℕ → MatchError
  empty_matches : MatchError

pub data Result (A : Type 0) : Type 0 where
  ok : A → Result A
  err : MatchError → Result A

-- What the Go library supplies: `NewGameID`, random, as the identifier drawn for the i-th match of
-- a call; `slices.SortFunc`, for the order its comparison gives; and the order in which a `range`
-- over a map visits the entries.
pub record Runtime : Type 1 where
  pub game_id : ℕ → ℕ
  pub sort_func : {A : Type 0} → (A → A → Bool) → List A → List A
  pub range_order : {S : Type 0} → Table S → Table S

-- `1 << (a - b)` in a 64-bit int, as a bit pattern; a negative shift count is a panic.
abbrev shl_one : ℕ → ℕ → Option ℕ
shl_one a b = if ltb a b then none else some (2 ^ (a - b) % 2 ^ 64)

unfoldable pub knockout_participants_at_round : ℕ → ℕ → Option ℕ
knockout_participants_at_round max_depth depth = shl_one (max_depth + 1) depth

unfoldable pub knockout_matches_at_round : ℕ → ℕ → Option ℕ
knockout_matches_at_round max_depth depth = shl_one max_depth depth

unfoldable pub calc_round_robin_tournament_rounds : ℕ → ℕ
calc_round_robin_tournament_rounds n = n * (n - 1) / 2 % 2 ^ 32

-- The whole part of the logarithm; of 0 too it is 0 here, where Go's conversion of minus infinity
-- is not specified.
abbrev log2_from : ℕ → ℕ → ℕ
log2_from zero n = 0
log2_from (suc fuel) n = let more = log2_from fuel (n / 2) + 1 in if ltb n 2 then 0 else more

unfoldable pub calc_swiss_tournament_rounds : ℕ → ℕ
calc_swiss_tournament_rounds n = log2_from 64 n

-- The ids of the participants two by two, as `matches[i]`, `matches[i+1]` from match `i` on.
abbrev pub pair_up : (ℕ → ℕ) → ℕ → List ℕ → List MatchCreation
pair_up game_id i (a ∷ b ∷ rest) =
    record { game_id = game_id i; white_id = a; black_id = b } ∷ pair_up game_id (i + 1) rest
pair_up game_id i rest = []

-- The element at an index below the length; out of range is a panic.
abbrev paired : (ℕ → ℕ) → List ℕ → ℕ → ℕ → Option (List MatchCreation) → Option (List MatchCreation)
paired game_id ids low high rest = do
  white ← get_elem? ids low
  black ← get_elem? ids high
  matches ← rest
  some (record { game_id = game_id low; white_id = white; black_id = black } ∷ matches)

-- The loop of `makeMatchesCrissCrossElos`, where `bound` is `high + 1`.
abbrev pub criss_cross : (ℕ → ℕ) → List ℕ → ℕ → ℕ → Option (List MatchCreation)
criss_cross game_id ids low zero = some []
criss_cross game_id ids low (suc high) =
    let rest = criss_cross game_id ids (low + 1) high in
    if ltb low high then paired game_id ids low high rest else if low == high then none else some []

module _ (R : Ratings) (G : Runtime) where
  open R use {Rating, zero_rating, start_elo, gt, eq}
  open G use {game_id, sort_func, range_order}

  -- A participant: the id, and the rating where it is valid.
  pub record FirstMatchParticipant : Type 0 where
    pub user_id : ℕ
    pub elo : Option Rating

  pub record FirstMatchmakingInput : Type 0 where
    pub rules : Ruleset
    pub participants : List FirstMatchParticipant
    pub total_rounds : ℕ

  abbrev default_user_elo : Option Rating → Rating
  default_user_elo none = start_elo
  default_user_elo (some e) = e

  abbrev pub ids_of : List FirstMatchParticipant → List ℕ
  ids_of [] = []
  ids_of (p ∷ ps) = p.user_id ∷ ids_of ps

  unfoldable pub make_matches_linearly : List FirstMatchParticipant → Option (List MatchCreation)
  make_matches_linearly ps =
      if length ps % 2 == 0 then some (pair_up game_id 0 (ids_of ps)) else none

  -- The comparison of the sort: ratings from the highest, then ids from the lowest.
  abbrev pub elo_before : FirstMatchParticipant → FirstMatchParticipant → Bool
  elo_before a b =
      let ea = default_user_elo a.elo in
      let eb = default_user_elo b.elo in
      if gt ea eb then true else if gt eb ea then false else leb a.user_id b.user_id

  unfoldable pub make_matches_criss_cross_elos :
      List FirstMatchParticipant → Option (List MatchCreation)
  make_matches_criss_cross_elos ps =
      criss_cross game_id (ids_of (sort_func elo_before ps)) 0 (length ps)

  -- The output of `NewFirstMatches`.
  abbrev first_output : ℕ → List MatchCreation → Result MatchmakingOutput
  first_output rounds matches = ok (record {
    next_matches = matches;
    total_rounds = rounds;
    next_status = in_progress;
    next_match_round = 1;
    winner_id = 0;
    tiebreaker = tiebreaker_none;
  })

  -- The two `switch`es of `NewFirstMatches`, for one rules each.
  abbrev of_count : ℕ → ℕ → List MatchCreation → Option (Result MatchmakingOutput)
  of_count want rounds matches =
      if length matches == want then some (first_output rounds matches) else none

  abbrev knockout_started : ℕ → List FirstMatchParticipant → Option (Result MatchmakingOutput)
  knockout_started rounds ps = do
    matches ← make_matches_linearly ps
    want ← knockout_matches_at_round rounds 1
    of_count want rounds matches

  abbrev knockout_of : ℕ → ℕ → List FirstMatchParticipant → Option (Result MatchmakingOutput)
  knockout_of rounds want ps =
      if length ps == want
      then knockout_started rounds ps
      else some (err (participant_count want (length ps)))

  abbrev first_knockout : ℕ → List FirstMatchParticipant → Option (Result MatchmakingOutput)
  first_knockout rounds ps = do
    want ← knockout_participants_at_round rounds 1
    knockout_of rounds want ps

  abbrev first_paired :
      Option (List MatchCreation)
      → ℕ
      → List FirstMatchParticipant
      → Option (Result MatchmakingOutput)
  first_paired pairing rounds ps =
      if length ps % 2 == 0
      then (do matches ← pairing; some (first_output rounds matches))
      else some (err (participant_parity (length ps)))

  abbrev first_matches_for :
      Ruleset → ℕ → List FirstMatchParticipant → Option (Result MatchmakingOutput)
  first_matches_for knockout rounds ps = first_knockout rounds ps
  first_matches_for round_robin rounds ps =
      first_paired (make_matches_linearly ps) (calc_round_robin_tournament_rounds (length ps)) ps
  first_matches_for swiss rounds ps =
      first_paired (make_matches_criss_cross_elos ps) (calc_swiss_tournament_rounds (length ps)) ps

  unfoldable pub new_first_matches : FirstMatchmakingInput → Option (Result MatchmakingOutput)
  new_first_matches request =
      first_matches_for request.rules request.total_rounds request.participants

-- ===== src/Tournament/Scoring.antt =====
-- Matches, winners and score tables of backend/service/tournamentmatcher.go. A panic is `none`.
-- A rating is a float64: its operations are a parameter. A Go map is an association list, and
-- ranging over one visits its entries in an order that is a parameter too.
pub mod Totals
pub mod Leaders
use hexchess.Prelude.{
  ℕ, ◌+◌, Bool, true, false, Option, none, some, List, [], ◌∷◌, ◌++◌, ◌==◌, if◌then◌else◌,
}

-- The operations on float64 ratings that the tables use: `+`, `/2`, `>=`, `>` and `==`.
pub record Ratings : Type 1 where
  pub Rating : Type 0
  pub zero_rating : Rating
  pub start_elo : Rating
  pub add : Rating → Rating → Rating
  pub halve : Rating → Rating
  pub ge : Rating → Rating → Bool
  pub gt : Rating → Rating → Bool
  pub eq : Rating → Rating → Bool

pub data ReplayResult : Type 0 where
  white_win black_win draw : ReplayResult

pub data Ruleset : Type 0 where
  knockout round_robin swiss : Ruleset

pub data TieBreakerKind : Type 0 where
  tiebreaker_none tiebreaker_by_elo tiebreaker_by_sonneborn_berger : TieBreakerKind

pub record CompletedPrevMatch (R : Type 0) : Type 0 where
  pub round : ℕ
  pub white_id : ℕ
  pub black_id : ℕ
  pub white_elo : R
  pub black_elo : R
  pub result : ReplayResult

-- A map from user to score.
abbrev pub Table : Type 0 → Type 0
Table S = List (ℕ × S)

module _ {S : Type 0} where
  -- `table[id]`, the zero value where it has no entry.
  abbrev pub score_of : S → ℕ → Table S → S
  score_of zero_value id [] = zero_value
  score_of zero_value id ((k, v) ∷ rest) = if k == id then v else score_of zero_value id rest

  -- `table[id] = v`.
  abbrev pub put : ℕ → S → Table S → Table S
  put id v [] = (id, v) ∷ []
  put id v ((k, w) ∷ rest) = if k == id then (k, v) ∷ rest else (k, w) ∷ put id v rest

  -- `table[id] = table[id] + x`.
  abbrev pub credit : (S → S → S) → S → ℕ → S → Table S → Table S
  credit plus zero_value id x t = put id (plus (score_of zero_value id t) x) t

-- The check at the end of `findScoringTableWinners`.
abbrev pub or_panic : List ℕ → Option (List ℕ)
or_panic [] = none
or_panic (id ∷ ids) = some (id ∷ ids)

-- `findScoringTableWinners`: the loop, with the highest score and the users who have it so far.
module _ {S : Type 0} (gt eq : S → S → Bool) (skip : ℕ → Bool) where
  unfoldable pub winners_from : S → List ℕ → Table S → List ℕ
  winners_from highest ids [] = ids
  winners_from highest ids ((id, score) ∷ rest) =
      let skipped = winners_from highest ids rest in
      let tied = winners_from highest (ids ++ id ∷ []) rest in
      let leads = winners_from score (id ∷ []) rest in
      let others = winners_from highest ids rest in
      if skip id
      then skipped
      else if eq score highest
      then tied
      else if gt score highest
      then leads
      else others

  -- It panics if no user was kept.
  unfoldable pub find_scoring_table_winners : S → Table S → Option (List ℕ)
  find_scoring_table_winners zero_value table = or_panic (winners_from zero_value [] table)

-- `slices.Contains`.
abbrev pub contains : List ℕ → ℕ → Bool
contains [] id = false
contains (x ∷ xs) id = if x == id then true else contains xs id

module _ (R : Ratings) where
  open R use {Rating, zero_rating, add, halve, ge, gt, eq}

  abbrev pub Match : Type 0
  Match = CompletedPrevMatch Rating

  -- The `switch` of `getKnockoutWinnerID`.
  abbrev pub knockout_winner : Match → ReplayResult → ℕ × TieBreakerKind
  knockout_winner m white_win = (m.white_id, tiebreaker_none)
  knockout_winner m black_win = (m.black_id, tiebreaker_none)
  knockout_winner m draw =
      if ge m.white_elo m.black_elo
      then (m.white_id, tiebreaker_by_elo)
      else (m.black_id, tiebreaker_by_elo)

  unfoldable pub get_knockout_winner_id : Match → ℕ × TieBreakerKind
  get_knockout_winner_id m = knockout_winner m m.result

  -- One round of the loop of `makeWinCountTable`.
  abbrev pub count_win : Match → ReplayResult → Table ℕ → Table ℕ
  count_win m white_win t = credit ◌+◌ 0 m.white_id 1 t
  count_win m black_win t = credit ◌+◌ 0 m.black_id 1 t
  count_win m draw t = t

  unfoldable pub win_count_from : Table ℕ → List Match → Table ℕ
  win_count_from t [] = t
  win_count_from t (m ∷ ms) = win_count_from (count_win m m.result t) ms

  unfoldable pub make_win_count_table : List Match → Table ℕ
  make_win_count_table ms = win_count_from [] ms

  abbrev pub count_sonneborn : Match → ReplayResult → Table Rating → Table Rating
  count_sonneborn m white_win t = credit add zero_rating m.white_id m.black_elo t
  count_sonneborn m black_win t = credit add zero_rating m.black_id m.white_elo t
  count_sonneborn m draw t =
      credit add zero_rating m.black_id (halve m.white_elo)
        (credit add zero_rating m.white_id (halve m.black_elo) t)

  unfoldable pub sonneborn_from : Table Rating → List Match → Table Rating
  sonneborn_from t [] = t
  sonneborn_from t (m ∷ ms) = sonneborn_from (count_sonneborn m m.result t) ms

  unfoldable pub make_sonneborn_table : List Match → Table Rating
  make_sonneborn_table ms = sonneborn_from [] ms

  -- Swiss scores are multiples of a half, which float64 holds exactly: here they are counted in
  -- halves.
  abbrev pub count_swiss : Match → ReplayResult → Table ℕ → Table ℕ
  count_swiss m white_win t = credit ◌+◌ 0 m.white_id 2 t
  count_swiss m black_win t = credit ◌+◌ 0 m.black_id 2 t
  count_swiss m draw t = credit ◌+◌ 0 m.black_id 1 (credit ◌+◌ 0 m.white_id 1 t)

  unfoldable pub swiss_players : Table ℕ → List Match → Table ℕ
  swiss_players t [] = t
  swiss_players t (m ∷ ms) = swiss_players (put m.black_id 0 (put m.white_id 0 t)) ms

  unfoldable pub swiss_from : Table ℕ → List Match → Table ℕ
  swiss_from t [] = t
  swiss_from t (m ∷ ms) = swiss_from (count_swiss m m.result t) ms

  unfoldable pub make_swiss_table : List Match → Table ℕ
  make_swiss_table ms = swiss_from (swiss_players [] ms) ms

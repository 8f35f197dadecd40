-- ===== src/Tournament/Scoring/Totals.antt =====
-- The points of a Swiss tournament.
use hexchess.Prelude.{ℕ, ◌+◌, ◌*◌, ◌≡◌, refl, List, [], ◌∷◌, arith, length}
use hexchess.Tournament.Scoring.{
  Ratings, ReplayResult, white_win, black_win, draw, Table, score_of, put, credit, Match,
  count_swiss, swiss_players, swiss_from, make_swiss_table,
}

-- The sum of the scores of a table.
abbrev pub total : Table ℕ → ℕ
total [] = 0
total ((id, v) ∷ t) = v + total t

total-put : (id v : ℕ) (t : Table ℕ) → total (put id v t) + score_of 0 id t ≡ total t + v
total-put id v [] = omega arith
total-put id v ((k, w) ∷ t) = ground (arith, total-put id v t)

total-credit : (id x : ℕ) (t : Table ℕ) → total (credit ◌+◌ 0 id x t) ≡ total t + x
total-credit id x t = ground (arith, total-put id (score_of 0 id t + x) t)

total-put_zero : (id : ℕ) (t : Table ℕ) → total t ≡ 0 → total (put id 0 t) ≡ 0
total-put_zero id t z = ground (arith, total-put id 0 t)

module _ (R : Ratings) where
  total-count_swiss :
      (m : Match R) (r : ReplayResult) (t : Table ℕ) → total (count_swiss R m r t) ≡ total t + 2
  total-count_swiss m white_win t = total-credit m.white_id 2 t
  total-count_swiss m black_win t = total-credit m.black_id 2 t
  total-count_swiss m draw t =
      ground (
        arith,
        total-credit m.black_id 1 (credit ◌+◌ 0 m.white_id 1 t),
        total-credit m.white_id 1 t,
      )

  total-swiss_players :
      (ms : List (Match R)) (t : Table ℕ) → total t ≡ 0 → total (swiss_players R t ms) ≡ 0
  unfolding swiss_players
  total-swiss_players [] t z = z
  total-swiss_players (m ∷ ms) t z =
      total-swiss_players ms (put m.black_id 0 (put m.white_id 0 t))
        (total-put_zero m.black_id (put m.white_id 0 t) (total-put_zero m.white_id t z))

  total-swiss_from :
      (ms : List (Match R)) (t : Table ℕ) → total (swiss_from R t ms) ≡ total t + 2 * length ms
  unfolding swiss_from
  total-swiss_from [] t = omega arith
  total-swiss_from (m ∷ ms) t =
      ground
        (arith, total-swiss_from ms (count_swiss R m m.result t), total-count_swiss m m.result t)

  -- The scores of the Swiss table of any matches add up to one point, two halves, for each match.
  pub total-make_swiss_table : (ms : List (Match R)) → total (make_swiss_table R ms) ≡ 2 * length ms
  unfolding make_swiss_table
  total-make_swiss_table ms =
      ground (arith, total-swiss_from ms (swiss_players R [] ms), total-swiss_players ms [] refl)

-- ===== src/Leaderboard/Syncing.antt =====
-- `SyncLeaderboard` of backend/service/leaderboard.go ends, and what it leaves on the leaderboard.
use hexchess.Prelude.{
  ℕ, zero, suc, ◌+◌, ◌≡◌, ◌≤◌, ◌<◌, refl, ◌∙◌, ap, sym, subst, Bool, true, false, ◌&&◌, ◌||◌,
  Option, some, List, [], ◌∷◌, length, take, drop, ltb, ◌==◌, arith, Bool-cases, List-cases, inl,
  inr,
}
use hexchess.Leaderboard.{
  ScoreSets, Documented, contains_id, EloRow, after_id, select_elo_list, last_id, set_leaderboard,
  unless_done, sync_mode,
}

module _ {F : Type 0} where
  -- The rows are in order of their users, whose identifiers are above `low`.
  abbrev pub ascending : ℕ → List (EloRow F) → Bool
  ascending low [] = true
  ascending low (r ∷ rs) = ltb low r.user_id && ascending r.user_id rs

  abbrev pub has_row : List (EloRow F) → ℕ → Bool
  has_row [] x = false
  has_row (r ∷ rs) x = r.user_id == x || has_row rs x

  all_after : (a b : ℕ) (rs : List (EloRow F)) → a ≤ b → ascending b rs ≡ true → after_id a rs ≡ rs
  all_after a b [] p s = refl
  all_after a b (r ∷ rs) p s =
      let here : ltb a r.user_id ≡ true = ground (arith, p, s) in
      let rest = all_after a r.user_id rs (ground (arith, p, s)) (ground (arith, s)) in
      ground (arith, here, rest)

  after_twice :
      (a b : ℕ) (rs : List (EloRow F)) → a ≤ b → after_id b (after_id a rs) ≡ after_id b rs
  after_twice a b [] p = refl
  after_twice a b (r ∷ rs) p = ground (arith, p, after_twice a b rs p)

  last_id_later :
      (a n : ℕ) (rs : List (EloRow F)) → ascending a rs ≡ true → a ≤ last_id a (take n rs)
  last_id_later a zero rs s = omega arith
  last_id_later a (suc n) [] s = omega arith
  last_id_later a (suc n) (r ∷ rs) s =
      let here : a < r.user_id = ground (arith, s) in
      let rest = last_id_later r.user_id n rs (ground (arith, s)) in omega (arith, here, rest)

  -- The rows behind the last one of a selection.
  after_selection :
      (a n : ℕ) (rs : List (EloRow F))
      → ascending a rs ≡ true
      → after_id (last_id a (take n rs)) rs ≡ drop n rs
  after_selection a zero rs s = all_after a a rs (omega arith) s
  after_selection a (suc n) [] s = refl
  after_selection a (suc n) (r ∷ rs) s =
      let sorted : ascending r.user_id rs ≡ true = ground (arith, s) in
      let rest = after_selection r.user_id n rs sorted in
      let later = last_id_later r.user_id n rs sorted in ground (arith, rest, later)

  ascending_after :
      (low a : ℕ) (rs : List (EloRow F))
      → ascending low rs ≡ true
      → ascending a (after_id a rs) ≡ true
  ascending_after low a [] s = refl
  ascending_after low a (r ∷ rs) s =
      let sorted : ascending r.user_id rs ≡ true = ground (arith, s) in
      let rest = ascending_after r.user_id a rs sorted in
      elim (Bool-cases (ltb a r.user_id)) [
        | inl e ↦
            let same = all_after a r.user_id rs (ground (arith, e)) sorted in
            ground (arith, e, same, sorted)
        | inr e ↦ ground (arith, e, rest)
      ]

  has_row_split :
      (n : ℕ) (rs : List (EloRow F)) (x : ℕ)
      → (has_row (take n rs) x || has_row (drop n rs) x) ≡ has_row rs x
  has_row_split zero rs x = refl
  has_row_split (suc n) [] x = refl
  has_row_split (suc n) (r ∷ rs) x = ground (arith, has_row_split n rs x)

  shorter : (n : ℕ) (rs : List (EloRow F)) → length (drop n rs) ≤ length rs
  shorter zero rs = omega arith
  shorter (suc n) [] = omega arith
  shorter (suc n) (r ∷ rs) = omega (arith, shorter n rs)

module _ {F Z : Type 0} (ops : ScoreSets F Z) (documented : Documented ops) where
  set_leaderboard-contains_id :
      (changes : List (EloRow F)) (z : Z) (x : ℕ)
      → contains_id (ops.members (set_leaderboard ops changes z)) x
        ≡ (contains_id (ops.members z) x || has_row changes x)
  unfolding set_leaderboard
  set_leaderboard-contains_id [] z x = ground arith
  set_leaderboard-contains_id (c ∷ cs) z x = ground (
    arith,
    set_leaderboard-contains_id cs (ops.zadd_nx c.elo c.user_id z) x,
    documented.added c.elo c.user_id z x,
  )

  next_rows :
      (low after : ℕ) (rows : List (EloRow F))
      → ascending low rows ≡ true
      → after_id (last_id after (select_elo_list after 20 rows)) rows
        ≡ drop 20 (after_id after rows)
  next_rows low after rows s =
      let rest = after_id after rows in
      let sorted = ascending_after low after rows s in
      sym
        (after_twice after (last_id after (take 20 rest)) rows (last_id_later after 20 rest sorted))
      ∙ after_selection after 20 rest sorted

  -- The rows of a selection and those behind it.
  added_before :
      (x : ℕ) (z : Z) (rest : List (EloRow F)) (z' : Z)
      → contains_id (ops.members z') x ≡ (
          contains_id (ops.members (set_leaderboard ops (take 20 rest) z)) x
          || has_row (drop 20 rest) x)
      → contains_id (ops.members z') x ≡ (contains_id (ops.members z) x || has_row rest x)
  added_before x z rest z' p =
      let first = set_leaderboard-contains_id (take 20 rest) z x in
      let split = has_row_split 20 rest x in ground (arith, p, first, split)

  -- What the loop adds, from the rows behind a user on.
  abbrev Added : List (EloRow F) → Z → Option Z → Type 0
  Added rest z o =
      (z' : Z) × (o ≡ some z')
      × ((x : ℕ)
          → contains_id (ops.members z') x ≡ (contains_id (ops.members z) x || has_row rest x))

  sync_mode-Added :
      (fuel low after : ℕ) (rows : List (EloRow F)) (z : Z)
      → ascending low rows ≡ true
      → length (after_id after rows) < fuel
      → Added (after_id after rows) z (sync_mode ops fuel after rows z)
  unfolding sync_mode
  sync_mode-Added zero low after rows z s p = absurd (omega (arith, p))
  sync_mode-Added (suc fuel) low after rows z s p =
      let changes = select_elo_list after 20 rows in
      let next = last_id after changes in
      let z₁ = set_leaderboard ops changes z in
      let rest = sync_mode ops fuel next rows z₁ in
      let later = next_rows low after rows s in
      elim (List-cases (after_id after rows)) [
        | inl e ↦ (z, ap (λ l. unless_done ops (take 20 l) z rest) e, λ x. ground (arith, e))
        | inr (r, rs, e) ↦
            let left : length (after_id next rows) ≤ length rs =
              subst (λ l. length l ≤ length rs) (sym (later ∙ ap (drop 20) e)) (shorter 19 rs) in
            let whole : length (after_id after rows) ≡ suc (length rs) = ap length e in
            let (z', run, all) =
              sync_mode-Added fuel low next rows z₁ s (omega (arith, left, whole, p)) in
            (
              z',
              ap (λ l. unless_done ops (take 20 l) z rest) e ∙ run,
              λ x.
                  added_before x z (after_id after rows) z'
                    (all x ∙ ap (λ l. contains_id (ops.members z₁) x || has_row l x) later),
            )
      ]

  -- From rows in the order of the query, with positive identifiers, the loop ends after at most as
  -- many rounds as there are rows, and one more: then the members are those from before and the user
  -- of every row.
  pub sync_mode-synced :
      (rows : List (EloRow F)) (z : Z)
      → ascending 0 rows ≡ true
      → (z' : Z) × (sync_mode ops (length rows + 1) 0 rows z ≡ some z')
        × ((x : ℕ)
            → contains_id (ops.members z') x ≡ (contains_id (ops.members z) x || has_row rows x))
  sync_mode-synced rows z s =
      let same = all_after 0 0 rows (omega arith) s in
      let fuel = length rows + 1 in
      let short : length (after_id 0 rows) < fuel = omega (arith, ap length same) in
      let (z', run, all) = sync_mode-Added fuel 0 0 rows z s short in
      (z', run, λ x. all x ∙ ap (λ l. contains_id (ops.members z) x || has_row l x) same)

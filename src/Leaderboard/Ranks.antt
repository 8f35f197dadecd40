-- ===== src/Leaderboard/Ranks.antt =====
-- The rank of a user alone and on the pages: backend/service/leaderboard.go.
use hexchess.Prelude.{
  ℕ, ◌+◌, ◌-◌, ◌<◌, ◌≡◌, ◌∙◌, ap, sym, Bool, true, false, ◌&&◌, ◌||◌, some, List, [], ◌∷◌, ◌++◌,
  length, ◌==◌, arith, Bool-cases, Option-cases, inl, inr,
}
use hexchess.Leaderboard.Pages.{length-reversed, pages_from, get_leaderboard_page-ranked}
use hexchess.Leaderboard.{
  ScoreSets, Documented, reversed, index_of, RankedUser, ranked, user_rank, LeaderboardPage,
  get_leaderboard_page,
}

-- The list gives the user that rank.
abbrev pub has_rank : List RankedUser → ℕ → ℕ → Bool
has_rank [] id rank = false
has_rank (u ∷ us) id rank = u.id == id && u.rank == rank || has_rank us id rank

has_rank-append :
    (s : ℕ) (xs ys : List ℕ) (id rank : ℕ)
    → has_rank (ranked s (xs ++ ys)) id rank
      ≡ (has_rank (ranked s xs) id rank || has_rank (ranked (s + length xs) ys) id rank)
has_rank-append s [] ys id rank = ground arith
has_rank-append s (x ∷ xs) ys id rank =
    let n : s + 1 + length xs ≡ s + length (x ∷ xs) = omega arith in
    let rest = has_rank-append (s + 1) xs ys id rank in
    ground (arith, rest, ap (λ k. has_rank (ranked k ys) id rank) n)

reversed_rank :
    (xs : List ℕ) (id k : ℕ)
    → index_of id xs ≡ some k
    → has_rank (ranked 0 (reversed xs)) id (length xs - k) ≡ true
reversed_rank [] id k p = ground (arith, p)
reversed_rank (x ∷ xs) id k p =
    let both = has_rank-append 0 (reversed xs) (x ∷ []) id (length (x ∷ xs) - k) in
    elim (Bool-cases (x == id)) [
      | inl e ↦
          let first : k ≡ 0 = ground (arith, p, e) in
          let last : 0 + length (reversed xs) + 1 ≡ length (x ∷ xs) - k =
            omega (arith, length-reversed xs, first) in
          ground (arith, both, e, last)
      | inr e ↦ elim (Option-cases (index_of id xs)) [
        | inl o ↦ ground (arith, p, e, o)
        | inr (j, o) ↦
            let after : k ≡ j + 1 = ground (arith, p, e, o) in
            let n : length (x ∷ xs) - k ≡ length xs - j = omega (arith, after) in
            let before = ap (has_rank (ranked 0 (reversed xs)) id) n ∙ reversed_rank xs id j o in
            ground (arith, both, before)
      ]
    ]

module _ {F Z : Type 0} (ops : ScoreSets F Z) (documented : Documented ops) where
  -- If a page has places, then the rank that `GetLeaderboardUser` gives a member and one that the pages
  -- of the leaderboard give it add up to the number of members: the former counts from 0 and from the
  -- lowest score, the latter from 1 and from the highest.
  pub user_rank-ranked :
      (id k per_page : ℕ) (z : Z)
      → user_rank ops id z ≡ some k
      → 0 < per_page
      → (first : LeaderboardPage) × (get_leaderboard_page ops 1 per_page z ≡ some first)
        × (users : List RankedUser) × (pages_from ops per_page z first.page_count 1 ≡ some users)
        × (has_rank users id (length (ops.members z) - k) ≡ true)
  unfolding user_rank
  user_rank-ranked id k per_page z p pos =
      let (first, e, same, all) = get_leaderboard_page-ranked ops documented per_page z pos in
      (
        first,
        e,
        ranked 0 (reversed (ops.members z)),
        all,
        reversed_rank (ops.members z) id k (sym (documented.rank id z) ∙ p),
      )

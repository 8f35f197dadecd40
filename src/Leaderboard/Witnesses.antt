-- ===== src/Leaderboard/Witnesses.antt =====
-- The theorems on the leaderboard at a set of three users.
use hexchess.Prelude.{
  ℕ, suc, ◌-◌, ◌≡◌, refl, subst, true, ◌||◌, some, List, [], ◌∷◌, length, take, drop, leb, ◌==◌,
  ==_iff, if◌then◌else◌, arith, Bool-cases, inl, inr,
}
use hexchess.Leaderboard.{
  ScoreSets, Documented, reversed, contains_id, index_of, LeaderboardPage, RankedUser, EloRow,
  get_leaderboard_page, user_rank, sync_mode,
}
use hexchess.Leaderboard.Pages.{pages_from}
use hexchess.Leaderboard.Syncing.{has_row, sync_mode-synced}
use hexchess.Leaderboard.Ranks.{has_rank, user_rank-ranked}

-- Members with their scores, in order of these.
abbrev Scores : Type 0
Scores = List (ℕ × ℕ)

abbrev ids : Scores → List ℕ
ids [] = []
ids ((score, id) ∷ es) = id ∷ ids es

abbrev insert : ℕ → ℕ → Scores → Scores
insert score id [] = (score, id) ∷ []
insert score id ((s, k) ∷ es) =
    let later = insert score id es in
    if leb score s then (score, id) ∷ (s, k) ∷ es else (s, k) ∷ later

abbrev insert_new : ℕ → ℕ → Scores → Scores
insert_new score id es = if contains_id (ids es) id then es else insert score id es

abbrev scores : ScoreSets ℕ Scores
scores = record {
  members = ids;
  zadd_nx = insert_new;
  zrev_range = λ from to z. take (suc to - from) (drop from (reversed (ids z)));
  zcount = λ z. length (ids z);
  zrank = λ id z. index_of id (ids z);
}

inserted_id :
    (score id : ℕ) (es : Scores) (x : ℕ)
    → contains_id (ids (insert score id es)) x ≡ (id == x || contains_id (ids es) x)
inserted_id score id [] x = refl
inserted_id score id ((s, k) ∷ es) x = ground (arith, inserted_id score id es x)

insert_new_id :
    (score id : ℕ) (es : Scores) (x : ℕ)
    → contains_id (ids (insert_new score id es)) x ≡ (id == x || contains_id (ids es) x)
insert_new_id score id es x = elim (Bool-cases (contains_id (ids es) id)) [
  | inr c ↦ ground (arith, c, inserted_id score id es x)
  | inl c ↦ elim (Bool-cases (id == x)) [
    | inl e ↦
        let here = subst (λ k. contains_id (ids es) k ≡ true) ((==_iff id x).0 e) c in
        ground (arith, c, e, here)
    | inr e ↦ ground (arith, c, e)
  ]
]

scores-Documented : Documented scores
scores-Documented = record {
  rev_range = λ from to z. refl;
  count = λ z. refl;
  rank = λ id z. refl;
  added = insert_new_id;
}

abbrev three : Scores
three = (900, 4) ∷ (1000, 7) ∷ (1200, 5) ∷ []

user_rank-ranked_example :
    (first : LeaderboardPage) × (get_leaderboard_page scores 1 2 three ≡ some first)
    × (users : List RankedUser) × (pages_from scores 2 three first.page_count 1 ≡ some users)
    × (has_rank users 4 (3 - 0) ≡ true)
unfolding user_rank
user_rank-ranked_example = user_rank-ranked scores scores-Documented 4 0 2 three refl (omega arith)

abbrev rows : List (EloRow ℕ)
rows = record { user_id = 5; elo = 1200 } ∷ record { user_id = 9; elo = 800 } ∷ []

sync_mode-synced_example :
    (z' : Scores) × (sync_mode scores 3 0 rows three ≡ some z')
    × ((x : ℕ) → contains_id (ids z') x ≡ (contains_id (ids three) x || has_row rows x))
sync_mode-synced_example = sync_mode-synced scores scores-Documented rows three refl

-- ===== src/Leaderboard/Pages.antt =====
-- What the pages of a leaderboard are, together: backend/service/leaderboard.go.
use hexchess.Prelude.{
  ℕ, zero, suc, ◌+◌, ◌-◌, ◌*◌, ◌/◌, ◌%◌, ◌≡◌, ◌≤◌, ◌<◌, refl, ◌∙◌, ap, ap₂, sym, false, Option,
  some, List, [], ◌∷◌, ◌++◌, length, length-append, take, drop, ltb, ◌==◌, if◌then◌else◌, ◌>>=◌,
  arith,
}
use hexchess.Leaderboard.{
  ScoreSets, reversed, Documented, RankedUser, LeaderboardPage, ranked, count_pages,
  get_leaderboard, get_leaderboard_page,
}

module _ {A : Type 0} where
  take_nothing : (n : ℕ) → take {A = A} n [] ≡ []
  take_nothing zero = refl
  take_nothing (suc n) = refl

  drop_nothing : (n : ℕ) → drop {A = A} n [] ≡ []
  drop_nothing zero = refl
  drop_nothing (suc n) = refl

  take-append : (a b : ℕ) (xs : List A) → take a xs ++ take b (drop a xs) ≡ take (a + b) xs
  take-append zero b xs = ground arith
  take-append (suc a) b [] = take_nothing b ∙ sym (take_nothing (suc a + b))
  take-append (suc a) b (x ∷ xs) =
      let n : suc (a + b) ≡ suc a + b = omega arith in
      ap (λ l. x ∷ l) (take-append a b xs) ∙ ap (λ k. take k (x ∷ xs)) n

  drop-drop : (a b : ℕ) (xs : List A) → drop b (drop a xs) ≡ drop (a + b) xs
  drop-drop zero b xs = ground arith
  drop-drop (suc a) b [] = drop_nothing b ∙ sym (drop_nothing (suc a + b))
  drop-drop (suc a) b (x ∷ xs) =
      let n : suc (a + b) ≡ suc a + b = omega arith in
      drop-drop a b xs ∙ ap (λ k. drop k (x ∷ xs)) n

  take_enough : (n : ℕ) (xs : List A) → length xs ≤ n → take n xs ≡ xs
  take_enough n [] p = take_nothing n
  take_enough zero (x ∷ xs) p = ground (arith, p)
  take_enough (suc n) (x ∷ xs) p = ap (λ l. x ∷ l) (take_enough n xs (omega (arith, p)))

pub length-reversed : (xs : List ℕ) → length (reversed xs) ≡ length xs
length-reversed [] = refl
length-reversed (x ∷ xs) = omega (arith, length-append (reversed xs) (x ∷ []), length-reversed xs)

length-ranked : (s : ℕ) (ids : List ℕ) → length (ranked s ids) ≡ length ids
length-ranked s [] = refl
length-ranked s (id ∷ ids) = omega (arith, length-ranked (s + 1) ids)

ranked-take : (s n : ℕ) (ids : List ℕ) → ranked s (take n ids) ≡ take n (ranked s ids)
ranked-take s zero ids = refl
ranked-take s (suc n) [] = refl
ranked-take s (suc n) (id ∷ ids) =
    ap (λ l. record { id = id; rank = s + 1 } ∷ l) (ranked-take (s + 1) n ids)

ranked-drop : (s n : ℕ) (ids : List ℕ) → ranked (s + n) (drop n ids) ≡ drop n (ranked s ids)
ranked-drop s zero ids = ground arith
ranked-drop s (suc n) [] = refl
ranked-drop s (suc n) (id ∷ ids) = ground (arith, ranked-drop (s + 1) n ids)

-- A page of the ranking.
abbrev slice : ℕ → ℕ → List ℕ → List RankedUser
slice offset per_page ids = take per_page (drop offset (ranked 0 ids))

ranked-slice :
    (offset per_page : ℕ) (ids : List ℕ)
    → ranked offset (take per_page (drop offset ids)) ≡ slice offset per_page ids
ranked-slice offset per_page ids =
    let n : 0 + offset ≡ offset = omega arith in
    ranked-take offset per_page (drop offset ids)
    ∙ ap (take per_page) (ap (λ s. ranked s (drop offset ids)) (sym n) ∙ ranked-drop 0 offset ids)

products : (q r c : ℕ) → (q + r) * c ≡ q * c + r * c
products q r c = omega arith

next_page : (p c : ℕ) → (p + 1) * c ≡ p * c + c
next_page p c = omega arith

more_pages : (n c : ℕ) → c + n * c ≡ suc n * c
more_pages n c = omega arith

pages_enough : (total per_page : ℕ) → 0 < per_page → total ≤ count_pages total per_page * per_page
pages_enough total per_page p =
    ground (arith, products (total / per_page) (if total % per_page == 0 then 0 else 1) per_page)

module _ {F Z : Type 0} (ops : ScoreSets F Z) (per_page : ℕ) (z : Z) where
  -- So many pages from a page on, one after the other.
  abbrev pub pages_from : ℕ → ℕ → Option (List RankedUser)
  pages_from zero page = some []
  pages_from (suc n) page = do
    one ← get_leaderboard_page ops page per_page z
    rest ← pages_from n (page + 1)
    some (one.ranked_users ++ rest)

module _ {F Z : Type 0} (ops : ScoreSets F Z) (documented : Documented ops) (per_page : ℕ)
    (z : Z) where
  -- The users in order of descending scores.
  abbrev pub standing : List ℕ
  standing = reversed (ops.members z)

  get_leaderboard-slice :
      (p : ℕ)
      → 0 < per_page
      → get_leaderboard ops (p * per_page) per_page z
        ≡ some (record {
          ranked_users = slice (p * per_page) per_page standing;
          page_count = count_pages (length standing) per_page;
        })
  unfolding get_leaderboard
  get_leaderboard-slice p pos =
      let start = p * per_page in
      let some_places : (per_page == 0) ≡ false = ground arith in
      let width : suc (start + per_page - 1) - start ≡ per_page = omega arith in
      let range =
        documented.rev_range start (start + per_page - 1) z
        ∙ ap (λ n. take n (drop start standing)) width in
      let users = ap (ranked start) range ∙ ranked-slice start per_page standing in
      let total = documented.count z ∙ sym (length-reversed (ops.members z)) in
      let page : List RankedUser → ℕ → LeaderboardPage =
        λ us n. record { ranked_users = us; page_count = count_pages n per_page } in
      rw some_places (ap some (ap₂ page users total))

  get_leaderboard_page-slice :
      (p : ℕ)
      → 0 < per_page
      → get_leaderboard_page ops (p + 1) per_page z
        ≡ some (record {
          ranked_users = slice (p * per_page) per_page standing;
          page_count = count_pages (length standing) per_page;
        })
  unfolding get_leaderboard_page
  get_leaderboard_page-slice p pos =
      let start : ((if ltb (p + 1) 1 then 1 else p + 1) - 1) * per_page ≡ p * per_page =
        ap (λ k. k * per_page) (ground arith) in
      ap (λ s. get_leaderboard ops s per_page z) start ∙ get_leaderboard-slice p pos

  pages_from-slice :
      (n p : ℕ)
      → 0 < per_page
      → pages_from ops per_page z n (p + 1) ≡ some (slice (p * per_page) (n * per_page) standing)
  pages_from-slice zero p pos = ground arith
  pages_from-slice (suc n) p pos =
      let one = get_leaderboard_page-slice p pos in
      let rest = pages_from-slice n (p + 1) pos in
      let all = ranked 0 standing in
      let skip =
        ap (λ k. drop k all) (next_page p per_page) ∙ sym (drop-drop (p * per_page) per_page all) in
      let joined =
        ap (λ l. take per_page (drop (p * per_page) all) ++ take (n * per_page) l) skip
        ∙ take-append per_page (n * per_page) (drop (p * per_page) all)
        ∙ ap (λ k. take k (drop (p * per_page) all)) (more_pages n per_page) in
      rw (one, rest) (ap some joined)

  pub get_leaderboard_page-ranked :
      0 < per_page
      → (first : LeaderboardPage) × (get_leaderboard_page ops 1 per_page z ≡ some first)
        × ((p : ℕ)
            → (page : LeaderboardPage) × (get_leaderboard_page ops (p + 1) per_page z ≡ some page)
              × (page.page_count ≡ first.page_count))
        × (pages_from ops per_page z first.page_count 1 ≡ some (ranked 0 standing))
  get_leaderboard_page-ranked pos =
      let pages = count_pages (length standing) per_page in
      let all = ranked 0 standing in
      let none_skipped : 0 * per_page ≡ 0 = omega arith in
      let start : 0 + 1 ≡ 1 = refl in
      let enough : length all ≤ pages * per_page =
        omega (arith, length-ranked 0 standing, pages_enough (length standing) per_page pos) in
      (
        record { ranked_users = slice (0 * per_page) per_page standing; page_count = pages },
        get_leaderboard_page-slice 0 pos,
        λ p. (
          record { ranked_users = slice (p * per_page) per_page standing; page_count = pages },
          get_leaderboard_page-slice p pos,
          refl,
        ),
        pages_from-slice pages 0 pos
            ∙ ap some (
                ap (λ k. take (pages * per_page) (drop k all)) none_skipped
                ∙ take_enough (pages * per_page) all enough),
      )

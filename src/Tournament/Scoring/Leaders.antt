-- ===== src/Tournament/Scoring/Leaders.antt =====
-- What `findScoringTableWinners` finds in a table of whole scores.
use hexchess.Prelude.{
  length, ℕ, ◌≤◌, ◌<◌, ◌≡◌, ◌↔◌, ◌⊎◌, inl, inr, refl, Bool, true, false, Option, none, some, List,
  [], ◌∷◌, ◌++◌, ◌==◌, ltb, if◌then◌else◌, arith, ◌∈◌, ∈-append, sym, ◌∙◌, ap, subst, Bool-cases,
}
use hexchess.Tournament.Scoring.{Table, or_panic, winners_from, find_scoring_table_winners}

abbrev pub above : ℕ → ℕ → Bool
above a b = ltb b a

-- The user has an entry with the score.
abbrev pub Holds : ℕ → ℕ → Table ℕ → Type 0
Holds id v [] = ⊥
Holds id v ((k, w) ∷ t) = ((id ≡ k) × (v ≡ w)) ⊎ Holds id v t

module _ (skip : ℕ → Bool) where
  -- The highest score of the users that are not skipped, from `h` on.
  abbrev pub best : ℕ → Table ℕ → ℕ
  best h [] = h
  best h ((id, v) ∷ t) =
      let skipped = best h t in
      let leads = best v t in if skip id then skipped else if ltb h v then leads else skipped

  best_ge : (h : ℕ) (t : Table ℕ) → h ≤ best h t
  best_ge h [] = omega arith
  best_ge h ((id, v) ∷ t) = ground (arith, best_ge h t, best_ge v t)

  best_bound : (h : ℕ) (t : Table ℕ) (id v : ℕ) → Holds id v t → skip id ≡ false → v ≤ best h t
  best_bound h [] id v m s = absurd m
  best_bound h ((k, w) ∷ t) id v (inl (e1, e2)) s =
      ground (arith, ap skip e1, best_ge h t, best_ge w t)
  best_bound h ((k, w) ∷ t) id v (inr m) s =
      ground (arith, best_bound h t id v m s, best_bound w t id v m s)

  -- A user who is not skipped and has the score.
  abbrev Scores : ℕ → ℕ → Table ℕ → Type 0
  Scores id v t = Holds id v t × (skip id ≡ false)

  -- A user of the loop's result: it was there and its score was not beaten, or it has the best one.
  abbrev Leader : ℕ → ℕ → List ℕ → Table ℕ → Type 0
  Leader id h ids t = ((best h t ≡ h) × (id ∈ ids)) ⊎ Scores id (best h t) t

  winners_from-Leader :
      (h : ℕ) (ids : List ℕ) (t : Table ℕ) (id : ℕ)
      → id ∈ winners_from above ◌==◌ skip h ids t
      → Leader id h ids t
  unfolding winners_from
  winners_from-Leader h ids [] id m = inl (refl, m)
  winners_from-Leader h ids ((k, w) ∷ t) id m = elim (Bool-cases (skip k)) [
    | inl sk ↦ ground (arith, winners_from-Leader h ids t id)
    | inr ns ↦ elim (Bool-cases (w == h)) [
      | inl tied ↦
          ground (
            arith,
            winners_from-Leader h (ids ++ k ∷ []) t id,
            (∈-append id ids (k ∷ [])).0,
            ap skip,
          )
      | inr off ↦ elim (Bool-cases (ltb h w)) [
        | inl lead ↦ ground (arith, winners_from-Leader w (k ∷ []) t id)
        | inr low ↦ ground (arith, winners_from-Leader h ids t id)
      ]
    ]
  ]

  Leader-winners_from :
      (h : ℕ) (ids : List ℕ) (t : Table ℕ) (id : ℕ)
      → Leader id h ids t
      → id ∈ winners_from above ◌==◌ skip h ids t
  unfolding winners_from
  Leader-winners_from h ids [] id (inl (e, m)) = m
  Leader-winners_from h ids [] id (inr x) = absurd (x.0)
  Leader-winners_from h ids ((k, w) ∷ t) id l = elim (Bool-cases (skip k)) [
    | inl sk ↦ ground (arith, Leader-winners_from h ids t id, ap skip)
    | inr ns ↦ elim (Bool-cases (w == h)) [
      | inl tied ↦
          ground (
            arith,
            Leader-winners_from h (ids ++ k ∷ []) t id,
            (∈-append id ids (k ∷ [])).1,
            ap skip,
          )
      | inr off ↦ elim (Bool-cases (ltb h w)) [
        | inl lead ↦ ground (arith, Leader-winners_from w (k ∷ []) t id, best_ge w t, ap skip)
        | inr low ↦ ground (arith, Leader-winners_from h ids t id, best_ge h t, ap skip)
      ]
    ]
  ]

  carried :
      (k w : ℕ) (t : Table ℕ) (h b : ℕ)
      → best b ((k, w) ∷ t) ≡ best h t
      → (best h t ≡ b) ⊎ ((id : ℕ) × Scores id (best h t) t)
      → (best b ((k, w) ∷ t) ≡ b) ⊎ ((id : ℕ) × Scores id (best b ((k, w) ∷ t)) ((k, w) ∷ t))
  carried k w t h b e (inl at_start) = inl (e ∙ at_start)
  carried k w t h b e (inr (id, (m, s))) =
      inr (id, (subst (λ v. Holds id v ((k, w) ∷ t)) (sym e) (inr m), s))

  best-attained : (h : ℕ) (t : Table ℕ) → (best h t ≡ h) ⊎ ((id : ℕ) × Scores id (best h t) t)
  best-attained h [] = inl refl
  best-attained h ((k, w) ∷ t) = elim (Bool-cases (skip k)) [
    | inl sk ↦ carried k w t h h (rw sk) (best-attained h t)
    | inr ns ↦ elim (Bool-cases (ltb h w)) [
      | inl lead ↦ elim (best-attained w t) [
        | inl e ↦ inr (k, (ground arith, ns))
        | inr (id, (m, s)) ↦ inr (id, (ground arith, s))
      ]
      | inr low ↦ carried k w t h h (rw (ns, low)) (best-attained h t)
    ]
  ]

  -- A user that is not skipped, with a score that none of the others beats.
  pub record Leads (t : Table ℕ) (id : ℕ) : Type 0 where
    pub score : ℕ
    pub holds : Holds id score t
    pub kept : skip id ≡ false
    pub unbeaten : (k w : ℕ) → Holds k w t → skip k ≡ false → w ≤ score

  -- What the search returns: everyone who leads, or a panic if everyone is skipped.
  abbrev pub Found : Table ℕ → Option (List ℕ) → Type 0
  Found t none = (id v : ℕ) → Holds id v t → skip id ≡ true
  Found t (some ids) = (0 < length ids) × ((id : ℕ) → (id ∈ ids) ↔ Leads t id)

  top_score : (t : Table ℕ) (id : ℕ) (l : Leads t id) → l.score ≡ best 0 t
  top_score t id l =
      let below = best_bound 0 t id l.score l.holds l.kept in
      elim (best-attained 0 t) [
        | inl z ↦ omega (arith, z, below)
        | inr (k, (m, s)) ↦ omega (arith, l.unbeaten k (best 0 t) m s, below)
      ]

  Leader-Leads : (t : Table ℕ) (id : ℕ) → Leader id 0 [] t ↔ Leads t id
  Leader-Leads t id = (
    λ l. elim l [
      | inl x ↦ absurd (x.1)
      | inr (m, s) ↦ record {
        score = best 0 t;
        holds = m;
        kept = s;
        unbeaten = λ k w m' s'. best_bound 0 t k w m' s';
      }
    ],
    λ l. inr (subst (λ v. Holds id v t) (top_score t id l) l.holds, l.kept),
  )

  top_user : (t : Table ℕ) (id v : ℕ) → Holds id v t → skip id ≡ false → (k : ℕ) × Leads t k
  top_user t id v m s = elim (best-attained 0 t) [
    | inl z ↦ (
      id,
      record {
        score = v;
        holds = m;
        kept = s;
        unbeaten = λ k w m' s'. omega (arith, z, best_bound 0 t k w m' s');
      },
    )
    | inr (k, (m', s')) ↦ (k, (Leader-Leads t k).0 (inr (m', s')))
  ]

  of_members :
      (t : Table ℕ) (ids : List ℕ) → ((id : ℕ) → (id ∈ ids) ↔ Leads t id) → Found t (or_panic ids)
  of_members t [] e = λ id v m. elim (Bool-cases (skip id)) [
    | inl s ↦ s
    | inr n ↦ absurd ((e (top_user t id v m n).0).1 (top_user t id v m n).1)
  ]
  of_members t (x ∷ xs) e = (omega arith, e)

  -- In a table of whole scores the search finds exactly the users that it does not skip and whose
  -- score none of the others beats; it panics only where it skips everyone.
  pub find_scoring_table_winners-Found :
      (t : Table ℕ) → Found t (find_scoring_table_winners above ◌==◌ skip 0 t)
  unfolding find_scoring_table_winners
  find_scoring_table_winners-Found t = of_members t (winners_from above ◌==◌ skip 0 [] t) (λ id. (
    λ m. (Leader-Leads t id).0 (winners_from-Leader 0 [] t id m),
    λ l. Leader-winners_from 0 [] t id ((Leader-Leads t id).1 l),
  ))

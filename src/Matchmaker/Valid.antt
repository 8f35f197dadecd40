-- ===== src/Matchmaker/Valid.antt =====
-- The requests to a node of backend/service/matchmaker.go keep the map of pending users and the
-- index by rating in step.
use hexchess.Prelude.{
  ℕ, zero, suc, ◌≡◌, refl, sym, ◌∙◌, ap, Bool, true, false, Option, none, some, List, [], ◌∷◌,
  arith, All, Bool-cases, Option-cases, inl, inr, if◌then◌else◌,
}
use hexchess.Prelude.Int.{ℤ, same_id, same_id_comm, ≡-of_same_id}
use hexchess.Matchmaker.{
  Elos, PendingUser, UserEloRecord, MatchmakerState, map_get, map_delete, map_set, delete_func,
  insert, insert_pending_user, delete_pending_user,
}
use hexchess.Matchmaker.Index.{IsElos, Sorted, insert_record-Sorted}

same_id_trans : (a b c : ℤ) → same_id a b ≡ true → same_id a c ≡ same_id b c
same_id_trans a b c e = ap (λ x. same_id x c) (≡-of_same_id a b e)

-- A user that is not the second one is not both.
same_id_apart : (a b c : ℤ) → same_id a b ≡ false → same_id a c ≡ true → same_id b c ≡ false
same_id_apart a b c e s = sym (same_id_comm c b) ∙ sym (same_id_trans a c b s) ∙ e

module _ {A : Type 0} where
  pub map_get-delete :
      (k id : ℤ) (m : List (ℤ × A))
      → map_get id (map_delete k m) ≡ (if same_id k id then none else map_get id m)
  map_get-delete k id [] = ground arith
  map_get-delete k id ((key, v) ∷ m) = elim (Bool-cases (same_id key k)) [
    | inl e ↦ ground (arith, e, map_get-delete k id m, same_id_trans key k id e)
    | inr e ↦ elim (Bool-cases (same_id key id)) [
      | inl s ↦ ground (arith, e, s, same_id_apart key k id e s)
      | inr s ↦ ground (arith, e, s, map_get-delete k id m)
    ]
  ]

module _ {Elo : Type 0} where
  -- The ratings of a user in the index, and in the map.
  abbrev pub listed_elos : ℤ → List (UserEloRecord Elo) → List Elo
  listed_elos id [] = []
  listed_elos id (r ∷ rs) =
      let rest = listed_elos id rs in if same_id r.user_id id then r.user_elo ∷ rest else rest

  abbrev pub elos_of : Option (PendingUser Elo) → List Elo
  elos_of none = []
  elos_of (some u) = u.user_elo ∷ []

  listed_elos-delete :
      (k id : ℤ) (xs : List (UserEloRecord Elo))
      → listed_elos id (delete_func (λ r. same_id r.user_id k) xs)
        ≡ (if same_id k id then [] else listed_elos id xs)
  listed_elos-delete k id [] = ground arith
  listed_elos-delete k id (x ∷ xs) = elim (Bool-cases (same_id x.user_id k)) [
    | inl e ↦ ground (arith, e, listed_elos-delete k id xs, same_id_trans x.user_id k id e)
    | inr e ↦ elim (Bool-cases (same_id x.user_id id)) [
      | inl s ↦ ground (arith, e, s, same_id_apart x.user_id k id e s, listed_elos-delete k id xs)
      | inr s ↦ ground (arith, e, s, listed_elos-delete k id xs)
    ]
  ]

  listed_elos-insert :
      (xs ys : List (UserEloRecord Elo)) (i : ℕ) (r : UserEloRecord Elo) (id : ℤ)
      → insert xs i r ≡ some ys
      → (same_id r.user_id id ≡ true → listed_elos id xs ≡ [])
      → listed_elos id ys ≡ (if same_id r.user_id id then r.user_elo ∷ [] else listed_elos id xs)
  listed_elos-insert xs ys zero r id e absent =
      let same : (r ∷ xs) ≡ ys = cc in
      rw⁻¹ same (elim (Bool-cases (same_id r.user_id id)) [
        | inl s ↦ ground (arith, s, absent s)
        | inr s ↦ ground (arith, s)
      ])
  listed_elos-insert [] ys (suc i) r id e absent = cc
  listed_elos-insert (x ∷ xs) ys (suc i) r id e absent = elim (Option-cases (insert xs i r)) [
    | inl n ↦ cc (rw n at e)
    | inr (zs, q) ↦
        let same : (x ∷ zs) ≡ ys = cc (rw q at e) in
        rw⁻¹ same (elim (Bool-cases (same_id x.user_id id)) [
          | inl s ↦ elim (Bool-cases (same_id r.user_id id)) [
            | inl t ↦ cc (rw s at absent t)
            | inr t ↦ ground (arith, s, t, listed_elos-insert xs zs i r id q (λ u. cc))
          ]
          | inr s ↦ ground (arith, s, listed_elos-insert xs zs i r id q (λ t. rw s at absent t))
        ])
  ]

  -- A user who is pending already stays so, with the rating they had.
  abbrev pub after_insert : PendingUser Elo → MatchmakerState Elo → ℤ → Option (PendingUser Elo)
  after_insert u s id =
      if same_id u.user_id id
      then elim (map_get u.user_id s.pending_users) [ none ↦ some u | some w ↦ some w ]
      else map_get id s.pending_users

-- The index is sorted, and lists every pending user once, with the rating in the map, and nobody else.
pub record Valid {Elo : Type 0} (elos : Elos Elo) (s : MatchmakerState Elo) : Type 0 where
  pub sorted : Sorted elos s.user_elo_idx
  pub listed : (id : ℤ) → listed_elos id s.user_elo_idx ≡ elos_of (map_get id s.pending_users)

module _ {Elo : Type 0} (elos : Elos Elo) (laws : IsElos elos) where
  -- The pending users after a user was added.
  abbrev pub Inserted : PendingUser Elo → MatchmakerState Elo → MatchmakerState Elo → Type 0
  Inserted u s s' =
      (map_get u.user_id s.pending_users ≡ none)
      × ((id : ℤ)
          → map_get id s'.pending_users
            ≡ (if same_id u.user_id id then some u else map_get id s.pending_users))

  inserted :
      (u : PendingUser Elo) (s : MatchmakerState Elo)
      → Valid elos s
      → map_get u.user_id s.pending_users ≡ none
      → (s' : MatchmakerState Elo) × (insert_pending_user elos u s ≡ some s')
        × Valid elos s'
        × Inserted u s s'
        × (s'.match_proposals ≡ s.match_proposals)
  unfolding insert_pending_user
  inserted u s v n =
      let r : UserEloRecord Elo = record { user_id = u.user_id; user_elo = u.user_elo } in
      let (i, ys, e, at, sorted) = insert_record-Sorted elos laws s.user_elo_idx r v.sorted in
      let absent : (id : ℤ) → same_id u.user_id id ≡ true → listed_elos id s.user_elo_idx ≡ [] =
        λ id t. v.listed id ∙ rw (← ≡-of_same_id u.user_id id t, n) refl in
      (
        record s { pending_users = map_set u.user_id u s.pending_users; user_elo_idx = ys },
        ground (arith, n, e),
        record {
          sorted = sorted;
          listed = λ id. elim (Bool-cases (same_id u.user_id id)) [
            | inl t ↦
                ground (arith, t, listed_elos-insert s.user_elo_idx ys i r id at (λ w. absent id w))
            | inr t ↦ ground (
              arith,
              t,
              v.listed id,
              map_get-delete u.user_id id s.pending_users,
              listed_elos-insert s.user_elo_idx ys i r id at (λ w. cc),
            )
          ];
        },
        (n, λ id. ground (arith, map_get-delete u.user_id id s.pending_users)),
        refl,
      )

  pub insert_pending_user-Valid :
      (u : PendingUser Elo) (s : MatchmakerState Elo)
      → Valid elos s
      → (s' : MatchmakerState Elo) × (insert_pending_user elos u s ≡ some s')
        × Valid elos s'
        × ((id : ℤ) → map_get id s'.pending_users ≡ after_insert u s id)
        × (s'.match_proposals ≡ s.match_proposals)
  unfolding insert_pending_user
  insert_pending_user-Valid u s v = elim (Option-cases (map_get u.user_id s.pending_users)) [
    | inl n ↦
        let (s', e, v', (_, got), same) = inserted u s v n in
        (s', e, v', (λ id. got id ∙ rw n refl), same)
    | inr (w, q) ↦ (s, ground (arith, q), v, (λ id. unchanged w id q), refl)
  ]
    where
      unchanged :
          (w : PendingUser Elo) (id : ℤ)
          → map_get u.user_id s.pending_users ≡ some w
          → map_get id s.pending_users ≡ after_insert u s id
      unchanged w id q = elim (Bool-cases (same_id u.user_id id)) [
        | inl t ↦ rw (t, q) (rw (← ≡-of_same_id u.user_id id t) q)
        | inr t ↦ rw t refl
      ]

  delete_func-All :
      {A : Type 0} (P : A → Type 0) (p : A → Bool) (xs : List A)
      → All P xs
      → All P (delete_func p xs)
  delete_func-All P p [] h = tt
  delete_func-All P p (x ∷ xs) (q, h) = elim (Bool-cases (p x)) [
    | inl e ↦ rw e (delete_func-All P p xs h)
    | inr e ↦ rw e (q, delete_func-All P p xs h)
  ]

  pub delete_func-Sorted :
      (p : UserEloRecord Elo → Bool) (xs : List (UserEloRecord Elo))
      → Sorted elos xs
      → Sorted elos (delete_func p xs)
  delete_func-Sorted p [] s = tt
  delete_func-Sorted p (x ∷ xs) (h, s) = elim (Bool-cases (p x)) [
    | inl e ↦ rw e (delete_func-Sorted p xs s)
    | inr e ↦ rw e (
      delete_func-All (λ q. elos.le x.user_elo q.user_elo ≡ true) p xs h,
      delete_func-Sorted p xs s,
    )
  ]

  pub delete_pending_user-Valid :
      (k : ℤ) (s : MatchmakerState Elo) → Valid elos s → Valid elos (delete_pending_user elos k s)
  unfolding delete_pending_user
  delete_pending_user-Valid k s v = record {
    sorted = delete_func-Sorted (λ r. same_id r.user_id k) s.user_elo_idx v.sorted;
    listed = λ id. elim (Bool-cases (same_id k id)) [
      | inl t ↦
          ground
            (arith, t, listed_elos-delete k id s.user_elo_idx, map_get-delete k id s.pending_users)
      | inr t ↦ ground (
        arith,
        t,
        v.listed id,
        listed_elos-delete k id s.user_elo_idx,
        map_get-delete k id s.pending_users,
      )
    ];
  }

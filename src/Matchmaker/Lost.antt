-- ===== src/Matchmaker/Lost.antt =====
-- What `tick` of backend/service/matchmaker.go does to the pending users.
use hexchess.Prelude.{
  ℕ, ◌*◌, ◌≡◌, refl, ◌∙◌, ap, Bool, true, false, none, List, [], ◌∷◌, append-nil, arith, All,
  Bool-cases, Option-cases, inl, inr, ◌⊎◌, if◌then◌else◌,
}
use hexchess.Prelude.Int.{ℤ, same_id, same_id_refl, ≡-of_same_id}
use hexchess.Matchmaker.{
  Elos, PendingUser, UserEloRecord, MatchmakerState, map_get, map_delete, map_delete_all,
  delete_func, contains_id, pending_user, delete_pending_users,
}
use hexchess.Matchmaker.Index.{IsElos}
use hexchess.Matchmaker.Valid.{Valid, listed_elos, elos_of, map_get-delete}
use hexchess.Matchmaker.Ticking.{
  Found, is_in_range, get_elo_range, find_partner, find_pairs, find_potential_proposals,
  nothing_pending, count_ticks, tick,
}

contains_id-cons :
    (id x : ℤ) (ids : List ℤ) → contains_id id ids ≡ true → contains_id id (x ∷ ids) ≡ true
contains_id-cons id x ids e = ground (arith, e)

module _ {Elo : Type 0} (elos : Elos Elo) (laws : IsElos elos) (tick_factor : ℕ) where
  -- Everyone is in the range around their own rating.
  in_own_range :
      (u : PendingUser Elo)
      → is_in_range elos tick_factor u (get_elo_range elos tick_factor u) ≡ true
  in_own_range u = ground (
    arith,
    laws.from_minus u.user_elo (u.ticks * tick_factor),
    laws.to_plus u.user_elo (u.ticks * tick_factor),
  )

  -- The inner loop begins with the current user itself, and so pairs that user with itself.
  self_paired :
      (s : MatchmakerState Elo) (r : UserEloRecord Elo) (rs : List (UserEloRecord Elo))
      (found : Found elos tick_factor)
      → contains_id r.user_id found.1 ≡ false
      → (find_partner elos tick_factor s r.user_id (r ∷ rs) found).1
        ≡ r.user_id ∷ r.user_id ∷ found.1
  unfolding find_partner
  self_paired s r rs (proposals, paired) n =
      rw (n, in_own_range (pending_user elos s r.user_id)) refl

  -- The users that were paired before stay so.
  after_one :
      (s : MatchmakerState Elo) (r : UserEloRecord Elo) (rs : List (UserEloRecord Elo))
      → Found elos tick_factor
      → Found elos tick_factor
  after_one s r rs (proposals, paired) =
      if contains_id r.user_id paired
      then (proposals, paired)
      else find_partner elos tick_factor s r.user_id (r ∷ rs) (proposals, paired)

  after_one-contains :
      (s : MatchmakerState Elo) (r : UserEloRecord Elo) (rs : List (UserEloRecord Elo))
      (found : Found elos tick_factor) (id : ℤ)
      → contains_id id found.1 ≡ true
      → contains_id id (after_one s r rs found).1 ≡ true
  unfolding after_one
  after_one-contains s r rs (proposals, paired) id e =
      elim (Bool-cases (contains_id r.user_id paired)) [
        | inl c ↦ rw c e
        | inr c ↦
            rw (c, self_paired s r rs (proposals, paired) c)
              (contains_id-cons id r.user_id (r.user_id ∷ paired)
                (contains_id-cons id r.user_id paired e))
      ]

  after_one-itself :
      (s : MatchmakerState Elo) (r : UserEloRecord Elo) (rs : List (UserEloRecord Elo))
      (found : Found elos tick_factor)
      → contains_id r.user_id (after_one s r rs found).1 ≡ true
  unfolding after_one
  after_one-itself s r rs (proposals, paired) = elim (Bool-cases (contains_id r.user_id paired)) [
    | inl c ↦ rw c c
    | inr c ↦ rw (c, self_paired s r rs (proposals, paired) c, same_id_refl r.user_id) refl
  ]

  find_pairs-contains :
      (s : MatchmakerState Elo) (rs : List (UserEloRecord Elo)) (found : Found elos tick_factor)
      (id : ℤ)
      → contains_id id found.1 ≡ true
      → contains_id id (find_pairs elos tick_factor s rs found).1 ≡ true
  unfolding find_pairs after_one
  find_pairs-contains s [] found id e = e
  find_pairs-contains s (r ∷ rs) (proposals, paired) id e =
      find_pairs-contains s rs (after_one s r rs (proposals, paired)) id
        (after_one-contains s r rs (proposals, paired) id e)

  find_pairs-AllPaired :
      (s : MatchmakerState Elo) (rs : List (UserEloRecord Elo)) (found : Found elos tick_factor)
      → All (λ r. contains_id r.user_id (find_pairs elos tick_factor s rs found).1 ≡ true) rs
  unfolding find_pairs after_one
  find_pairs-AllPaired s [] found = tt
  find_pairs-AllPaired s (r ∷ rs) (proposals, paired) =
      let next = after_one s r rs (proposals, paired) in
      (
        find_pairs-contains s rs next r.user_id (after_one-itself s r rs (proposals, paired)),
        find_pairs-AllPaired s rs next,
      )

delete_func-empty :
    {A : Type 0} (p : A → Bool) (xs : List A) → All (λ x. p x ≡ true) xs → delete_func p xs ≡ []
delete_func-empty p [] h = refl
delete_func-empty p (x ∷ xs) (e, h) = rw e (delete_func-empty p xs h)

map_get-delete_all :
    {Elo : Type 0} (elos : Elos Elo) (id : ℤ) (ids : List ℤ) (m : List (ℤ × PendingUser Elo))
    → (contains_id id ids ≡ true) ⊎ (map_get id m ≡ none)
    → map_get id (map_delete_all elos ids m) ≡ none
map_get-delete_all elos id [] m (inl e) = absurd (ground (arith, e))
map_get-delete_all elos id [] m (inr n) = n
map_get-delete_all elos id (x ∷ ids) m (inr n) =
    map_get-delete_all elos id ids (map_delete x m) (inr (ground (arith, n, map_get-delete x id m)))
map_get-delete_all elos id (x ∷ ids) m (inl e) = elim (Bool-cases (same_id x id)) [
  | inl s ↦
      map_get-delete_all elos id ids (map_delete x m)
        (inr (ground (arith, s, map_get-delete x id m)))
  | inr s ↦ map_get-delete_all elos id ids (map_delete x m) (inl (ground (arith, s, e)))
]

-- Who has a rating in the index has a record there.
listed-paired :
    {Elo : Type 0} (id : ℤ) (ids : List ℤ) (rs : List (UserEloRecord Elo)) (e : Elo)
    → listed_elos id rs ≡ e ∷ []
    → All (λ r. contains_id r.user_id ids ≡ true) rs
    → contains_id id ids ≡ true
listed-paired id ids [] e q h = cc
listed-paired id ids (r ∷ rs) e q (c, h) = elim (Bool-cases (same_id r.user_id id)) [
  | inl s ↦ rw (≡-of_same_id r.user_id id s) at c
  | inr s ↦ listed-paired id ids rs e (rw s at q) h
]

-- What a tick leaves where somebody was waiting.
pub record Emptied {Elo : Type 0} (s s' : MatchmakerState Elo) : Type 0 where
  pub index : s'.user_elo_idx ≡ []
  pub nobody : (id : ℤ) → map_get id s'.pending_users ≡ none
  pub proposals : s'.match_proposals ≡ s.match_proposals

module _ {Elo : Type 0} (elos : Elos Elo) (laws : IsElos elos) (tick_factor : ℕ) where
  -- A tick pairs every pending user with itself, forgets the proposals that it found, and
  -- deletes everyone it paired: unless there is nobody and no proposal to begin with, it leaves
  -- nobody pending and not one proposal more.
  pub tick-Emptied :
      (s : MatchmakerState Elo)
      → Valid elos s
      → nothing_pending elos tick_factor s ≡ false
      → Emptied s (tick elos tick_factor s)
  unfolding tick find_potential_proposals delete_pending_users count_ticks
  tick-Emptied s v n =
      let paired = (find_pairs elos tick_factor s s.user_elo_idx ([], [])).1 in
      let done = find_pairs-AllPaired elos laws tick_factor s s.user_elo_idx ([], []) in
      let gone = delete_func-empty (λ r. contains_id r.user_id paired) s.user_elo_idx done in
      let nobody : (id : ℤ) → map_get id (map_delete_all elos paired s.pending_users) ≡ none = λ id.
        elim (Option-cases (map_get id s.pending_users)) [
          | inl q ↦ map_get-delete_all elos id paired s.pending_users (inr q)
          | inr (u, q) ↦ map_get-delete_all elos id paired s.pending_users (
              inl (
                listed-paired id paired s.user_elo_idx u.user_elo (v.listed id ∙ ap elos_of q)
                  done))
        ] in
      rw (n, gone)
        (record { index = refl; nobody = nobody; proposals = append-nil s.match_proposals })

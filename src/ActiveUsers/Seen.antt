-- ===== src/ActiveUsers/Seen.antt =====
-- Whom backend/service/activeuser.go takes for connected, after any calls.
use hexchess.Prelude.{
  ℕ, ◌≡◌, refl, ◌∙◌, ap, Bool, true, not, ◌&&◌, ◌+◌, ◌-◌, Option, none, some, List, [], ◌∷◌, length,
  leb, ltb, if◌then◌else◌, Bool-cases, Option-cases, inl, inr, arith,
}
use hexchess.Model.Enums.{Text, same_text, same_text_refl, ≡-of_same_text}
use hexchess.Cache.{
  is_member, first_score, new_score, contains_text, all_distinct, SortedSets, Documented,
}
use hexchess.ActiveUsers.{
  active_user_max_age, is_active_user, remove_expired, get_active_count, retain_active_user,
  add_active_user, remove_active_user,
}

-- A request to the service, at its time.
pub data Call : Type 0 where
  count : ℕ → Call
  retain add remove : ℕ → Text → Call

-- The time of one user's entry, if there is one: the first AddActiveUser sets it, later ones keep it,
-- RetainActiveUser moves it, RemoveActiveUser takes it away, and after five minutes it expires.
abbrev pub expired : ℕ → Option ℕ → Option ℕ
expired now none = none
expired now (some seen) = if leb (seen + active_user_max_age) now then none else some seen

abbrev pub follow : Text → Call → Option ℕ → Option ℕ
follow id (count now) seen = expired now seen
follow id (retain now user) seen = if same_text id user then new_score seen now else seen
follow id (add now user) seen =
    expired now (if same_text id user then some (first_score seen now) else seen)
follow id (remove now user) seen = expired now (if same_text id user then none else seen)

abbrev pub follow_all : Text → List Call → Option ℕ → Option ℕ
follow_all id [] seen = seen
follow_all id (c ∷ cs) seen = follow_all id cs (follow id c seen)

-- Every call is made within five minutes of the time of the user's entry, and none removes it.
abbrev pub is_kept : Text → List Call → ℕ → Bool
is_kept id [] seen = true
is_kept id (count now ∷ cs) seen = ltb now (seen + active_user_max_age) && is_kept id cs seen
is_kept id (retain now user ∷ cs) seen = is_kept id cs (if same_text id user then now else seen)
is_kept id (add now user ∷ cs) seen = ltb now (seen + active_user_max_age) && is_kept id cs seen
is_kept id (remove now user ∷ cs) seen =
    ltb now (seen + active_user_max_age) && not (same_text id user) && is_kept id cs seen

module _ {Z : Type 0} (ops : SortedSets Z) where
  abbrev pub call : Call → Z → Z
  call (count now) z = (get_active_count ops now z).users
  call (retain now id) z = retain_active_user ops now id z
  call (add now id) z = (add_active_user ops now id z).users
  call (remove now id) z = (remove_active_user ops now id z).users

  abbrev pub call_all : List Call → Z → Z
  call_all [] z = z
  call_all (c ∷ cs) z = call_all cs (call c z)

is_kept_seen :
    (id : Text) (calls : List Call) (seen : ℕ)
    → is_kept id calls seen ≡ true
    → is_member (follow_all id calls (some seen)) ≡ true
is_kept_seen id [] seen p = refl
is_kept_seen id (count now ∷ cs) seen p =
    let o : expired now (some seen) ≡ some seen = ground (arith, p) in
    ap (λ s. is_member (follow_all id cs s)) o ∙ is_kept_seen id cs seen (ground (arith, p))
is_kept_seen id (retain now user ∷ cs) seen p = elim (Bool-cases (same_text id user)) [
  | inl e ↦ ground (arith, e, p, is_kept_seen id cs now)
  | inr e ↦ ground (arith, e, p, is_kept_seen id cs seen)
]
is_kept_seen id (add now user ∷ cs) seen p =
    let o : follow id (add now user) (some seen) ≡ some seen = ground (arith, p) in
    ap (λ s. is_member (follow_all id cs s)) o ∙ is_kept_seen id cs seen (ground (arith, p))
is_kept_seen id (remove now user ∷ cs) seen p =
    let o : follow id (remove now user) (some seen) ≡ some seen = ground (arith, p) in
    ap (λ s. is_member (follow_all id cs s)) o ∙ is_kept_seen id cs seen (ground (arith, p))

module _ {Z : Type 0} (ops : SortedSets Z) (documented : Documented ops) where
  remove_expired-expired :
      (now : ℕ) (z : Z) (id : Text)
      → ops.zscore id (remove_expired ops now z) ≡ expired now (ops.zscore id z)
  unfolding remove_expired
  remove_expired-expired now z id =
      let removed = documented.score_zrem_range (now - active_user_max_age) z id in
      elim (Option-cases (ops.zscore id z)) [
        | inl e ↦ ground (arith, e, removed)
        | inr (seen, e) ↦ ground (arith, e, removed)
      ]

  -- The score of the member that a command names.
  of_member :
      (f : Option ℕ → Option ℕ) (id user : Text) (z : Z)
      → (if same_text id user then f (ops.zscore user z) else ops.zscore id z)
        ≡ (if same_text id user then f (ops.zscore id z) else ops.zscore id z)
  of_member f id user z = elim (Bool-cases (same_text id user)) [
    | inl e ↦ ground (arith, e, ap (λ u. f (ops.zscore u z)) (≡-of_same_text id user e))
    | inr e ↦ ground (arith, e)
  ]

  call-follow :
      (c : Call) (z : Z) (id : Text) → ops.zscore id (call ops c z) ≡ follow id c (ops.zscore id z)
  unfolding get_active_count retain_active_user add_active_user remove_active_user
  call-follow (count now) z id = remove_expired-expired now z id
  call-follow (retain now user) z id =
      documented.score_zadd_xx now user z id ∙ of_member (λ o. new_score o now) id user z
  call-follow (add now user) z id =
      remove_expired-expired now (ops.zadd_nx now user z) id
      ∙ ap (expired now) (
          documented.score_zadd_nx now user z id
          ∙ of_member (λ o. some (first_score o now)) id user z)
  call-follow (remove now user) z id =
      remove_expired-expired now (ops.zrem (user ∷ []) z) id
      ∙ ap (expired now) (ground (arith, documented.score_zrem (user ∷ []) z id))

  call_all-follow_all :
      (calls : List Call) (z : Z) (id : Text)
      → ops.zscore id (call_all ops calls z) ≡ follow_all id calls (ops.zscore id z)
  call_all-follow_all [] z id = refl
  call_all-follow_all (c ∷ cs) z id =
      call_all-follow_all cs (call ops c z) id ∙ ap (follow_all id cs) (call-follow c z id)

  -- After any calls, a user is active exactly if its own calls and the passing of time left it so,
  -- whatever the other users do.
  pub is_active_user-call_all :
      (calls : List Call) (z : Z) (id : Text)
      → is_active_user ops id (call_all ops calls z)
        ≡ is_member (follow_all id calls (ops.zscore id z))
  unfolding is_active_user
  is_active_user-call_all calls z id = ap is_member (call_all-follow_all calls z id)

  -- The count that is returned and broadcast after any calls is the number of the users who have an
  -- entry that is less than five minutes old, each counted once. The time of an entry is that of the
  -- AddActiveUser that made it or of the last RetainActiveUser since; an AddActiveUser of a user who
  -- has an entry does not move it.
  pub get_active_count-call_all :
      (calls : List Call) (now : ℕ) (z : Z)
      → (l : List Text) × (all_distinct l ≡ true)
        × ((id : Text)
            → contains_text l id ≡ is_member (expired now (follow_all id calls (ops.zscore id z))))
        × ((get_active_count ops now (call_all ops calls z)).count ≡ length l)
  unfolding get_active_count
  get_active_count-call_all calls now z =
      let before : Z = call_all ops calls z in
      let members = documented.card (remove_expired ops now before) in
      (
        members.0,
        members.1.distinct,
        λ id.
            members.1.listed id
            ∙ ap is_member (
                remove_expired-expired now before id
                ∙ ap (expired now) (call_all-follow_all calls z id)),
        members.2,
      )

  -- A user who is in the set stays active through any calls, as long as each that removes old
  -- entries comes less than five minutes after the user's last `RetainActiveUser`, and none is the
  -- user's own `RemoveActiveUser`.
  pub is_active_user_kept :
      (calls : List Call) (z : Z) (id : Text) (seen : ℕ)
      → ops.zscore id z ≡ some seen
      → is_kept id calls seen ≡ true
      → is_active_user ops id (call_all ops calls z) ≡ true
  is_active_user_kept calls z id seen e p =
      is_active_user-call_all calls z id
      ∙ ap (λ o. is_member (follow_all id calls o)) e
      ∙ is_kept_seen id calls seen p

  -- After `AddActiveUser` a user is active if it had no entry or one that is less than five minutes
  -- old, and only then: an older entry keeps its time, and the count removes it.
  pub add_active_user-is_active_user :
      (now : ℕ) (id : Text) (z : Z)
      → is_active_user ops id (add_active_user ops now id z).users
        ≡ is_member (expired now (some (first_score (ops.zscore id z) now)))
  unfolding is_active_user
  add_active_user-is_active_user now id z =
      ap is_member (call-follow (add now id) z id)
      ∙ ap
          (λ c.
            is_member (
              expired now
                (if c then some (first_score (ops.zscore id z) now) else ops.zscore id z)))
          (same_text_refl id)

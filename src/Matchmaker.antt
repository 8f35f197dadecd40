-- ===== src/Matchmaker.antt =====
-- The matchmaker of a game mode: `matchmakerNode` of backend/service/matchmaker.go. A request, or a
-- tick, takes the state of the node to the next one, with the messages that it sends.
pub mod Index
pub mod Valid
pub mod Channels
pub mod Requests
pub mod Serving
pub mod Ticking
pub mod Lost
mod Witnesses
use hexchess.Prelude.{
  ℕ, zero, suc, ◌*◌, Bool, true, false, not, ◌&&◌, ◌||◌, Option, none, some, List, [], ◌∷◌, ◌++◌,
  length, get_elem?, leb, if◌then◌else◌, ◌>>=◌,
}
use hexchess.Prelude.Int.{ℤ, pos, same_id}
use hexchess.Prelude.Search.{sort_search}

-- float64, as far as ratings use it.
pub record Elos (Elo : Type 0) : Type 0 where
  pub le : Elo → Elo → Bool
  -- Adding and taking away a whole number.
  pub plus : Elo → ℕ → Elo
  pub minus : Elo → ℕ → Elo
  -- The zero value.
  pub nought : Elo

-- Channels are names; `none` is nil.
pub record PendingUser (Elo : Type 0) : Type 0 where
  pub user_id : ℤ
  pub user_elo : Elo
  pub ticks : ℕ
  pub response_chan : Option ℕ

pub record UserEloRecord (Elo : Type 0) : Type 0 where
  pub user_id : ℤ
  pub user_elo : Elo

pub record MatchProposal (Elo : Type 0) : Type 0 where
  pub user_one : PendingUser Elo
  pub user_two : PendingUser Elo
  pub user_one_accept : Bool
  pub user_two_accept : Bool

pub record PotentialProposal : Type 0 where
  pub user_one_id : ℤ
  pub user_two_id : ℤ

-- Maps are association lists.
pub record MatchmakerState (Elo : Type 0) : Type 0 where
  pub pending_users : List (ℤ × PendingUser Elo)
  pub user_elo_idx : List (UserEloRecord Elo)
  pub match_proposals : List (MatchProposal Elo)
  pub potential_proposals : List PotentialProposal
  pub paired_users : List ℤ

pub data MatchRequestKind : Type 0 where
  begin_match_request confirm_match_request cancel_match_request : MatchRequestKind

pub record MatchmakingRequest (Elo : Type 0) : Type 0 where
  pub kind : MatchRequestKind
  pub user_id : ℤ
  pub user_elo : Elo
  pub response_chan : Option ℕ

pub data MatchResponse : Type 0 where
  response_join response_cancel : MatchResponse
  response_confirmation : ℤ → ℤ → MatchResponse

-- What is done to channels.
pub data Action : Type 0 where
  send : Option ℕ → MatchResponse → Action
  close : Option ℕ → Action

module _ {A : Type 0} where
  abbrev pub map_get : ℤ → List (ℤ × A) → Option A
  map_get k [] = none
  map_get k ((key, v) ∷ m) = if same_id key k then some v else map_get k m

  abbrev pub map_delete : ℤ → List (ℤ × A) → List (ℤ × A)
  map_delete k [] = []
  map_delete k ((key, v) ∷ m) =
      let rest = map_delete k m in if same_id key k then rest else (key, v) ∷ rest

  abbrev pub map_set : ℤ → A → List (ℤ × A) → List (ℤ × A)
  map_set k v m = (k, v) ∷ map_delete k m

  -- `slices.DeleteFunc`.
  abbrev pub delete_func : (A → Bool) → List A → List A
  delete_func p [] = []
  delete_func p (x ∷ xs) = let rest = delete_func p xs in if p x then rest else x ∷ rest

  -- `slices.Insert`, which panics beyond the end.
  abbrev pub insert : List A → ℕ → A → Option (List A)
  insert xs zero v = some (v ∷ xs)
  insert [] (suc i) v = none
  insert (x ∷ xs) (suc i) v = do ys ← insert xs i v; some (x ∷ ys)

  -- An assignment to an element, and `slices.Delete` of one; both panic beyond the end.
  abbrev pub set_at : List A → ℕ → A → Option (List A)
  set_at [] i v = none
  set_at (x ∷ xs) zero v = some (v ∷ xs)
  set_at (x ∷ xs) (suc i) v = do ys ← set_at xs i v; some (x ∷ ys)

  abbrev pub delete_at : List A → ℕ → Option (List A)
  delete_at [] i = none
  delete_at (x ∷ xs) zero = some xs
  delete_at (x ∷ xs) (suc i) = do ys ← delete_at xs i; some (x ∷ ys)

abbrev pub contains_id : ℤ → List ℤ → Bool
contains_id k [] = false
contains_id k (x ∷ xs) = same_id x k || contains_id k xs

module _ {Elo : Type 0} (elos : Elos Elo) where
  abbrev pub zero_user : PendingUser Elo
  zero_user = record { user_id = pos 0; user_elo = elos.nought; ticks = 0; response_chan = none }

  -- `state.PendingUsers[userID]`.
  abbrev pub pending_user : MatchmakerState Elo → ℤ → PendingUser Elo
  pending_user s id = elim (map_get id s.pending_users) [ none ↦ zero_user | some u ↦ u ]

  abbrev pub elo_test : List (UserEloRecord Elo) → Elo → ℕ → Option Bool
  elo_test idx elo i = do r ← get_elem? idx i; some (elos.le elo r.user_elo)

  -- The branch with `append` is never taken, since an index is at least 0.
  abbrev pub insert_record :
      UserEloRecord Elo → List (UserEloRecord Elo) → Option (List (UserEloRecord Elo))
  insert_record r idx = do i ← sort_search (length idx) (elo_test idx r.user_elo); insert idx i r

  unfoldable pub insert_pending_user :
      PendingUser Elo → MatchmakerState Elo → Option (MatchmakerState Elo)
  insert_pending_user u s = elim (map_get u.user_id s.pending_users) [
    | some v ↦ some s
    | none ↦ do
      idx ← insert_record (record { user_id = u.user_id; user_elo = u.user_elo }) s.user_elo_idx
      some (record s { pending_users = map_set u.user_id u s.pending_users; user_elo_idx = idx })
  ]

  unfoldable pub delete_pending_user : ℤ → MatchmakerState Elo → MatchmakerState Elo
  delete_pending_user id s = record s {
    pending_users = map_delete id s.pending_users;
    user_elo_idx = delete_func (λ r. same_id r.user_id id) s.user_elo_idx;
  }

  abbrev pub map_delete_all : List ℤ → List (ℤ × PendingUser Elo) → List (ℤ × PendingUser Elo)
  map_delete_all [] m = m
  map_delete_all (id ∷ ids) m = map_delete_all ids (map_delete id m)

  unfoldable pub delete_pending_users : List ℤ → MatchmakerState Elo → MatchmakerState Elo
  delete_pending_users ids s = record s {
    pending_users = map_delete_all ids s.pending_users;
    user_elo_idx = delete_func (λ r. contains_id r.user_id ids) s.user_elo_idx;
  }

  abbrev pub has_user : ℤ → MatchProposal Elo → Bool
  has_user id p = same_id id p.user_one.user_id || same_id id p.user_two.user_id

  -- The proposal of a user and its index; `none` is the index -1.
  abbrev pub get_match_proposal : ℤ → List (MatchProposal Elo) → Option (MatchProposal Elo × ℕ)
  get_match_proposal id [] = none
  get_match_proposal id (p ∷ ps) =
      let rest = get_match_proposal id ps in
      if has_user id p then some (p, 0) else (do (q, i) ← rest; some (q, suc i))

  unfoldable pub handle_begin_request :
      MatchmakingRequest Elo → MatchmakerState Elo → Option (MatchmakerState Elo × List Action)
  handle_begin_request r s = do
    s' ←
        insert_pending_user
          (record {
            user_id = r.user_id;
            user_elo = r.user_elo;
            ticks = 0;
            response_chan = r.response_chan;
          })
          s
    some (s', send r.response_chan response_join ∷ [])

  -- The flag that the request sets.
  abbrev pub confirmed : ℤ → MatchProposal Elo → MatchProposal Elo
  confirmed id p =
      if same_id id p.user_one.user_id
      then record p { user_one_accept = true }
      else if same_id id p.user_two.user_id
      then record p { user_two_accept = true }
      else p

  abbrev pub accepted_by_both : MatchProposal Elo → Bool
  accepted_by_both p = p.user_one_accept && p.user_two_accept

  abbrev pub confirmations : MatchProposal Elo → List Action
  confirmations p =
      let response = response_confirmation p.user_one.user_id p.user_two.user_id in
      send p.user_one.response_chan response
      ∷ send p.user_two.response_chan response
      ∷ close p.user_one.response_chan
      ∷ close p.user_two.response_chan
      ∷ []

  -- After `setMatchProposal`.
  abbrev pub settle_proposal :
      MatchProposal Elo → ℕ → MatchmakerState Elo → Option (MatchmakerState Elo × List Action)
  settle_proposal p i s =
      if accepted_by_both p
      then (do
        ps ← delete_at s.match_proposals i
        some (record s { match_proposals = ps }, confirmations p))
      else some (s, [])

  abbrev pub confirm_found :
      ℤ
      → Option (MatchProposal Elo × ℕ)
      → MatchmakerState Elo
      → Option (MatchmakerState Elo × List Action)
  confirm_found id none s = some (s, [])
  confirm_found id (some (p, i)) s = do
    ps ← set_at s.match_proposals i (confirmed id p)
    settle_proposal (confirmed id p) i (record s { match_proposals = ps })

  unfoldable pub handle_confirm_request :
      MatchmakingRequest Elo → MatchmakerState Elo → Option (MatchmakerState Elo × List Action)
  handle_confirm_request r s =
      confirm_found r.user_id (get_match_proposal r.user_id s.match_proposals) s

  -- The user that cancels, and the other one.
  abbrev pub two_users : ℤ → MatchProposal Elo → PendingUser Elo × PendingUser Elo
  two_users id p =
      if same_id id p.user_one.user_id
      then (p.user_one, p.user_two)
      else if same_id id p.user_two.user_id
      then (p.user_two, p.user_one)
      else (zero_user, zero_user)

  abbrev pub cancel_found :
      ℤ
      → Option (MatchProposal Elo × ℕ)
      → MatchmakerState Elo
      → Option (MatchmakerState Elo × List Action)
  cancel_found id none s = some (s, [])
  cancel_found id (some (p, i)) s = do
    ps ← delete_at s.match_proposals i
    let (requesting_user, other_user) = two_users id p
    s' ← insert_pending_user other_user (record s { match_proposals = ps })
    some (
      s',
      close requesting_user.response_chan ∷ send other_user.response_chan response_cancel ∷ [],
    )

  unfoldable pub handle_cancel_request :
      MatchmakingRequest Elo → MatchmakerState Elo → Option (MatchmakerState Elo × List Action)
  handle_cancel_request r s =
      let s0 = delete_pending_user r.user_id s in
      cancel_found r.user_id (get_match_proposal r.user_id s0.match_proposals) s0

  abbrev pub handler :
      MatchRequestKind
      → MatchmakingRequest Elo
      → MatchmakerState Elo
      → Option (MatchmakerState Elo × List Action)
  handler begin_match_request r s = handle_begin_request r s
  handler confirm_match_request r s = handle_confirm_request r s
  handler cancel_match_request r s = handle_cancel_request r s

  unfoldable pub handle_request :
      MatchmakingRequest Elo → MatchmakerState Elo → Option (MatchmakerState Elo × List Action)
  handle_request r s = handler r.kind r s

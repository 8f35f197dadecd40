-- ===== src/Matchmaker/Requests.antt =====
-- `handleRequest` of backend/service/matchmaker.go.
use hexchess.Prelude.{
  ℕ, suc, ◌≡◌, refl, true, false, Option, none, some, List, [], ◌∷◌, ◌++◌, length, All, All-right,
  subst, Bool-cases, inl, inr, ◌>>=◌,
}
use hexchess.Prelude.Int.{ℤ}
use hexchess.Matchmaker.{
  Elos, MatchProposal, MatchmakerState, MatchmakingRequest, Action, send, close, response_cancel,
  map_get, delete_pending_user, set_at, delete_at, has_user, get_match_proposal, confirmed,
  accepted_by_both, confirmations, two_users, confirm_found, cancel_found, handle_confirm_request,
  handle_cancel_request,
}
use hexchess.Matchmaker.Channels.{
  Channels, closed, perform_all, OpenPair, perform_all-confirmations,
}
use hexchess.Matchmaker.Index.{IsElos}
use hexchess.Matchmaker.Valid.{
  Valid, insert_pending_user-Valid, delete_pending_user-Valid, after_insert,
}

module _ {A : Type 0} where
  set_at-split :
      (xs ys : List A) (p v : A) → set_at (xs ++ p ∷ ys) (length xs) v ≡ some (xs ++ v ∷ ys)
  set_at-split [] ys p v = refl
  set_at-split (x ∷ xs) ys p v = rw (set_at-split xs ys p v) refl

  delete_at-split :
      (xs ys : List A) (p : A) → delete_at (xs ++ p ∷ ys) (length xs) ≡ some (xs ++ ys)
  delete_at-split [] ys p = refl
  delete_at-split (x ∷ xs) ys p = rw (delete_at-split xs ys p) refl

module _ {Elo : Type 0} (elos : Elos Elo) where
  -- The first proposal of the user, if any.
  pub data Search (id : ℤ) (ps : List (MatchProposal Elo))
      : Option (MatchProposal Elo × ℕ) → Type 0 where
    nowhere : All (λ p. has_user elos id p ≡ false) ps → Search id ps none
    here :
        (xs ys : List (MatchProposal Elo)) (p : MatchProposal Elo)
        → ps ≡ xs ++ p ∷ ys
        → All (λ q. has_user elos id q ≡ false) xs
        → has_user elos id p ≡ true
        → Search id ps (some (p, length xs))

  abbrev shifted :
      MatchProposal Elo → Option (MatchProposal Elo × ℕ) → Option (MatchProposal Elo × ℕ)
  shifted p o = do (q, i) ← o; some (q, suc i)

  skip :
      (id : ℤ) (p : MatchProposal Elo) (ps : List (MatchProposal Elo))
      → has_user elos id p ≡ false
      → (o : Option (MatchProposal Elo × ℕ)) → Search id ps o
      → Search id (p ∷ ps) (shifted p o)
  skip id p ps n none (nowhere h) = nowhere (n, h)
  skip id p ps n (some (q, _)) (here xs ys _ e h u) = here (p ∷ xs) ys q (rw e refl) (n, h) u

  get_match_proposal-Search :
      (id : ℤ) (ps : List (MatchProposal Elo)) → Search id ps (get_match_proposal elos id ps)
  get_match_proposal-Search id [] = nowhere tt
  get_match_proposal-Search id (p ∷ ps) = elim (Bool-cases (has_user elos id p)) [
    | inl e ↦ rw e (here [] ps p refl tt e)
    | inr e ↦
        rw e (skip id p ps e (get_match_proposal elos id ps) (get_match_proposal-Search id ps))
  ]

  -- What a confirmation does, also to the channels.
  pub data Confirmed (id : ℤ) (s : MatchmakerState Elo) (w : Channels)
      : MatchmakerState Elo → List Action → Channels → Type 0 where
    no_proposal : All (λ p. has_user elos id p ≡ false) s.match_proposals → Confirmed id s w s [] w
    waiting :
        (xs ys : List (MatchProposal Elo)) (p : MatchProposal Elo)
        → s.match_proposals ≡ xs ++ p ∷ ys
        → All (λ q. has_user elos id q ≡ false) xs
        → has_user elos id p ≡ true
        → accepted_by_both elos (confirmed elos id p) ≡ false
        → Confirmed id s w (record s { match_proposals = xs ++ confirmed elos id p ∷ ys }) [] w
    both :
        (xs ys : List (MatchProposal Elo)) (p : MatchProposal Elo)
        → s.match_proposals ≡ xs ++ p ∷ ys
        → All (λ q. has_user elos id q ≡ false) xs
        → has_user elos id p ≡ true
        → accepted_by_both elos (confirmed elos id p) ≡ true
        → (o : OpenPair w p)
        → Confirmed id s w
            (record s { match_proposals = xs ++ ys })
            (confirmations elos (confirmed elos id p))
            (closed o.two (closed o.one w))

  -- What holds of all proposals holds of one of them.
  pub open_here :
      (w : Channels) (ps xs ys : List (MatchProposal Elo)) (p : MatchProposal Elo)
      → ps ≡ xs ++ p ∷ ys
      → All (OpenPair w) ps
      → OpenPair w p
  open_here w ps xs ys p e h = (All-right (OpenPair w) xs (p ∷ ys) (subst (All (OpenPair w)) e h)).0

  confirm_found-Confirmed :
      (id : ℤ) (s : MatchmakerState Elo) (w : Channels) (o : Option (MatchProposal Elo × ℕ))
      → All (OpenPair w) s.match_proposals
      → Search id s.match_proposals o
      → (s' : MatchmakerState Elo) × (acts : List Action) × (w' : Channels) × (confirm_found elos id
            o s
          ≡ some (s', acts))
        × (perform_all acts w ≡ some w')
        × Confirmed id s w s' acts w'
  unfolding perform_all
  confirm_found-Confirmed id s w none all (nowhere h) = (s, [], w, refl, refl, no_proposal h)
  confirm_found-Confirmed id s w (some (p, n)) all (here xs ys _ e h u) =
      elim (Bool-cases (accepted_by_both elos (confirmed elos id p))) [
        | inl b ↦
            let o = open_here w s.match_proposals xs ys p e all in
            (
              record s { match_proposals = xs ++ ys },
              confirmations elos (confirmed elos id p),
              closed o.two (closed o.one w),
              rw
                  (
                    e,
                    set_at-split xs ys p (confirmed elos id p),
                    b,
                    delete_at-split xs ys (confirmed elos id p),
                  )
                  refl,
              perform_all-confirmations elos id w p o,
              both xs ys p e h u b o,
            )
        | inr f ↦ (
          record s { match_proposals = xs ++ confirmed elos id p ∷ ys },
          [],
          w,
          rw (e, set_at-split xs ys p (confirmed elos id p), f) refl,
          refl,
          waiting xs ys p e h u f,
        )
      ]

  pub handle_confirm_request-Confirmed :
      (r : MatchmakingRequest Elo) (s : MatchmakerState Elo) (w : Channels)
      → All (OpenPair w) s.match_proposals
      → (s' : MatchmakerState Elo) × (acts : List Action) × (w' : Channels)
        × (handle_confirm_request elos r s ≡ some (s', acts))
        × (perform_all acts w ≡ some w')
        × Confirmed r.user_id s w s' acts w'
  unfolding handle_confirm_request
  handle_confirm_request-Confirmed r s w all =
      confirm_found-Confirmed r.user_id s w (get_match_proposal elos r.user_id s.match_proposals)
        all (get_match_proposal-Search r.user_id s.match_proposals)

  pub Confirmed-Valid :
      (id : ℤ) (s s' : MatchmakerState Elo) (acts : List Action) (w w' : Channels)
      → Valid elos s
      → Confirmed id s w s' acts w'
      → Valid elos s'
  Confirmed-Valid id s s' acts w w' v (no_proposal h) = v
  Confirmed-Valid id s s' acts w w' v (waiting xs ys p e h u f) = record {
    sorted = v.sorted;
    listed = v.listed;
  }
  Confirmed-Valid id s s' acts w w' v (both xs ys p e h u b o) = record {
    sorted = v.sorted;
    listed = v.listed;
  }

  -- What a cancellation leaves, from the state without the user among the pending ones.
  pub data Cancelled (id : ℤ) (s0 : MatchmakerState Elo)
      : MatchmakerState Elo → List Action → Type 0 where
    in_no_proposal :
        All (λ p. has_user elos id p ≡ false) s0.match_proposals → Cancelled id s0 s0 []
    freed :
        (s' : MatchmakerState Elo) (xs ys : List (MatchProposal Elo)) (p : MatchProposal Elo)
        → s0.match_proposals ≡ xs ++ p ∷ ys
        → has_user elos id p ≡ true
        → s'.match_proposals ≡ xs ++ ys
        → ((k : ℤ) → map_get k s'.pending_users ≡ after_insert (two_users elos id p).1 s0 k)
        → Cancelled id s0 s' (
            close (two_users elos id p).0.response_chan
            ∷ send (two_users elos id p).1.response_chan response_cancel
            ∷ [])

module _ {Elo : Type 0} (elos : Elos Elo) (laws : IsElos elos) where
  cancel_found-Cancelled :
      (id : ℤ) (s0 : MatchmakerState Elo) (o : Option (MatchProposal Elo × ℕ))
      → Valid elos s0
      → Search elos id s0.match_proposals o
      → (s' : MatchmakerState Elo) × (acts : List Action) × (cancel_found elos id o s0
          ≡ some (s', acts))
        × Valid elos s'
        × Cancelled elos id s0 s' acts
  cancel_found-Cancelled id s0 none v (nowhere h) = (s0, [], refl, v, in_no_proposal h)
  cancel_found-Cancelled id s0 (some (p, n)) v (here xs ys _ e h u) =
      let s1 : MatchmakerState Elo = record s0 { match_proposals = xs ++ ys } in
      let v1 : Valid elos s1 = record { sorted = v.sorted; listed = v.listed } in
      let other = (two_users elos id p).1 in
      let (s', q, v', got, same) = insert_pending_user-Valid elos laws other s1 v1 in
      (s', _, rw (e, delete_at-split xs ys p, q) refl, v', freed s' xs ys p e u same got)

  -- A cancellation takes the user out of the pending ones and drops the first proposal of the user, whose
  -- other member is pending again and is told; it is answered without a panic, and keeps the map and
  -- the index in step.
  pub handle_cancel_request-Cancelled :
      (r : MatchmakingRequest Elo) (s : MatchmakerState Elo)
      → Valid elos s
      → (s' : MatchmakerState Elo) × (acts : List Action) × (handle_cancel_request elos r s
          ≡ some (s', acts))
        × Valid elos s'
        × Cancelled elos r.user_id (delete_pending_user elos r.user_id s) s' acts
  unfolding handle_cancel_request
  handle_cancel_request-Cancelled r s v =
      let s0 = delete_pending_user elos r.user_id s in
      cancel_found-Cancelled r.user_id s0 (get_match_proposal elos r.user_id s0.match_proposals)
        (delete_pending_user-Valid elos laws r.user_id s v)
        (get_match_proposal-Search elos r.user_id s0.match_proposals)

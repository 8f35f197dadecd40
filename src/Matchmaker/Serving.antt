-- ===== src/Matchmaker/Serving.antt =====
-- Every request to the node of backend/service/matchmaker.go, with what it does to the channels.
use hexchess.Prelude.{◌≡◌, refl, true, some, List, [], ◌∷◌, All, Bool-cases, inl, inr, arith}
use hexchess.Prelude.Int.{ℤ, same_id}
use hexchess.Matchmaker.{
  Elos, PendingUser, MatchProposal, MatchmakerState, MatchmakingRequest, MatchRequestKind,
  begin_match_request, confirm_match_request, cancel_match_request, Action, send, close,
  response_join, response_cancel, has_user, two_users, delete_pending_user, handle_begin_request,
  handler, handle_request,
}
use hexchess.Matchmaker.Channels.{
  Channels, closed, perform, perform_all, OpenPair, Answerable, serve, perform_all-cancelled,
}
use hexchess.Matchmaker.Index.{IsElos}
use hexchess.Matchmaker.Valid.{Valid, insert_pending_user-Valid}
use hexchess.Matchmaker.Requests.{
  open_here, Confirmed-Valid, handle_confirm_request-Confirmed, Cancelled, in_no_proposal, freed,
  handle_cancel_request-Cancelled,
}

module _ {Elo : Type 0} (elos : Elos Elo) (laws : IsElos elos) where
  -- An answer that keeps the map and the index in step, and that the channels let pass.
  abbrev Served :
      MatchRequestKind → Channels → MatchmakingRequest Elo → MatchmakerState Elo → Type 0
  Served kind w r s =
      (s' : MatchmakerState Elo) × (acts : List Action) × (w' : Channels) × (handler elos kind r s
        ≡ some (s', acts))
      × (perform_all acts w ≡ some w')
      × Valid elos s'

  begin-Served :
      (w : Channels) (r : MatchmakingRequest Elo) (s : MatchmakerState Elo)
      → Valid elos s
      → Answerable begin_match_request w r s
      → Served begin_match_request w r s
  unfolding handle_begin_request perform perform_all
  begin-Served w r s v (c, named, is_open) =
      let u : PendingUser Elo = record {
        user_id = r.user_id;
        user_elo = r.user_elo;
        ticks = 0;
        response_chan = r.response_chan;
      } in
      let (s', q, v', got, same) = insert_pending_user-Valid elos laws u s v in
      (s', send r.response_chan response_join ∷ [], w, rw q refl, rw (named, is_open) refl, v')

  told_other :
      (id : ℤ) (w : Channels) (p : MatchProposal Elo)
      → has_user elos id p ≡ true
      → OpenPair w p
      → (w' : Channels) × (perform_all
            (close (two_users elos id p).0.response_chan
              ∷ send (two_users elos id p).1.response_chan response_cancel
              ∷ [])
            w
          ≡ some w')
  told_other id w p u o =
      let both = perform_all-cancelled elos w p response_cancel o in
      elim (Bool-cases (same_id id p.user_one.user_id)) [
        | inl e ↦ (closed o.one w, rw e (both.0))
        | inr e ↦
            let f : same_id id p.user_two.user_id ≡ true = ground (arith, e, u) in
            (closed o.two w, rw (e, f) (both.1))
      ]

  Cancelled-performed :
      (id : ℤ) (w : Channels) (s0 s' : MatchmakerState Elo) (acts : List Action)
      → All (OpenPair w) s0.match_proposals
      → Cancelled elos id s0 s' acts
      → (w' : Channels) × (perform_all acts w ≡ some w')
  unfolding perform_all
  Cancelled-performed id w s0 s' acts all (in_no_proposal h) = (w, refl)
  Cancelled-performed id w s0 s' acts all (freed _ xs ys p e u same got) =
      told_other id w p u (open_here elos w s0.match_proposals xs ys p e all)

  handler-Served :
      (kind : MatchRequestKind) (w : Channels) (r : MatchmakingRequest Elo)
      (s : MatchmakerState Elo)
      → Valid elos s
      → Answerable kind w r s
      → Served kind w r s
  unfolding delete_pending_user
  handler-Served begin_match_request w r s v a = begin-Served w r s v a
  handler-Served confirm_match_request w r s v a =
      let (s', acts, w', e, p, c) = handle_confirm_request-Confirmed elos r s w a in
      (s', acts, w', e, p, Confirmed-Valid elos r.user_id s s' acts w w' v c)
  handler-Served cancel_match_request w r s v a =
      let (s', acts, e, v', c) = handle_cancel_request-Cancelled elos laws r s v in
      let (w', p) =
        Cancelled-performed r.user_id w (delete_pending_user elos r.user_id s) s' acts a c in
      (s', acts, w', e, p, v')

  -- If the index by rating is sorted and lists every pending user once, with the rating in the map, and
  -- nobody else, then a request is answered without a panic, be it one of an index or of a channel, and
  -- leaves such a state. It is assumed that a begin request comes with an open channel, and that for
  -- the other requests the two users of every proposal have open channels, and not the same one. A send
  -- is taken to be received, and ratings are numbers.
  pub serve-Valid :
      (r : MatchmakingRequest Elo) (s : MatchmakerState Elo) (w : Channels)
      → Valid elos s
      → Answerable r.kind w r s
      → (s' : MatchmakerState Elo) × (acts : List Action) × (w' : Channels) × (serve elos r s w
          ≡ some (s', acts, w'))
        × Valid elos s'
  unfolding serve handle_request
  serve-Valid r s w v a =
      let (s', acts, w', e, p, v') = handler-Served r.kind w r s v a in
      (s', acts, w', rw (e, p) refl, v')

-- ===== src/Matchmaker/Channels.antt =====
-- What the handlers of backend/service/matchmaker.go do to the channels of the responses. A send waits
-- until it is received, which it is here.
use hexchess.Prelude.{
  ℕ, ◌≡◌, refl, Bool, true, false, Option, none, some, List, [], ◌∷◌, All, ◌==◌, if◌then◌else◌,
  arith, ◌>>=◌, Bool-cases, inl, inr,
}
use hexchess.Prelude.Int.{ℤ, same_id}
use hexchess.Matchmaker.{
  Elos, MatchProposal, MatchmakerState, MatchmakingRequest, MatchRequestKind, begin_match_request,
  confirm_match_request, cancel_match_request, MatchResponse, Action, send, close, confirmed,
  confirmations, handle_request,
}

-- Which channels are open.
abbrev pub Channels : Type 0
Channels = ℕ → Bool

abbrev pub closed : ℕ → Channels → Channels
closed c w = λ x. if x == c then false else w x

-- A send on a closed channel and a close of a closed or a nil channel are panics. A send on a nil
-- channel never ends. All of them are `none`.
unfoldable pub perform : Action → Channels → Option Channels
perform (send (some c) response) w = if w c then some w else none
perform (send none response) w = none
perform (close (some c)) w = if w c then some (closed c w) else none
perform (close none) w = none

unfoldable pub perform_all : List Action → Channels → Option Channels
perform_all [] w = some w
perform_all (action ∷ actions) w = do w' ← perform action w; perform_all actions w'

module _ {Elo : Type 0} where
  -- The channels of the two users of a proposal are open, and they are not the same one.
  pub record OpenPair (w : Channels) (p : MatchProposal Elo) : Type 0 where
    pub one : ℕ
    pub two : ℕ
    pub is_one : p.user_one.response_chan ≡ some one
    pub is_two : p.user_two.response_chan ≡ some two
    pub apart : (two == one) ≡ false
    pub one_open : w one ≡ true
    pub two_open : w two ≡ true

  -- What a request needs of the channels: a begin request that its own is open, the others that those
  -- of every proposal are.
  abbrev pub Answerable :
      MatchRequestKind → Channels → MatchmakingRequest Elo → MatchmakerState Elo → Type 0
  Answerable begin_match_request w r s = (c : ℕ) × (r.response_chan ≡ some c) × (w c ≡ true)
  Answerable confirm_match_request w r s = All (OpenPair w) s.match_proposals
  Answerable cancel_match_request w r s = All (OpenPair w) s.match_proposals

module _ {Elo : Type 0} (elos : Elos Elo) where
  -- `handleRequest` with what it does to the channels.
  unfoldable pub serve :
      MatchmakingRequest Elo
      → MatchmakerState Elo
      → Channels
      → Option (MatchmakerState Elo × List Action × Channels)
  serve r s w = do
    (s', actions) ← handle_request elos r s
    w' ← perform_all actions w
    some (s', actions, w')

  -- Both users are told, and then both channels are closed.
  pub perform_all-confirmations :
      (id : ℤ) (w : Channels) (p : MatchProposal Elo) (o : OpenPair w p)
      → perform_all (confirmations elos (confirmed elos id p)) w
        ≡ some (closed o.two (closed o.one w))
  unfolding perform perform_all
  perform_all-confirmations id w p o =
      let first : (confirmed elos id p).user_one.response_chan ≡ some o.one = one_kept in
      let second : (confirmed elos id p).user_two.response_chan ≡ some o.two = two_kept in
      rw (first, second, o.one_open, o.two_open, o.one_open, o.apart, o.two_open) refl
    where
      one_kept : (confirmed elos id p).user_one.response_chan ≡ some o.one
      one_kept = elim (Bool-cases (same_id id p.user_one.user_id)) [
        | inl e ↦ rw e o.is_one
        | inr e ↦ elim (Bool-cases (same_id id p.user_two.user_id)) [
          | inl f ↦ rw (e, f) o.is_one
          | inr f ↦ rw (e, f) o.is_one
        ]
      ]

      two_kept : (confirmed elos id p).user_two.response_chan ≡ some o.two
      two_kept = elim (Bool-cases (same_id id p.user_one.user_id)) [
        | inl e ↦ rw e o.is_two
        | inr e ↦ elim (Bool-cases (same_id id p.user_two.user_id)) [
          | inl f ↦ rw (e, f) o.is_two
          | inr f ↦ rw (e, f) o.is_two
        ]
      ]

  -- The user that cancels has its channel closed, and the other one is told.
  pub perform_all-cancelled :
      (w : Channels) (p : MatchProposal Elo) (response : MatchResponse) (o : OpenPair w p)
      → (perform_all
            (close p.user_one.response_chan ∷ send p.user_two.response_chan response ∷ [])
            w
          ≡ some (closed o.one w))
        × (perform_all
              (close p.user_two.response_chan ∷ send p.user_one.response_chan response ∷ [])
              w
            ≡ some (closed o.two w))
  unfolding perform perform_all
  perform_all-cancelled w p response o =
      let back : (o.one == o.two) ≡ false = ground (arith, o.apart) in
      (
        rw (o.is_one, o.is_two, o.one_open, o.apart, o.two_open) refl,
        rw (o.is_one, o.is_two, o.two_open, back, o.one_open) refl,
      )

-- ===== src/Matchmaker/Witnesses.antt =====
-- The theorems on the matchmaker at a node with whole numbers for ratings.
use hexchess.Prelude.{
  ℕ, ◌+◌, ◌-◌, ◌≡◌, refl, true, false, All, some, List, [], ◌∷◌, leb, arith, inl, inr, Bool-cases,
}
use hexchess.Prelude.Int.{ℤ, pos, same_id, ≡-of_same_id}
use hexchess.Prelude.Search.{Lowest, sort_search, search_loop, sort_search-Lowest}
use hexchess.Matchmaker.{
  Elos, PendingUser, MatchmakerState, MatchmakingRequest, begin_match_request, cancel_match_request,
  Action, send, response_join, handle_request, handle_begin_request, insert_pending_user, map_get,
}
use hexchess.Matchmaker.Index.{IsElos}
use hexchess.Matchmaker.Valid.{Valid, listed_elos, elos_of}
use hexchess.Matchmaker.Channels.{Channels, OpenPair, serve}
use hexchess.Matchmaker.Serving.{serve-Valid}
use hexchess.Matchmaker.Ticking.{tick}
use hexchess.Matchmaker.Lost.{Emptied, tick-Emptied}

abbrev whole : Elos ℕ
whole = record { le = leb; plus = λ a n. a + n; minus = λ a n. a - n; nought = 0 }

whole-IsElos : IsElos whole
whole-IsElos = record {
  total = λ a b. elim (Bool-cases (leb a b)) [ inl e ↦ inl e | inr e ↦ inr (ground (arith, e)) ];
  trans = λ a b c x y. ground (arith, x, y);
  from_minus = λ a n. ground arith;
  to_plus = λ a n. ground arith;
}

abbrev user : ℕ → ℕ → PendingUser ℕ
user id elo = record { user_id = pos id; user_elo = elo; ticks = 0; response_chan = some id }

-- Two users are pending, and two others are in a proposal that one of them has confirmed.
abbrev node : MatchmakerState ℕ
node = record {
  pending_users = (pos 1, user 1 900) ∷ (pos 3, user 3 1500) ∷ [];
  user_elo_idx =
      record { user_id = pos 1; user_elo = 900 } ∷ record { user_id = pos 3; user_elo = 1500 } ∷ [];
  match_proposals =
      record {
        user_one = user 4 1000;
        user_two = user 5 1100;
        user_one_accept = true;
        user_two_accept = false;
      }
      ∷ [];
  potential_proposals = [];
  paired_users = [];
}

listed_once : (id : ℤ) → listed_elos id node.user_elo_idx ≡ elos_of (map_get id node.pending_users)
listed_once id = elim (Bool-cases (same_id (pos 1) id)) [
  | inl e ↦ let same = ≡-of_same_id (pos 1) id e in rw⁻¹ same refl
  | inr e ↦ elim (Bool-cases (same_id (pos 3) id)) [
    | inl o ↦ let same = ≡-of_same_id (pos 3) id o in rw⁻¹ same refl
    | inr o ↦ rw (e, o) refl
  ]
]

node-Valid : Valid whole node
node-Valid = record { sorted = ((refl, tt), (tt, tt)); listed = λ id. listed_once id }

abbrev request : ℕ → MatchmakingRequest ℕ
request id = record {
  kind = begin_match_request;
  user_id = pos id;
  user_elo = 1000;
  response_chan = some 2;
}

-- Every channel is open.
pair-OpenPair : All (OpenPair (λ c. true)) node.match_proposals
pair-OpenPair = (
  record {
    one = 4;
    two = 5;
    is_one = refl;
    is_two = refl;
    apart = refl;
    one_open = refl;
    two_open = refl;
  },
  tt,
)

serve-Valid_example :
    (s' : MatchmakerState ℕ) × (acts : List Action) × (w' : Channels) × (serve whole
        (record (request 5) { kind = cancel_match_request })
        node
        (λ c. true)
      ≡ some (s', acts, w'))
    × Valid whole s'
serve-Valid_example =
    serve-Valid whole whole-IsElos (record (request 5) { kind = cancel_match_request }) node
      (λ c. true) node-Valid pair-OpenPair

tick-Emptied_example : Emptied node (tick whole 10 node)
tick-Emptied_example = tick-Emptied whole whole-IsElos 10 node node-Valid refl

sort_search-Lowest_example :
    (k : ℕ) × (sort_search 5 (λ i. some (leb 3 i)) ≡ some k) × Lowest 5 (λ i. some (leb 3 i)) k
sort_search-Lowest_example =
    sort_search-Lowest 5 (λ i. some (leb 3 i))
      (record { total = λ i lt. (leb 3 i, refl); mono = λ i j le lt t. ground (arith, t, le) })

-- The begin request of a user between the two in rating.
two_joins :
    handle_request whole (request 2) node
    ≡ some (
      record node {
        pending_users = (pos 2, record (user 2 1000) { ticks = 0 }) ∷ node.pending_users;
        user_elo_idx =
            record { user_id = pos 1; user_elo = 900 }
            ∷ record { user_id = pos 2; user_elo = 1000 }
            ∷ record { user_id = pos 3; user_elo = 1500 }
            ∷ [];
      },
      send (some 2) response_join ∷ [],
    )
unfolding handle_request handle_begin_request insert_pending_user sort_search search_loop
two_joins = refl

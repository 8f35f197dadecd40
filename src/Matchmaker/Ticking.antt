-- ===== src/Matchmaker/Ticking.antt =====
-- `tick` of backend/service/matchmaker.go.
use hexchess.Prelude.{ℕ, suc, ◌*◌, Bool, true, false, not, ◌&&◌, List, [], ◌∷◌, ◌++◌, if◌then◌else◌}
use hexchess.Prelude.Int.{ℤ}
use hexchess.Matchmaker.{
  Elos, PendingUser, UserEloRecord, MatchProposal, PotentialProposal, MatchmakerState, map_set,
  contains_id, pending_user, delete_pending_users,
}

module _ {Elo : Type 0} (elos : Elos Elo) (tick_factor : ℕ) where
  abbrev pub is_in_range : PendingUser Elo → Elo × Elo → Bool
  is_in_range u (begin_elo, end_elo) = elos.le begin_elo u.user_elo && elos.le u.user_elo end_elo

  abbrev pub get_elo_range : PendingUser Elo → Elo × Elo
  get_elo_range u =
      (elos.minus u.user_elo (u.ticks * tick_factor), elos.plus u.user_elo (u.ticks * tick_factor))

  -- Whether the first is in the range of the second, and the other way round.
  abbrev pub pending_users_intersect : PendingUser Elo → PendingUser Elo → Bool × Bool
  pending_users_intersect curr potential =
      (is_in_range curr (get_elo_range potential), is_in_range potential (get_elo_range curr))

  -- The proposals that were found, and the users that are paired.
  abbrev pub Found : Type 0
  Found = List PotentialProposal × List ℤ

  -- The inner loop, over the records from the current one on.
  unfoldable pub find_partner : MatchmakerState Elo → ℤ → List (UserEloRecord Elo) → Found → Found
  find_partner s curr_id [] found = found
  find_partner s curr_id (r ∷ rs) (proposals, paired) =
      let further = find_partner s curr_id rs (proposals, paired) in
      let curr = pending_user elos s curr_id in
      let potential = pending_user elos s r.user_id in
      let (curr_intersects, potential_intersects) = pending_users_intersect curr potential in
      if contains_id r.user_id paired
      then further
      else if curr_intersects && potential_intersects
      then (
        proposals ++ record { user_one_id = curr.user_id; user_two_id = potential.user_id } ∷ [],
        r.user_id ∷ curr_id ∷ paired,
      )
      else if not potential_intersects
      then (proposals, paired)
      else further

  -- The outer loop.
  unfoldable pub find_pairs : MatchmakerState Elo → List (UserEloRecord Elo) → Found → Found
  find_pairs s [] found = found
  find_pairs s (r ∷ rs) (proposals, paired) = find_pairs s rs (
      if contains_id r.user_id paired
      then (proposals, paired)
      else find_partner s r.user_id (r ∷ rs) (proposals, paired))

  -- The slice that the loops append to is a variable of the function, and is not stored back; the map
  -- of paired users is the one of the state.
  unfoldable pub find_potential_proposals : MatchmakerState Elo → MatchmakerState Elo
  find_potential_proposals s =
      let (proposals, paired) = find_pairs s s.user_elo_idx ([], []) in
      record s { potential_proposals = []; paired_users = paired }

  abbrev pub proposed : MatchmakerState Elo → List PotentialProposal → List (MatchProposal Elo)
  proposed s [] = []
  proposed s (p ∷ ps) =
      record {
        user_one = pending_user elos s p.user_one_id;
        user_two = pending_user elos s p.user_two_id;
        user_one_accept = false;
        user_two_accept = false;
      }
      ∷ proposed s ps

  abbrev pub one_tick : PendingUser Elo → PendingUser Elo
  one_tick u = record u { ticks = suc (u.ticks) }

  unfoldable pub count_ticks : List (UserEloRecord Elo) → MatchmakerState Elo → MatchmakerState Elo
  count_ticks [] s = s
  count_ticks (r ∷ rs) s = count_ticks rs (record s {
    pending_users = map_set r.user_id (one_tick (pending_user elos s r.user_id)) s.pending_users;
  })

  abbrev pub nothing_pending : MatchmakerState Elo → Bool
  nothing_pending s = elim s.pending_users [
    | [] ↦ elim s.match_proposals [ [] ↦ true | p ∷ ps ↦ false ]
    | u ∷ us ↦ false
  ]

  unfoldable pub tick : MatchmakerState Elo → MatchmakerState Elo
  tick s =
      let s1 = find_potential_proposals s in
      let s2 = record s1 {
        match_proposals = s1.match_proposals ++ proposed s1 s1.potential_proposals;
      } in
      let s3 = delete_pending_users elos s2.paired_users s2 in
      if nothing_pending s then s else count_ticks s3.user_elo_idx s3

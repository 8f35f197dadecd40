-- ===== src/Gameover/Again.antt =====
-- An event of a finished game that is delivered twice.
use hexchess.Prelude.{
  ℕ, ◌≡◌, ◌↔◌, refl, ◌∙◌, ap, subst, true, Option, none, some, List, ◌++◌, append-nil, Option-cases,
  inl, inr, map,
}
use hexchess.Model.Enums.{Text}
use hexchess.Model.Serde.{PbGame, serialize_game, serialize_pieces_moves, serialize_hist_move}
use hexchess.Model.Serde.Boards.{serialize_board-returns}
use hexchess.Chess.Board.{Board}
use hexchess.Chess.Notation.{HistMove}
use hexchess.Chess.Game.{new_game}
use hexchess.Chess.Game.Ready.{init_piece_moves-Ready}
use hexchess.Gameplay.State.{ChessState, is_guest_id}
use hexchess.Gameplay.Service.{FinishGameEvent}
use hexchess.Gameover.{
  Floats, GameResult, InsertReplay, PbMoveHistory, marshal_move_history, Querier,
  create_game_result, no_change,
}
use hexchess.Gameover.Handling.{
  World, FinishedGameResult, Handled, handled, no_state, insert_game_result, result_for,
  update_leaderboard, publish_tournament_event, handle_filled, handle_backfilled, backfill_event,
  handle_finished_game,
}

-- What the code relies on of the queries: a replay is found under its game after it was inserted, and
-- writing the history of the moves keeps the replays and can be repeated.
pub record IsQuerier {F DB : Type 0} (q : Querier F DB) : Type 0 where
  pub replay_found :
      (r : InsertReplay F) (db : DB)
      → q.select_replay_id r.game_id (q.insert_replay r db).0 ≡ some (q.insert_replay r db).1
  pub history_keeps :
      (g : Text) (id : ℕ) (h : PbMoveHistory) (db : DB)
      → q.select_replay_id g (q.upsert_move_history id h db) ≡ q.select_replay_id g db
  pub history_again :
      (id : ℕ) (h : PbMoveHistory) (db : DB)
      → q.upsert_move_history id h (q.upsert_move_history id h db) ≡ q.upsert_move_history id h db

-- The history of any moves on any board is serialised without a panic.
pub marshal_move_history-returns :
    (initial : Board) (moves : List HistMove)
    → (h : PbMoveHistory) × (marshal_move_history initial moves ≡ some h)
unfolding marshal_move_history serialize_game
marshal_move_history-returns initial moves =
    let (g, e, r) = init_piece_moves-Ready (new_game initial) in
    let (b, q) = serialize_board-returns g.board in
    let m : PbGame = record {
      taken_white_pieces = g.taken_white_pieces;
      taken_black_pieces = g.taken_black_pieces;
      black_moves = serialize_pieces_moves g.black_moves;
      white_moves = serialize_pieces_moves g.white_moves;
      moves = map serialize_hist_move g.moves;
      board = some b;
    } in
    (record { initial_game = m; steps = map serialize_hist_move moves }, rw (e, q) refl)

module _ {F DB : Type 0} (floats : Floats F) (zero_is_zero : floats.is_zero floats.nought ≡ true)
    (querier : Querier F DB) (laws : IsQuerier querier) where
  result_for-found :
      (r : GameResult) (db : DB) (o : Option ℕ)
      → querier.select_replay_id r.game_id db ≡ o
      → querier.select_replay_id r.game_id (result_for floats querier o r db).0
        ≡ some (result_for floats querier o r db).1.replay_id
  result_for-found r db none e = laws.replay_found _ _
  result_for-found r db (some id) e = e

  -- The result is in the database under its game, with the identifier that is returned.
  insert_game_result-found :
      (r : GameResult) (db : DB)
      → querier.select_replay_id r.game_id (insert_game_result floats querier r db).0
        ≡ some (insert_game_result floats querier r db).1.replay_id
  unfolding insert_game_result
  insert_game_result-found r db = result_for-found r db (querier.select_replay_id r.game_id db) refl

  -- A result that is there already changes nothing.
  insert_game_result-existing :
      (r : GameResult) (db : DB) (id : ℕ)
      → querier.select_replay_id r.game_id db ≡ some id
      → insert_game_result floats querier r db
        ≡ (db, record (no_change floats) { replay_id = id; already_exists = true })
  unfolding insert_game_result
  insert_game_result-existing r db id e = ap (λ o. result_for floats querier o r db) e

  again_filled :
      (now now' : ℕ) (e : FinishGameEvent) (w : World F DB)
      → (w' : World F DB) × (r : FinishedGameResult) × (advances : List Text) × (handle_filled
            floats querier now e w
          ≡ some (handled w' r))
        × (handle_filled floats querier now' e w'
            ≡ some (handled (record w' { advances = advances }) r))
  unfolding update_leaderboard is_guest_id
  again_filled now now' e w =
      let (h, m) = marshal_move_history-returns e.initial_board e.moves in
      let inserted = insert_game_result floats querier (create_game_result now e) w.db in
      let id = inserted.1.replay_id in
      let db2 = querier.upsert_move_history id h inserted.0 in
      let found =
        laws.history_keeps e.game_id id h inserted.0
        ∙ insert_game_result-found (create_game_result now e) w.db in
      let again = insert_game_result-existing (create_game_result now' e) db2 id found in
      (
        record {
          db = db2;
          increments = w.increments ++ update_leaderboard floats querier e.replay_mode inserted.1;
          advances = w.advances ++ publish_tournament_event floats querier e.game_id db2;
        },
        record { replay_id = id; game_id = e.game_id },
        (w.advances ++ publish_tournament_event floats querier e.game_id db2)
            ++ publish_tournament_event floats querier e.game_id db2,
        rw m refl,
        rw (again, m, laws.history_again id h inserted.0, zero_is_zero)
            (rw
              (append-nil
                (w.increments ++ update_leaderboard floats querier e.replay_mode inserted.1))
              refl),
      )

  -- If an event of a finished game is handled with a result, then with the same state in redis it is
  -- handled again with the same result, at any later time, and neither the database nor the leaderboard
  -- changes any more; only the tournament may be asked to advance once more. This is for queries that
  -- find a replay under its game after it was inserted, and for which writing the history keeps the
  -- replays and can be repeated, and for ratings whose zero is zero.
  pub handle_finished_game-again :
      (now now' : ℕ) (s : Option ChessState) (e : FinishGameEvent) (w w' : World F DB)
      (r : FinishedGameResult)
      → handle_finished_game floats querier now s e w ≡ some (handled w' r)
      → (advances : List Text) × (handle_finished_game floats querier now' s e w'
          ≡ some (handled (record w' { advances = advances }) r))
  unfolding handle_finished_game
  handle_finished_game-again now now' s e w w' r q = elim (Option-cases (backfill_event s e)) [
    | inl n ↦ cc (rw n at q)
    | inr (e', f) ↦
        let (w1, r1, advances, first, second) = again_filled now now' e' w in
        let same : handled w1 r1 ≡ handled w' r = cc (rw f at q) in
        let same_world : w1 ≡ w' = cc in
        let same_result : r1 ≡ r = cc in
        (
          advances,
          ap (λ o. handle_backfilled floats querier now' o w') f
              ∙ subst
                  (λ v.
                    handle_filled floats querier now' e' v
                    ≡ some (handled (record v { advances = advances }) r1))
                  same_world second
              ∙ ap (λ x. some (handled (record w' { advances = advances }) x)) same_result,
        )
  ]

  -- The event of a finished game is handled without a panic, with a result unless it is a timeout
  -- of a game whose state is gone.
  pub handle_finished_game-returns :
      (now : ℕ) (s : Option ChessState) (e : FinishGameEvent) (w : World F DB)
      → (out : Handled F DB) × (handle_finished_game floats querier now s e w ≡ some out)
        × ((out ≡ no_state) ↔ (backfill_event s e ≡ none))
  unfolding handle_finished_game
  handle_finished_game-returns now s e w = elim (Option-cases (backfill_event s e)) [
    | inl n ↦ (no_state, ap (λ o. handle_backfilled floats querier now o w) n, (λ x. n, λ x. refl))
    | inr (e', f) ↦
        let (w1, r1, advances, first, second) = again_filled now now e' w in
        (
          handled w1 r1,
          ap (λ o. handle_backfilled floats querier now o w) f ∙ first,
          (λ x. cc, λ x. cc),
        )
  ]

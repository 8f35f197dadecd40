-- ===== src/Gameplay/Service/Ending.antt =====
-- The end of a game: the events that MakeGameMove and EndGame put into the queue.
use hexchess.Prelude.{
  ◌≡◌, refl, sym, ◌∙◌, ap, subst, Bool, true, false, not, none, some, arith, Bool-cases, inl, inr,
  if◌then◌else◌,
}
use hexchess.Prelude.Int.{same_id, ≡-of_same_id}
use hexchess.Chess.Board.{Board}
use hexchess.Chess.Notation.{Move}
use hexchess.Chess.Game.{clear_tables}
use hexchess.Chess.Start.{new_initial_board}
use hexchess.Model.Enums.{checkmate, forfeit, ReplayCause}
use hexchess.Tournament.Scoring.{ReplayResult, white_win, black_win}
use hexchess.Gameplay.State.{
  aborted, finished, is_ended, PlayerState, ChessState, has_both_players, is_either_player, is_same,
}
use hexchess.Gameplay.Service.{
  finished_game, forfeit_player, Updated, updated, failed, end_game, FinishGameEvent, commit_move,
  commit_end,
}
use hexchess.Gameplay.Service.Moving.{MadeMove}
use hexchess.Gameplay.Service.Creation.{new_initial_board-returns}

-- The event of the end of the game of `s`, with the moves of `s`.
abbrev pub event_of : Board → ReplayResult → ReplayCause → ChessState → FinishGameEvent
event_of initial result cause s = record {
  game_id = s.id;
  initial_board = initial;
  moves = s.game.moves;
  white_id = s.white_player.id;
  black_id = s.black_player.id;
  replay_mode = s.mode;
  replay_result = result;
  replay_cause = cause;
}

-- The colour to move wins.
abbrev pub win_for : Bool → ReplayResult
win_for is_white = if is_white then white_win else black_win

turn_passed :
    (p : PlayerState) (mv : Move) (s s' : ChessState)
    → (m : MadeMove p mv s s') → m.after.board.is_white_turn ≡ not s.game.board.is_white_turn
turn_passed p mv s s' m =
    ap Board.is_white_turn m.plays.board
    ∙ m.plays.made.turn
    ∙ ap (λ b. not b.is_white_turn) m.ensured.position.board

ended_after :
    (mate : Bool) (s : ChessState)
    → is_ended s.end_state ≡ false
    → is_ended (if mate then finished else s.end_state) ≡ mate
unfolding is_ended
ended_after true s e = refl
ended_after false s e = e

announced :
    (s' : ChessState) (initial : Board) (c w : Bool)
    → new_initial_board ≡ some initial
    → is_ended s'.end_state ≡ c
    → has_both_players s' ≡ true
    → s'.game.board.is_white_turn ≡ not w
    → commit_move s' ≡ some (if c then some (event_of initial (win_for w) checkmate s') else none)
unfolding commit_move
announced s' initial true w e ended both turn =
    elim w
        as (λ w.
          s'.game.board.is_white_turn ≡ not w
          → commit_move s' ≡ some (some (event_of initial (win_for w) checkmate s'))) [
            | true ↦ λ t. rw (ended, both, e, t) refl
            | false ↦ λ t. rw (ended, both, e, t) refl
          ]
      turn
announced s' initial false w e ended both turn = rw ended refl

-- After a move that was made, the commit of MakeGameMove does not panic. It announces a win for the
-- side that moved, by checkmate, if the move was checkmate, and nothing otherwise. The event has the
-- players and the moves of the new state, and the starting position for its initial board,
-- whatever that of the game is.
pub commit_move-MadeMove :
    (p : PlayerState) (mv : Move) (s s' : ChessState)
    → (m : MadeMove p mv s s')
    → (initial : Board) × (new_initial_board ≡ some initial)
      × (commit_move s'
          ≡ some (
              if m.mate
              then some (event_of initial (win_for s.game.board.is_white_turn) checkmate s')
              else none))
unfolding clear_tables has_both_players is_ended
commit_move-MadeMove p mv s s' m =
    let (initial, e) = new_initial_board-returns in
    let ended : is_ended s'.end_state ≡ m.mate =
      ap (λ x. is_ended x.end_state) m.next ∙ ended_after m.mate s m.on_turn.going_on in
    let both = ap has_both_players m.next ∙ m.on_turn.both in
    let turn = ap (λ x. x.game.board.is_white_turn) m.next ∙ turn_passed p mv s s' m in
    (initial, e, announced s' initial m.mate s.game.board.is_white_turn e ended both turn)

-- What EndGame does.
pub data Ended (p : PlayerState) (s : ChessState) : Updated → Type 0 where
  already : is_ended s.end_state ≡ true → Ended p s (failed finished_game)
  stranger :
      is_ended s.end_state ≡ false
      → is_either_player s p ≡ false
      → Ended p s (failed forfeit_player)
  gave_up :
      is_ended s.end_state ≡ false
      → is_either_player s p ≡ true
      → has_both_players s ≡ true
      → Ended p s (updated (record s { end_state = finished }))
  called_off :
      is_ended s.end_state ≡ false
      → is_either_player s p ≡ true
      → has_both_players s ≡ false
      → Ended p s (updated (record s { end_state = aborted }))

-- A player of a game that has not ended ends it: it is finished if both players are there, and aborted
-- otherwise. A game that has ended, and anyone else, is an error.
pub end_game-Ended : (p : PlayerState) (s : ChessState) → Ended p s (end_game p s)
unfolding end_game has_both_players
end_game-Ended p s = elim (Bool-cases (is_ended s.end_state)) [
  | inl e ↦ subst (Ended p s) (sym (ground (arith, e))) (already e)
  | inr e ↦ elim (Bool-cases (is_either_player s p)) [
    | inr o ↦ subst (Ended p s) (sym (ground (arith, e, o))) (stranger e o)
    | inl o ↦ elim (Bool-cases (has_both_players s)) [
      | inl b ↦ subst (Ended p s) (sym (ground (arith, e, o, b))) (gave_up e o b)
      | inr b ↦ subst (Ended p s) (sym (ground (arith, e, o, b))) (called_off e o b)
    ]
  ]
]

-- If a player gives up a game of two different players that are there, the commit of EndGame announces
-- a win of the other one, by forfeit, without a panic.
pub commit_end-wins_other :
    (p : PlayerState) (s : ChessState)
    → has_both_players s ≡ true
    → same_id s.white_player.id s.black_player.id ≡ false
    → is_either_player s p ≡ true
    → (initial : Board) × (white_won : Bool) × (commit_end p (record s { end_state = finished })
        ≡ some (some (event_of initial (win_for white_won) forfeit s)))
      × (same_id (if white_won then s.black_player.id else s.white_player.id) p.id ≡ true)
      × (same_id (if white_won then s.white_player.id else s.black_player.id) p.id ≡ false)
unfolding commit_end has_both_players is_ended is_either_player is_same
commit_end-wins_other p s b apart either =
    let (initial, e) = new_initial_board-returns in
    elim (Bool-cases (same_id s.black_player.id p.id)) [
      | inl k ↦ (
        initial,
        true,
        ground (arith, b, e, k),
        k,
        rw (← ≡-of_same_id s.black_player.id p.id k) apart,
      )
      | inr k ↦ (initial, false, ground (arith, b, e, k), ground (arith, either, k), k)
    ]

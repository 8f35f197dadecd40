-- ===== src/Gameplay/Service/Moving.antt =====
-- `MakeGameMove`.
use hexchess.Prelude.{
  ◌≡◌, refl, if◌then◌else◌, Bool, true, false, some, arith, Bool-cases, inl, inr,
}
use hexchess.Prelude.Int.{pos}
use hexchess.Chess.Notation.{Move}
use hexchess.Chess.Game.{Game, checkmate, clear_tables}
use hexchess.Chess.Game.Play.{MoveError, MoveResult, moved, refused}
use hexchess.Chess.Game.Play.Validity.{Legal}
use hexchess.Chess.Game.Play.Turns.{Plays, Outcome, new_valid_move-Outcome}
use hexchess.Chess.Game.Replay.Redone.{Replays-same, Plays-Replays}
use hexchess.Gameplay.State.{
  finished, PlayerState, ChessState, has_both_players, same_id, is_ended, curr_player,
}
use hexchess.Gameplay.Service.{
  GameError, started_game, finished_game, wrong_turn, invalid_move, Updated, updated, failed,
  after_move, settle_move, play_move, make_game_move,
}
use hexchess.Gameplay.Service.Sane.{
  Sane, Consistent, Ensured, ensure_piece_moves-Ensured, checkmate-returns, clear_tables-Consistent,
}

-- The game is on, and it is the turn of the player.
pub record OnTurn (p : PlayerState) (s : ChessState) : Type 0 where
  pub both : has_both_players s ≡ true
  pub going_on : is_ended s.end_state ≡ false
  pub turn : same_id (curr_player s).id p.id ≡ true

-- A legal move in the position of `s`, and the state after it.
pub record MadeMove (p : PlayerState) (mv : Move) (s s' : ChessState) : Type 0 where
  pub on_turn : OnTurn p s
  pub before : Game
  pub ensured : Ensured s.game before
  pub after : Game
  pub plays : Plays before mv after
  pub mate : Bool
  pub decided : checkmate after ≡ some mate
  pub next : ◌≡◌ {A = ChessState} s' (record s {
    end_state = if mate then finished else s.end_state;
    undo_id = pos 0;
    game = clear_tables after;
  })

-- Why a move is refused.
pub data Refused (p : PlayerState) (mv : Move) (s : ChessState) : GameError → Type 0 where
  waiting : has_both_players s ≡ false → Refused p mv s started_game
  over : has_both_players s ≡ true → is_ended s.end_state ≡ true → Refused p mv s finished_game
  turn_of_other :
      has_both_players s ≡ true
      → is_ended s.end_state ≡ false
      → same_id (curr_player s).id p.id ≡ false
      → Refused p mv s (wrong_turn p.id (curr_player s).id)
  illegal :
      (before : Game) (e : MoveError)
      → OnTurn p s
      → Ensured s.game before
      → ¬ Legal before mv
      → e.move ≡ mv
      → Refused p mv s (invalid_move p.id e)

abbrev pub MoveAnswer : PlayerState → Move → ChessState → Updated → Type 0
MoveAnswer p mv s (updated s') = MadeMove p mv s s'
MoveAnswer p mv s (failed e) = Refused p mv s e

-- Both seats are taken, so that the player to move is there.
curr_present : (s : ChessState) → has_both_players s ≡ true → (curr_player s).present ≡ true
unfolding has_both_players curr_player
curr_present s b = ground arith

settled :
    (p : PlayerState) (mv : Move) (s : ChessState) (before after : Game) (r : MoveResult)
    → OnTurn p s
    → Ensured s.game before
    → Outcome before mv after r
    → (u : Updated) × (settle_move p s (after, r) ≡ some u) × MoveAnswer p mv s u
settled p mv s before after (refused e) o en (bad, same, about) =
    (failed (invalid_move p.id e), refl, illegal before e o en bad about)
settled p mv s before after (moved hm) o en (plays, told) =
    let (c, e) = checkmate-returns after in
    (
      updated (after_move s after c),
      rw e refl,
      record {
        on_turn = o;
        before = before;
        ensured = en;
        after = after;
        plays = plays;
        mate = c;
        decided = e;
        next = refl;
      },
    )

answer-OnTurn :
    (p : PlayerState) (mv : Move) (s : ChessState)
    → Consistent s.game
    → OnTurn p s
    → (u : Updated) × (play_move p mv s ≡ some u) × MoveAnswer p mv s u
answer-OnTurn p mv s c o =
    let (g, ready, en) = ensure_piece_moves-Ensured s.game c in
    let (after, r, plays, out) = new_valid_move-Outcome g mv en.playable in
    let (u, e, a) = settled p mv s g after r o en out in (u, rw (ready, plays) e, a)

-- On a state whose move lists are sound where they are there, MakeGameMove returns without a panic for
-- every player and move. Either both seats are taken, the game has not ended, it is the turn of the
-- player and the move is legal: then the move is made, the game is finished exactly if that is
-- checkmate, and an undo that was asked for is dropped. Or it returns the error of the first of
-- these conditions that does not hold.
pub make_game_move-MoveAnswer :
    (p : PlayerState) (mv : Move) (s : ChessState)
    → Consistent s.game
    → (u : Updated) × (make_game_move p mv s ≡ some u) × MoveAnswer p mv s u
unfolding make_game_move
make_game_move-MoveAnswer p mv s c = elim (Bool-cases (has_both_players s)) [
  | inr b ↦ (failed started_game, rw b refl, waiting b)
  | inl b ↦ elim (Bool-cases (is_ended s.end_state)) [
    | inl e ↦ (failed finished_game, rw (b, e) refl, over b e)
    | inr e ↦ elim (Bool-cases (same_id (curr_player s).id p.id)) [
      | inr t ↦ (
        failed (wrong_turn p.id (curr_player s).id),
        rw (b, e, t, curr_present s b) refl,
        turn_of_other b e t,
      )
      | inl t ↦
          let (u, q, a) = answer-OnTurn p mv s c (record { both = b; going_on = e; turn = t }) in
          (u, rw (b, e, t, curr_present s b) q, a)
    ]
  ]
]

pub MadeMove-Sane :
    (p : PlayerState) (mv : Move) (s s' : ChessState) → Sane s → MadeMove p mv s s' → Sane s'
unfolding clear_tables has_both_players
MadeMove-Sane p mv s s' sane m = rw m.next (record {
  replays =
      Replays-same s.initial_board m.after (clear_tables m.after)
        (record { board = refl; taken_white = refl; taken_black = refl }) refl
        (Plays-Replays s.initial_board m.before m.after mv
          (Replays-same s.initial_board s.game m.before m.ensured.position m.ensured.history
            sane.replays)
          m.plays);
  consistent = clear_tables-Consistent m.after m.plays.playable;
  apart = sane.apart;
})

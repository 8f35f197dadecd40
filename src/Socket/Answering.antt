-- ===== src/Socket/Answering.antt =====
-- What a client of backend/network/websocket.go gets for a message, and what it does to the game.
use hexchess.Prelude.{
  ◌≡◌, refl, ◌∙◌, ap, Bool, true, false, subst, ◌&&◌, Option, none, some, List, [], ◌∷◌, ◌++◌,
  ◌>>=◌, if◌then◌else◌, Bool-cases, inl, inr, arith,
}
use hexchess.Model.Enums.{Text, forfeit, checkmate}
use hexchess.Chess.Notation.{Move, HistMove}
use hexchess.Chess.Game.{clear_tables}
use hexchess.Tournament.Scoring.{white_win, black_win}
use hexchess.Chess.Board.{Board}
use hexchess.Chess.Start.{new_initial_board}
use hexchess.Gameplay.State.{PlayerState, ChessState, is_ended, has_both_players, same_id}
use hexchess.Gameplay.Service.{
  GameError, Updated, updated, failed, UndoKind, end_game, FinishGameEvent, commit_move, commit_end,
}
use hexchess.Gameplay.Service.Sane.{Sane}
use hexchess.Gameplay.Service.Seats.{SaneAnswer}
use hexchess.Gameplay.Service.Creation.{new_initial_board-returns}
use hexchess.Gameplay.Service.Moving.{MadeMove, MoveAnswer, make_game_move-MoveAnswer}
use hexchess.Gameplay.Service.Ending.{event_of, win_for, commit_move-MadeMove}
use hexchess.Gameplay.Service.Lives.{Request, play, attempt, resign, answer, answer-Sane}
use hexchess.Socket.{
  GameInput, forfeit_input, ping_input, unset, move_input, chat_input, undo_input, message_type,
  no_chess_state, chat_failed, invalid_undo_kind, game_error, GameOutput, forfeit_output,
  move_output, chat_output, undo_output, silent, broadcasted, MessageResult, erred, settled,
  run_request, last_move, handle_game_forfeit, handle_game_move, undo_kinds, undo_for,
  handle_game_undo, handle_game_chat, handle_game_message,
}

-- The request that a message asks for.
abbrev pub undo_request : PlayerState → Option UndoKind → Option Request
undo_request p none = none
undo_request p (some k) = some (attempt k p)

abbrev pub request_of : PlayerState → GameInput → Option Request
request_of p forfeit_input = some (resign p)
request_of p (move_input mv) = some (play p mv)
request_of p (undo_input kind) = undo_request p (undo_kinds kind)
request_of p (chat_input text) = none
request_of p ping_input = none
request_of p unset = none

-- What a request that was accepted announces on the stream of finished games and broadcasts, from the
-- state that it left: a forfeit of a game with two players the end, with the other player as its
-- winner, and a move the end that it made, if it made one.
pub data Told (p : PlayerState)
    : GameInput → ChessState → Option FinishGameEvent → GameOutput → Type 0 where
  told_forfeit :
      (s : ChessState) (initial : Board)
      → new_initial_board ≡ some initial
      → Told p forfeit_input s
          (if is_ended s.end_state && has_both_players s
            then some (
                event_of initial
                  (if same_id s.black_player.id p.id then white_win else black_win)
                  forfeit
                  s)
            else none)
          (forfeit_output s.end_state)
  told_move :
      (mv : Move) (s : ChessState) (event : Option FinishGameEvent) (m : HistMove)
      → commit_move s ≡ some event
      → last_move s.game.moves ≡ some m
      → Told p (move_input mv) s event (move_output m s)
  told_undo :
      (kind : Text) (s : ChessState) → Told p (undo_input kind) s none (undo_output kind p.id s)

-- The answers to a message, each with when it is given and what it does.
pub data Answered (insert_chat : PlayerState → Text → Bool) (p : PlayerState)
    : Option ChessState → GameInput → MessageResult → Type 0 where
  pinged :
      (stored : Option ChessState)
      → Answered insert_chat p stored ping_input
          (record { stored = stored; event = none; reply = silent })
  chatted :
      (stored : Option ChessState) (text : Text)
      → insert_chat p text ≡ true
      → Answered insert_chat p stored
          (chat_input text)
          (record { stored = stored; event = none; reply = broadcasted (chat_output p text) })
  not_inserted :
      (stored : Option ChessState) (text : Text)
      → insert_chat p text ≡ false
      → Answered insert_chat p stored (chat_input text) (erred stored chat_failed)
  unknown :
      (stored : Option ChessState) → Answered insert_chat p stored unset (erred stored message_type)
  unknown_undo :
      (stored : Option ChessState) (kind : Text)
      → undo_kinds kind ≡ none
      → Answered insert_chat p stored (undo_input kind) (erred stored invalid_undo_kind)
  missing :
      (i : GameInput) (r : Request)
      → request_of p i ≡ some r
      → Answered insert_chat p none i (erred none no_chess_state)
  rejected :
      (i : GameInput) (r : Request) (s : ChessState) (e : GameError)
      → request_of p i ≡ some r
      → answer r s ≡ some (failed e)
      → Answered insert_chat p (some s) i (erred (some s) (game_error e))
  served :
      (i : GameInput) (r : Request) (s s' : ChessState)
      → request_of p i ≡ some r
      → answer r s ≡ some (updated s')
      → (event : Option FinishGameEvent) (out : GameOutput) → Told p i s' event out
      → Answered insert_chat p
          (some s)
          i
          (record { stored = some s'; event = event; reply = broadcasted out })

abbrev pub StoredSane : Option ChessState → Type 0
StoredSane none = Unit
StoredSane (some s) = Sane s

-- A message on a state is answered in one of these ways.
abbrev pub IsAnswered :
    (PlayerState → Text → Bool)
    → PlayerState
    → Option ChessState
    → GameInput
    → Option MessageResult
    → Type 0
IsAnswered insert_chat p stored i o =
    (h : MessageResult) × (o ≡ some h) × Answered insert_chat p stored i h × StoredSane h.stored

module _ (commit : ChessState → Option (Option FinishGameEvent))
    (output : ChessState → Option GameOutput) where
  -- The commit and the output of an answer do not panic.
  abbrev Completes : PlayerState → GameInput → Updated → Type 0
  Completes p i (failed e) = Unit
  Completes p i (updated s') =
      (event : Option FinishGameEvent) × (commit s' ≡ some event)
      × (out : GameOutput) × (output s' ≡ some out)
      × Told p i s' event out

module _ (insert_chat : PlayerState → Text → Bool)
    (commit : ChessState → Option (Option FinishGameEvent))
    (output : ChessState → Option GameOutput) where
  settled-IsAnswered :
      (p : PlayerState) (i : GameInput) (r : Request) (s : ChessState) (u : Updated)
      → request_of p i ≡ some r
      → answer r s ≡ some u
      → SaneAnswer u
      → Sane s
      → Completes commit output p i u
      → IsAnswered insert_chat p (some s) i (settled commit output s u)
  settled-IsAnswered p i r s (failed e) q a sane before c =
      (erred (some s) (game_error e), refl, rejected i r s e q a, before)
  settled-IsAnswered p i r s (updated s') q a sane before (event, ce, out, oe, told) = (
    record { stored = some s'; event = event; reply = broadcasted out },
    rw (ce, oe) refl,
    served i r s s' q a event out told,
    sane,
  )

  run_request-IsAnswered :
      (p : PlayerState) (i : GameInput) (r : Request) (stored : Option ChessState)
      → request_of p i ≡ some r
      → StoredSane stored
      → ((s : ChessState)
          → Sane s
          → (u : Updated) × (answer r s ≡ some u) × Completes commit output p i u)
      → IsAnswered insert_chat p stored i (run_request commit output (answer r) stored)
  run_request-IsAnswered p i r none q sane completes =
      (erred none no_chess_state, refl, missing i r q, tt)
  run_request-IsAnswered p i r (some s) q sane completes =
      let (u, e, c) = completes s sane in
      let (v, e', after) = answer-Sane r s sane in
      let same : v ≡ u = ground (arith, e, e') in
      let (h, hs, a, left) =
        settled-IsAnswered p i r s u q e (subst SaneAnswer same after) sane c in
      (h, rw e hs, a, left)

last_move-append : (ms : List HistMove) (m : HistMove) → last_move (ms ++ m ∷ []) ≡ some m
last_move-append [] m = refl
last_move-append (x ∷ []) m = refl
last_move-append (x ∷ y ∷ ms) m = last_move-append (y ∷ ms) m

-- What the commit of a forfeit announces.
commit_end-Told :
    (p : PlayerState) (s : ChessState)
    → (event : Option FinishGameEvent) × (commit_end p s ≡ some event)
      × Told p forfeit_input s event (forfeit_output s.end_state)
unfolding commit_end
commit_end-Told p s =
    let (initial, e) = new_initial_board-returns in
    (
      (if is_ended s.end_state && has_both_players s
          then some (
              event_of initial (if same_id s.black_player.id p.id then white_win else black_win)
                forfeit s)
          else none),
      elim (Bool-cases (is_ended s.end_state && has_both_players s)) [
        | inl b ↦ rw (b, e) refl
        | inr b ↦ rw b refl
      ],
      told_forfeit s initial e,
    )

-- After a move was made there is a last one.
made_move-last :
    (p : PlayerState) (mv : Move) (s s' : ChessState)
    → MadeMove p mv s s'
    → (m : HistMove) × (last_move s'.game.moves ≡ some m)
unfolding clear_tables
made_move-last p mv s s' m = (
  m.plays.made.hist,
  ap (λ x. last_move x.game.moves) m.next
      ∙ ap last_move m.plays.history
      ∙ last_move-append m.before.moves m.plays.made.hist,
)

move_told :
    (p : PlayerState) (mv : Move) (s : ChessState) (u : Updated)
    → MoveAnswer p mv s u
    → Completes commit_move
        (λ s. do m ← last_move s.game.moves; some (move_output m s))
        p
        (move_input mv)
        u
move_told p mv s (failed e) a = tt
move_told p mv s (updated s') a =
    let (initial, i, e) = commit_move-MadeMove p mv s s' a in
    let (m, l) = made_move-last p mv s s' a in
    (
      (if a.mate
          then some (event_of initial (win_for s.game.board.is_white_turn) checkmate s')
          else none),
      e,
      move_output m s',
      rw l refl,
      told_move mv s' _ m e l,
    )

end_told :
    (p : PlayerState) (u : Updated)
    → Completes (commit_end p) (λ s. some (forfeit_output s.end_state)) p forfeit_input u
end_told p (failed e) = tt
end_told p (updated s') =
    let (event, e, t) = commit_end-Told p s' in (event, e, forfeit_output s'.end_state, refl, t)

undo_told :
    (p : PlayerState) (kind : Text) (u : Updated)
    → Completes (λ s. some none) (λ s. some (undo_output kind p.id s)) p (undo_input kind) u
undo_told p kind (failed e) = tt
undo_told p kind (updated s') = (none, refl, undo_output kind p.id s', refl, told_undo kind s')

module _ (insert_chat : PlayerState → Text → Bool) where
  handle_game_move-IsAnswered :
      (p : PlayerState) (mv : Move) (stored : Option ChessState)
      → StoredSane stored
      → IsAnswered insert_chat p stored (move_input mv) (handle_game_move p mv stored)
  unfolding handle_game_move
  handle_game_move-IsAnswered p mv stored sane =
      run_request-IsAnswered insert_chat commit_move
        (λ s. do m ← last_move s.game.moves; some (move_output m s)) p (move_input mv) (play p mv)
        stored refl sane
        (λ s before.
          let (u, e, a) = make_game_move-MoveAnswer p mv s before.consistent in
          (u, e, move_told p mv s u a))

  handle_game_forfeit-IsAnswered :
      (p : PlayerState) (stored : Option ChessState)
      → StoredSane stored
      → IsAnswered insert_chat p stored forfeit_input (handle_game_forfeit p stored)
  unfolding handle_game_forfeit
  handle_game_forfeit-IsAnswered p stored sane =
      run_request-IsAnswered insert_chat (commit_end p) (λ s. some (forfeit_output s.end_state)) p
        forfeit_input (resign p) stored refl sane
        (λ s before. (end_game p s, refl, end_told p (end_game p s)))

  undo_for-IsAnswered :
      (p : PlayerState) (kind : Text) (k : Option UndoKind) (stored : Option ChessState)
      → undo_kinds kind ≡ k
      → StoredSane stored
      → IsAnswered insert_chat p stored (undo_input kind) (undo_for p kind k stored)
  undo_for-IsAnswered p kind none stored e sane =
      (erred stored invalid_undo_kind, refl, unknown_undo stored kind e, sane)
  undo_for-IsAnswered p kind (some k) stored e sane =
      run_request-IsAnswered insert_chat (λ s. some none) (λ s. some (undo_output kind p.id s)) p
        (undo_input kind) (attempt k p) stored (ap (undo_request p) e) sane
        (λ s before.
          let (u, q, a) = answer-Sane (attempt k p) s before in (u, q, undo_told p kind u))

  -- On a missing state or a Sane one, that is, one whose history, with its promotions, gives back its
  -- position when it is redone from the initial board, whose move lists are sound where it has both, and
  -- whose two players differ, every message of every client is answered without a panic. A ping gets
  -- nothing, a chat is broadcast if it could be inserted, and a message of no kind or with an unknown
  -- kind of undo is an error. Any other is a request: where the state is missing or the request is
  -- refused the sender alone gets the error, and nothing is stored or announced; otherwise the new state
  -- is stored, and it is Sane. What is then broadcast is, of the new state, its end for a forfeit, its
  -- last move with it for a move, and the state itself for an undo. What is announced is, for a forfeit
  -- that ends a game with two players, the other player as the winner, what `commit_move` makes of the new state for a
  -- move, and nothing for an undo. A state that was read from redis after a promotion to another piece
  -- than a queen need not be Sane.
  pub handle_game_message-IsAnswered :
      (p : PlayerState) (i : GameInput) (stored : Option ChessState)
      → StoredSane stored
      → IsAnswered insert_chat p stored i (handle_game_message insert_chat p i stored)
  unfolding handle_game_message handle_game_undo handle_game_chat
  handle_game_message-IsAnswered p forfeit_input stored sane =
      handle_game_forfeit-IsAnswered p stored sane
  handle_game_message-IsAnswered p (move_input mv) stored sane =
      handle_game_move-IsAnswered p mv stored sane
  handle_game_message-IsAnswered p (undo_input kind) stored sane =
      undo_for-IsAnswered p kind (undo_kinds kind) stored refl sane
  handle_game_message-IsAnswered p (chat_input text) stored sane =
      elim (Bool-cases (insert_chat p text)) [
        | inl e ↦ (
          record { stored = stored; event = none; reply = broadcasted (chat_output p text) },
          rw e refl,
          chatted stored text e,
          sane,
        )
        | inr e ↦ (erred stored chat_failed, rw e refl, not_inserted stored text e, sane)
      ]
  handle_game_message-IsAnswered p ping_input stored sane =
      (record { stored = stored; event = none; reply = silent }, refl, pinged stored, sane)
  handle_game_message-IsAnswered p unset stored sane =
      (erred stored message_type, refl, unknown stored, sane)

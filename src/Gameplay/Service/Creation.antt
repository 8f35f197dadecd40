-- ===== src/Gameplay/Service/Creation.antt =====
-- CreateGame of backend/service/gamecreate.go.
use hexchess.Prelude.{
  ℕ, ◌≡◌, refl, Bool, true, false, ◌&&◌, Option, none, some, List, [], ◌∷◌, and-left, and-right,
  ◌>>=◌,
}
use hexchess.Chess.Board.{Board, Placement, place_all, set, update, in_array}
use hexchess.Chess.Game.{Game, new_game, init_piece_moves}
use hexchess.Chess.Game.Ready.{init_piece_moves-Ready}
use hexchess.Chess.Game.Play.Turns.{Playable-of_Ready}
use hexchess.Chess.Game.Replay.Redone.{started-Replays}
use hexchess.Chess.Start.{new_start_board, new_initial_board, placements, blank_board}
use hexchess.Gameplay.State.{
  or_default, ChessState, ChessStateArgs, new_chess_state_value, has_both_players, same_id,
}
use hexchess.Gameplay.Service.Sane.{Sane}

abbrev pub with_moves : ChessState → Option ChessState
with_moves s = do g ← init_piece_moves s.game; some (record s { game = g })

-- `args.ID`, or a new identifier where that is the empty text.
abbrev pub with_id : List ℕ → ChessStateArgs → ChessStateArgs
with_id new_id args = record args { id = elim args.id [ [] ↦ new_id | c ∷ cs ↦ c ∷ cs ] }

-- CreateGame at a time, with the identifier that would be new.
unfoldable pub create_game : ℕ → List ℕ → ChessStateArgs → Option ChessState
create_game now new_id args = do s ← new_chess_state_value now (with_id new_id args); with_moves s

-- Squares within the array.
abbrev all_in_array : List Placement → Bool
all_in_array [] = true
all_in_array ((f, r, p) ∷ ps) = in_array f r && all_in_array ps

place_all-returns :
    (b : Board) (ps : List Placement)
    → all_in_array ps ≡ true
    → (b' : Board) × (place_all b ps ≡ some b')
unfolding place_all set
place_all-returns b [] ins = (b, refl)
place_all-returns b ((f, r, p) ∷ ps) ins =
    let (b', e) =
      place_all-returns (record b { pieces = update b.pieces f r p }) ps
        (and-right (in_array f r) (all_in_array ps) ins) in
    (b', rw (and-left (in_array f r) (all_in_array ps) ins) e)

place_all-empty : (b : Board) → place_all b [] ≡ some b
unfolding place_all
place_all-empty b = refl

pub new_initial_board-returns : (b : Board) × (new_initial_board ≡ some b)
unfolding new_initial_board
new_initial_board-returns = place_all-returns (blank_board true) placements refl

pub new_start_board-returns : (b : Board) × (new_start_board [] ≡ some b)
unfolding new_start_board
new_start_board-returns = let (b, e) = new_initial_board-returns in (b, rw e (place_all-empty b))

-- The arguments of a game that is to be played from its start, by two players if both are given.
pub record Fresh (args : ChessStateArgs) : Type 0 where
  pub no_game : args.game ≡ none
  pub apart :
      (args.white.present && args.black.present) ≡ true
      → same_id args.white.id args.black.id ≡ false

-- The state that CreateGame stores.
abbrev pub stored : ℕ → ChessStateArgs → Board → Game → ChessState
stored now args board g = record {
  undo_id = args.undo_id;
  id = args.id;
  start_time = now;
  white_player = args.white;
  black_player = args.black;
  first_color = args.first_color;
  mode = args.mode;
  end_state = args.end_state;
  initial_board = board;
  game = g;
}

pub create_game-Sane :
    (now : ℕ) (new_id : List ℕ) (args : ChessStateArgs)
    → Fresh args
    → (s : ChessState) × (create_game now new_id args ≡ some s) × Sane s
unfolding create_game new_chess_state_value has_both_players
create_game-Sane now new_id args fresh =
    let (start, e) = new_start_board-returns in
    let board = or_default args.initial_board start in
    let (g, ready, r) = init_piece_moves-Ready (new_game board) in
    (
      stored now (with_id new_id args) board g,
      rw (e, fresh.no_game, ready) refl,
      record {
        replays = started-Replays board g r;
        consistent = λ ws bs w b. Playable-of_Ready r;
        apart = fresh.apart;
      },
    )

-- CreateGame returns without a panic if it is not given a game.
pub create_game-returns :
    (now : ℕ) (new_id : List ℕ) (args : ChessStateArgs)
    → args.game ≡ none
    → (s : ChessState) × (create_game now new_id args ≡ some s)
unfolding create_game new_chess_state_value
create_game-returns now new_id args no_game =
    let (start, e) = new_start_board-returns in
    let board = or_default args.initial_board start in
    let (g, ready, r) = init_piece_moves-Ready (new_game board) in
    (stored now (with_id new_id args) board g, rw (e, no_game, ready) refl)

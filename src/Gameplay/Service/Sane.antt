-- ===== src/Gameplay/Service/Sane.antt =====
-- What requests leave as it is in memory: that the history gives back the position.
use hexchess.Prelude.{
  ◌≡◌, refl, sym, ◌∙◌, Bool, true, false, ◌&&◌, Option, none, some, List, [], ◌∷◌, arith,
  Option-cases, inl, inr,
}
use hexchess.Chess.Hex.Range.{in_bounds-Inside}
use hexchess.Chess.Moves.{PieceMoves}
use hexchess.Chess.Game.{
  Game, ensure_piece_moves, checkmate, check, clear_tables, deep_copy, copied,
  get_turn_attack_table, stalemate,
}
use hexchess.Chess.Game.Ready.{Ready, init_piece_moves-Ready, find_king-KingAt}
use hexchess.Chess.Game.Play.Turns.{Playable, Playable-of_Ready}
use hexchess.Chess.Game.Replay.Redone.{Agrees, Replays}
use hexchess.Gameplay.State.{ChessState, has_both_players, same_id}

-- If both move lists are there, they are sound.
abbrev pub Consistent : Game → Type 0
Consistent g =
    (ws bs : List PieceMoves) → g.white_moves ≡ some ws → g.black_moves ≡ some bs → Playable g

-- The position, the history and sound lists of moves.
pub record Ensured (g g' : Game) : Type 0 where
  pub position : Agrees g g'
  pub history : g'.moves ≡ g.moves
  pub playable : Playable g'

pub of_Ready : {g g' : Game} → Ready g g' → Ensured g g'
of_Ready r = record {
  position = record { board = r.board; taken_white = r.taken_white; taken_black = r.taken_black };
  history = r.history;
  playable = Playable-of_Ready r;
}

pub ensure_piece_moves-Ensured :
    (g : Game) → Consistent g → (g' : Game) × (ensure_piece_moves g ≡ some g') × Ensured g g'
unfolding ensure_piece_moves
ensure_piece_moves-Ensured g c =
    let (g', e, r) = init_piece_moves-Ready g in
    elim (Option-cases g.black_moves) [
      | inl b ↦ (g', ground (arith, b, e), of_Ready r)
      | inr (bs, b) ↦ elim (Option-cases g.white_moves) [
        | inl w ↦ (g', ground (arith, b, w, e), of_Ready r)
        | inr (ws, w) ↦ (
          g,
          ground (arith, b, w),
          record {
            position = record { board = refl; taken_white = refl; taken_black = refl };
            history = refl;
            playable = c ws bs w b;
          },
        )
      ]
    ]

pub checkmate-returns : (g : Game) → (c : Bool) × (checkmate g ≡ some c)
unfolding checkmate check
checkmate-returns g =
    let (k, e, at_k) = find_king-KingAt g.board g.board.is_white_turn in
    elim (Option-cases k) [
      | inl n ↦ (false, rw (e, n) refl)
      | inr (h, s) ↦
          let i = in_bounds-Inside h (rw s at at_k).0 in
          (
            get_turn_attack_table g g.board.is_white_turn h.file h.rank && stalemate g,
            ground (arith, e, s, i),
          )
    ]

-- A history that, with its promotions, gives back the position, move lists that are sound where both
-- are there, and two players that are not the same one. A request on such a state leaves such a state;
-- storing it in redis loses promotions, so that what is read of it need not be such a state.
pub record Sane (s : ChessState) : Type 0 where
  pub replays : Replays s.initial_board s.game
  pub consistent : Consistent s.game
  pub apart : has_both_players s ≡ true → same_id s.white_player.id s.black_player.id ≡ false

copied_lem :
    (ms : Option (List PieceMoves)) (xs : List PieceMoves) → copied ms ≡ some xs → ms ≡ some xs
copied_lem none xs e = e
copied_lem (some []) xs e = cc
copied_lem (some (m ∷ ms)) xs e = e

without_tables : (g : Game) → Playable g → Playable (clear_tables g)
unfolding clear_tables
without_tables g p = record {
  board = refl;
  history = refl;
  taken_white = refl;
  taken_black = refl;
  white = p.white;
  black = p.black;
  white_listed = p.white_listed;
  black_listed = p.black_listed;
  white_sound = p.white_sound;
  black_sound = p.black_sound;
}

pub clear_tables-Consistent : (g : Game) → Playable g → Consistent (clear_tables g)
clear_tables-Consistent g p ws bs w b = without_tables g p

pub deep_copy-Consistent : (g : Game) → Playable g → Consistent (deep_copy g)
unfolding deep_copy
deep_copy-Consistent g p ws bs w b = record {
  board = refl;
  history = refl;
  taken_white = refl;
  taken_black = refl;
  white = p.white;
  black = p.black;
  white_listed = w ∙ sym (copied_lem g.white_moves ws w) ∙ p.white_listed;
  black_listed = b ∙ sym (copied_lem g.black_moves bs b) ∙ p.black_listed;
  white_sound = p.white_sound;
  black_sound = p.black_sound;
}

-- ===== src/Socket/Witnesses.antt =====
-- The theorem on the messages of clients at a game with an undo that was asked for.
use hexchess.Prelude.{true, some, [], ◌∷◌}
use hexchess.Prelude.Int.{pos}
use hexchess.Gameplay.Witnesses.{player, asked, asked-Sane}
use hexchess.Socket.{undo_input, handle_game_message}
use hexchess.Socket.Answering.{IsAnswered, handle_game_message-IsAnswered}

handle_game_message-IsAnswered_example :
    IsAnswered
      (λ p text. true)
      (record player { id = pos 8 })
      (some asked)
      (undo_input (b'A' ∷ b'C' ∷ b'C' ∷ b'E' ∷ b'P' ∷ b'T' ∷ []))
      (handle_game_message
        (λ p text. true)
        (record player { id = pos 8 })
        (undo_input (b'A' ∷ b'C' ∷ b'C' ∷ b'E' ∷ b'P' ∷ b'T' ∷ []))
        (some asked))
handle_game_message-IsAnswered_example =
    handle_game_message-IsAnswered (λ p text. true) (record player { id = pos 8 })
      (undo_input (b'A' ∷ b'C' ∷ b'C' ∷ b'E' ∷ b'P' ∷ b'T' ∷ [])) (some asked) asked-Sane

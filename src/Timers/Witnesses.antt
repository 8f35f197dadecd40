-- ===== src/Timers/Witnesses.antt =====
-- The theorems on the timers of games at a set of one game.
use hexchess.Prelude.{◌≡◌, refl, ◌+◌, none, [], ◌∷◌, if◌then◌else◌}
use hexchess.Model.Enums.{Text}
use hexchess.Cache.{is_due}
use hexchess.Cache.Members.{one_if}
use hexchess.Cache.Table.{Table, table, table-Documented}
use hexchess.Timers.{Timers, poll_game_timers, iterations}
use hexchess.Timers.Polling.{events_of, is_polled, poll_game_timers-exact, iterations-once}

abbrev a_game : Text
a_game = b'a' ∷ []

abbrev one_timer : Timers Table
one_timer = record {
  game_timers = record { entries = (a_game, 5000) ∷ []; distinct = refl };
  stream = [];
}

iterations-once_example :
    events_of a_game (iterations table (4000 ∷ 6000 ∷ 8000 ∷ []) one_timer).stream
    ≡ 0 + one_if (is_polled (4000 ∷ 6000 ∷ 8000 ∷ []) (table.zscore a_game one_timer.game_timers))
iterations-once_example =
    iterations-once table table-Documented (4000 ∷ 6000 ∷ 8000 ∷ []) one_timer a_game

poll_game_timers-exact_example :
    (table.zscore a_game (poll_game_timers table 6000 one_timer).game_timers ≡ (
      if is_due 6000 (table.zscore a_game one_timer.game_timers)
      then none
      else table.zscore a_game one_timer.game_timers))
    × (events_of a_game (poll_game_timers table 6000 one_timer).stream
        ≡ 0 + one_if (is_due 6000 (table.zscore a_game one_timer.game_timers)))
poll_game_timers-exact_example = poll_game_timers-exact table table-Documented 6000 one_timer a_game

-- ===== src/Timers.antt =====
-- The timers of games: backend/service/chesstimers.go with its script
-- backend/cache/scripts/POLL_GAME_TIMERS.lua, the loop of backend/trigger/timers.go, and the score that
-- backend/service/chessrepo.go writes. One partition of the games; a script runs as one step.
pub mod Polling
mod Witnesses
use hexchess.Prelude.{ℕ, ◌==◌, Bool, List, [], ◌∷◌, ◌++◌, map, if◌then◌else◌}
use hexchess.Model.Enums.{Text, ReplayCause, timeout}
use hexchess.Cache.{SortedSets}

-- What the script publishes of a game.
pub record TimerEvent : Type 0 where
  pub id : Text
  pub replay_cause : ReplayCause

pub record Timers (Z : Type 0) : Type 0 where
  pub game_timers : Z
  pub stream : List TimerEvent

abbrev pub timeout_event : Text → TimerEvent
timeout_event game_id = record { id = game_id; replay_cause = timeout }

module _ {Z : Type 0} (ops : SortedSets Z) where
  abbrev pub publish : List Text → Timers Z → Timers Z
  publish [] t = t
  publish (game_id ∷ due) t = record {
    game_timers = ops.zrem (game_id ∷ due) t.game_timers;
    stream = t.stream ++ map timeout_event (game_id ∷ due);
  }

  unfoldable pub poll_game_timers : ℕ → Timers Z → Timers Z
  poll_game_timers before_rank t = publish (ops.zrange_by_score before_rank t.game_timers) t

  -- An iteration of the loop runs `TryExpireTimers` at the present time.
  unfoldable pub iterations : List ℕ → Timers Z → Timers Z
  iterations [] t = t
  iterations (now ∷ nows) t = iterations nows (poll_game_timers now t)

  -- The end of `SetChessStatePiped`, at the time that it is given.
  unfoldable pub set_timer : ℕ → Text → Timers Z → Timers Z
  set_timer timer id t =
      if timer == 0 then t else record t { game_timers = ops.zadd timer id t.game_timers }

-- ===== src/Pubsub/Witnesses.antt =====
-- The theorems on the brokers of backend/pubsub/actor.go at a game with one client.
use hexchess.Prelude.{ℕ, ◌≡◌, refl, true, false, [], ◌∷◌, some, ◌>>=◌, arith}
use hexchess.Model.Enums.{Text}
use hexchess.Pubsub.{
  Channels, set_channel, contains_channel, BroadcastBroker, subscribe, unsubscribe, broadcast,
}
use hexchess.Pubsub.Shards.{unsubscribed_from}
use hexchess.Pubsub.Served.{Reached, new_broker, after, made, subscribed, passed}
use hexchess.Pubsub.Passing.{broadcast-Reached, unsubscribe-unsubscribe}

abbrev nothing_made : Channels ℕ
nothing_made x = record { buffer = []; capacity = 0; is_open = false }

abbrev a_game : Text
a_game = b'a' ∷ []

abbrev with_channel : BroadcastBroker ℕ
with_channel = record {
  actors_map = λ a. [];
  channels = set_channel 7 (record { buffer = []; capacity = 1; is_open = true }) nothing_made;
}

one_client : Reached (subscribe a_game 7 with_channel)
one_client =
    after (after (new_broker nothing_made) (made 7 1 (λ a. refl)))
      (subscribed a_game 7 (refl, λ a p. ground (arith, p)))

broadcast-Reached_example :
    broadcast a_game 3 (subscribe a_game 7 with_channel)
    ≡ some (passed a_game 3 (subscribe a_game 7 with_channel))
broadcast-Reached_example = broadcast-Reached one_client a_game 3

unsubscribe-unsubscribe_example :
    (unsubscribe a_game 7 (subscribe a_game 7 with_channel)
      ≡ some (unsubscribed_from a_game 7 (subscribe a_game 7 with_channel)))
    × (contains_channel
          ((unsubscribed_from a_game 7 (subscribe a_game 7 with_channel)).actors_map a_game)
          7
        ≡ false)
    × ((unsubscribe a_game 7 (subscribe a_game 7 with_channel) >>= unsubscribe a_game 7)
        ≡ unsubscribe a_game 7 (subscribe a_game 7 with_channel))
unsubscribe-unsubscribe_example = unsubscribe-unsubscribe one_client a_game 7

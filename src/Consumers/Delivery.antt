-- ===== src/Consumers/Delivery.antt =====
-- What happens to each message of a stream: backend/queue/consumers/streams.go.
use hexchess.Prelude.{
  ℕ, zero, suc, ◌≡◌, refl, Bool, true, false, ◌&&◌, Option, none, some, List, [], ◌∷◌, ◌++◌, take,
  drop, if◌then◌else◌, arith,
}
use mathlib.Core.List.{Perm}
use mathlib.Core.List.Perm
use hexchess.Model.Enums.{Text, same_text}
use hexchess.Consumers.{
  Message, without_id, StreamGroups, Documented, ConsumeOutcome, consumed, non_retryable, failed,
  panicked, StreamConsumer, Consuming, fmt_stream_key, settle, handle_data, handle_xread_message,
}

longer_text : (s : Text) (c : ℕ) (t : Text) → same_text (s ++ c ∷ t) s ≡ false
longer_text [] c t = refl
longer_text (x ∷ s) c t = ground (arith, longer_text s c t)

-- The stream of a partition is never the one that is named without a partition.
pub fmt_stream_key-other :
    (stream_key partition_key : Text)
    → same_text (fmt_stream_key stream_key partition_key) stream_key ≡ false
unfolding fmt_stream_key
fmt_stream_key-other stream_key partition_key =
    longer_text stream_key b':' (b'{' ∷ (partition_key ++ b'}' ∷ []))

-- The messages that so many rounds of so many messages give out, those that they leave, and the
-- first in the order in which they are handled.
abbrev pub given : ℕ → ℕ → List Message → List Message
given zero n msgs = []
given (suc rounds) n msgs = take n msgs ++ given rounds n (drop n msgs)

abbrev pub left : ℕ → ℕ → List Message → List Message
left zero n msgs = msgs
left (suc rounds) n msgs = left rounds n (drop n msgs)

abbrev pub handled : (List Message → List Message) → ℕ → ℕ → List Message → List Message
handled schedule zero n msgs = []
handled schedule (suc rounds) n msgs =
    schedule (take n msgs) ++ handled schedule rounds n (drop n msgs)

-- An outcome after which the message is acknowledged.
abbrev pub is_acked : ConsumeOutcome → Bool
is_acked consumed = true
is_acked failed = true
is_acked non_retryable = false
is_acked panicked = false

module _ {W : Type 0} (consumer : StreamConsumer W) where
  abbrev pub world_after : Option Text → W → W
  world_after none w = w
  world_after (some text) w = (consumer.consume_func text w).1

  -- What the function makes of the messages, each given to it once.
  abbrev pub worked : List Message → W → W
  worked [] w = w
  worked (msg ∷ msgs) w = worked msgs (world_after msg.data_field w)

  abbrev pub acked_data : Option Text → W → Bool
  acked_data none w = false
  acked_data (some text) w = is_acked (consumer.consume_func text w).0

module _ {R W : Type 0} (ops : StreamGroups R) (documented : Documented ops)
    (consumer : StreamConsumer W) where
  -- The group of the consumer.
  abbrev group : Text
  group = consumer.consumer_group

  settle-world :
      (msg : Message) (o : ConsumeOutcome × W) (c : Consuming R W)
      → (settle ops consumer msg o c).world ≡ o.1
  settle-world msg (consumed, w) c = refl
  settle-world msg (failed, w) c = refl
  settle-world msg (non_retryable, w) c = refl
  settle-world msg (panicked, w) c = refl

  settle-waiting :
      (msg : Message) (o : ConsumeOutcome × W) (c : Consuming R W) (s : Text)
      → ops.waiting s group (settle ops consumer msg o c).streams ≡ ops.waiting s group c.streams
  settle-waiting msg (consumed, w) c s =
      documented.ack_waiting s consumer.stream_key group msg.id c.streams
  settle-waiting msg (failed, w) c s =
      documented.ack_waiting s consumer.stream_key group msg.id c.streams
  settle-waiting msg (non_retryable, w) c s = refl
  settle-waiting msg (panicked, w) c s = refl

  -- What an acknowledgement of the message leaves pending of a stream.
  abbrev pub acked_from : Bool → Text → ℕ → List ℕ → List ℕ
  acked_from acked s id ids =
      if acked && same_text s consumer.stream_key then without_id id ids else ids

  settle-pending :
      (msg : Message) (o : ConsumeOutcome × W) (c : Consuming R W) (s : Text)
      → ops.pending s group (settle ops consumer msg o c).streams
        ≡ acked_from (is_acked o.0) s msg.id (ops.pending s group c.streams)
  settle-pending msg (consumed, w) c s =
      documented.ack_pending s consumer.stream_key group msg.id c.streams
  settle-pending msg (failed, w) c s =
      documented.ack_pending s consumer.stream_key group msg.id c.streams
  settle-pending msg (non_retryable, w) c s = refl
  settle-pending msg (panicked, w) c s = refl

  settled_data :
      (field : Option Text) (msg : Message) (c : Consuming R W) (s : Text)
      → ((handle_data ops consumer msg field c).world ≡ world_after consumer field c.world)
        × (ops.waiting s group (handle_data ops consumer msg field c).streams
            ≡ ops.waiting s group c.streams)
        × (ops.pending s group (handle_data ops consumer msg field c).streams
            ≡ acked_from
                (acked_data consumer field c.world)
                s
                msg.id
                (ops.pending s group c.streams))
  settled_data none msg c s = (refl, refl, refl)
  settled_data (some text) msg c s =
      let o : ConsumeOutcome × W = consumer.consume_func text c.world in
      (settle-world msg o c, settle-waiting msg o c s, settle-pending msg o c s)

  -- Handling a message gives it to the function once, if its data is a text, takes nothing from the
  -- waiting ones, and removes it from those pending of the stream that the consumer names exactly if
  -- the function came back with a nil or an error that can be retried.
  pub handle_xread_message-settled :
      (msg : Message) (c : Consuming R W) (s : Text)
      → ((handle_xread_message ops consumer msg c).world
          ≡ world_after consumer msg.data_field c.world)
        × (ops.waiting s group (handle_xread_message ops consumer msg c).streams
            ≡ ops.waiting s group c.streams)
        × (ops.pending s group (handle_xread_message ops consumer msg c).streams
            ≡ acked_from
                (acked_data consumer msg.data_field c.world)
                s
                msg.id
                (ops.pending s group c.streams))
  unfolding handle_xread_message
  handle_xread_message-settled msg c s = settled_data msg.data_field msg c s

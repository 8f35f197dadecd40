-- ===== src/Consumers.antt =====
-- The consumers of redis streams: backend/queue/consumers/streams.go and metrics.go, with the key of
-- backend/cache/keys.go. The handlers of the messages of one reading run in parallel; each is one step
-- here, in the order of the schedule, which only orders the messages where `Delivery` assumes it.
-- Connections do not fail, and the loop is not cancelled.
pub mod Delivery
mod Witnesses
use hexchess.Prelude.{
  ℕ, zero, suc, ◌≡◌, Bool, true, false, Option, none, some, List, [], ◌∷◌, ◌++◌, map, take, drop,
  ◌==◌, if◌then◌else◌,
}
use hexchess.Model.Enums.{Text, same_text}

-- A message of a stream; its data is `none` where the field is not a text.
pub record Message : Type 0 where
  pub id : ℕ
  pub data_field : Option Text

abbrev pub without_id : ℕ → List ℕ → List ℕ
without_id id [] = []
without_id id (x ∷ xs) = let rest = without_id id xs in if x == id then rest else x ∷ rest

-- The commands of redis on the groups of a stream; `waiting` are the messages that no consumer of the
-- group was given, `pending` those that were given out and not acknowledged.
pub record StreamGroups (R : Type 0) : Type 0 where
  pub waiting : Text → Text → R → List Message
  pub pending : Text → Text → R → List ℕ
  pub xread_group : Text → Text → ℕ → R → R × List Message
  pub xack : Text → Text → ℕ → R → R

pub record Documented {R : Type 0} (ops : StreamGroups R) : Type 0 where
  pub read_messages :
      (s g : Text) (n : ℕ) (r : R) → (ops.xread_group s g n r).1 ≡ take n (ops.waiting s g r)
  pub read_waiting :
      (s g : Text) (n : ℕ) (r : R)
      → ops.waiting s g (ops.xread_group s g n r).0 ≡ drop n (ops.waiting s g r)
  pub read_pending :
      (s g : Text) (n : ℕ) (r : R)
      → ops.pending s g (ops.xread_group s g n r).0
        ≡ ops.pending s g r ++ map (λ m. m.id) (take n (ops.waiting s g r))
  pub ack_waiting :
      (s k g : Text) (id : ℕ) (r : R) → ops.waiting s g (ops.xack k g id r) ≡ ops.waiting s g r
  pub ack_pending :
      (s k g : Text) (id : ℕ) (r : R)
      → ops.pending s g (ops.xack k g id r)
        ≡ (if same_text s k then without_id id (ops.pending s g r) else ops.pending s g r)

-- What `consumeFunc` comes back with: a nil, a `NonRetryableQueueError`, another error, a panic.
pub data ConsumeOutcome : Type 0 where
  consumed non_retryable failed panicked : ConsumeOutcome

-- Without its times.
pub record RedisEventMetric : Type 0 where
  pub stream_name : Text
  pub group_id : Text
  pub event_id : Text

-- A consumer; `extract_uuid` is random where the message has no such field, and `schedule` is the order
-- in which the handlers of one reading, which run in parallel, get to their messages.
pub record StreamConsumer (W : Type 0) : Type 0 where
  pub stream_key : Text
  pub consumer_group : Text
  pub poll_count : ℕ
  pub consume_func : Text → W → ConsumeOutcome × W
  pub extract_uuid : Message → Text → Text
  pub schedule : List Message → List Message

-- What a consumer works on: the streams, what its function changes, and the metrics collected and
-- inserted.
pub record Consuming (R W : Type 0) : Type 0 where
  pub streams : R
  pub world : W
  pub metrics : List RedisEventMetric
  pub inserted : List RedisEventMetric

unfoldable pub fmt_stream_key : Text → Text → Text
fmt_stream_key stream_key partition_key = stream_key ++ b':' ∷ b'{' ∷ (partition_key ++ b'}' ∷ [])

module _ {R W : Type 0} (ops : StreamGroups R) (consumer : StreamConsumer W) where
  abbrev pub acknowledge : Message → W → Consuming R W → Consuming R W
  acknowledge msg world c = record c {
    streams = ops.xack consumer.stream_key consumer.consumer_group msg.id c.streams;
    world = world;
    metrics =
        c.metrics
        ++ record {
          stream_name = consumer.stream_key;
          group_id =
              consumer.extract_uuid msg (b'g' ∷ b'r' ∷ b'o' ∷ b'u' ∷ b'p' ∷ b'I' ∷ b'd' ∷ []);
          event_id =
              consumer.extract_uuid msg (b'e' ∷ b'v' ∷ b'e' ∷ b'n' ∷ b't' ∷ b'I' ∷ b'd' ∷ []);
        }
          ∷ [];
  }

  abbrev pub settle : Message → ConsumeOutcome × W → Consuming R W → Consuming R W
  settle msg (consumed, world) c = acknowledge msg world c
  settle msg (failed, world) c = acknowledge msg world c
  settle msg (non_retryable, world) c = record c { world = world }
  settle msg (panicked, world) c = record c { world = world }

  abbrev pub handle_data : Message → Option Text → Consuming R W → Consuming R W
  handle_data msg none c = c
  handle_data msg (some text) c = settle msg (consumer.consume_func text c.world) c

  unfoldable pub handle_xread_message : Message → Consuming R W → Consuming R W
  handle_xread_message msg c = handle_data msg msg.data_field c

  unfoldable pub handle_all : List Message → Consuming R W → Consuming R W
  handle_all [] c = c
  handle_all (msg ∷ msgs) c = handle_all msgs (handle_xread_message msg c)

  abbrev pub persist : Consuming R W → Consuming R W
  persist c = record c { metrics = []; inserted = c.inserted ++ c.metrics }

  -- One round of the loop.
  unfoldable pub consume_once : Text → Consuming R W → Consuming R W
  consume_once partition_key c =
      let stream = fmt_stream_key consumer.stream_key partition_key in
      let read = ops.xread_group stream consumer.consumer_group consumer.poll_count c.streams in
      persist (handle_all (consumer.schedule read.1) (record c { streams = read.0 }))

  unfoldable pub consume_partition : ℕ → Text → Consuming R W → Consuming R W
  consume_partition zero partition_key c = c
  consume_partition (suc rounds) partition_key c =
      consume_partition rounds partition_key (consume_once partition_key c)

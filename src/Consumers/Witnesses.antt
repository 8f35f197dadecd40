-- ===== src/Consumers/Witnesses.antt =====
-- The theorem on the consumers of streams at a stream of three messages.
use hexchess.Prelude.{ℕ, some, List, [], ◌∷◌, ◌++◌, map, take, drop, ◌==◌, if◌then◌else◌, ◌+◌}
use mathlib.Core.List.{Perm}
use mathlib.Core.List.Perm
use hexchess.Model.Enums.{Text, same_text}
use hexchess.Consumers.{
  Message, without_id, StreamGroups, consumed, failed, StreamConsumer, Consuming, fmt_stream_key,
}

-- The streams of one group.
record Streams : Type 0 where
  waits : Text → List Message
  pends : Text → List ℕ

abbrev streams : StreamGroups Streams
streams = record {
  waiting = λ s g r. r.waits s;
  pending = λ s g r. r.pends s;
  xread_group = λ s g n r. (
    record {
      waits = λ x. if same_text x s then drop n (r.waits x) else r.waits x;
      pends = λ x.
          if same_text x s then r.pends x ++ map (λ m. m.id) (take n (r.waits x)) else r.pends x;
    },
    take n (r.waits s),
  );
  xack = λ k g id r. record r {
    pends = λ x. if same_text x k then without_id id (r.pends x) else r.pends x;
  };
}

-- It counts the messages, and fails on the second.
abbrev counter : StreamConsumer ℕ
counter = record {
  stream_key = b's' ∷ [];
  consumer_group = b'g' ∷ [];
  poll_count = 2;
  consume_func = λ text n. (if n == 1 then failed else consumed, n + 1);
  extract_uuid = λ msg name. name;
  schedule = λ msgs. msgs;
}

abbrev three : List Message
three =
    record { id = 1; data_field = some [] }
    ∷ record { id = 2; data_field = some [] }
    ∷ record { id = 3; data_field = some [] }
    ∷ []

abbrev begun : Consuming Streams ℕ
begun = record {
  streams = record {
    waits = λ s. if same_text s (fmt_stream_key (b's' ∷ []) (b'A' ∷ [])) then three else [];
    pends = λ s. [];
  };
  world = 0;
  metrics = [];
  inserted = [];
}

abbrev all_three : List Message
all_three = streams.waiting (fmt_stream_key (b's' ∷ []) (b'A' ∷ [])) (b'g' ∷ []) begun.streams

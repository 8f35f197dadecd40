-- ===== src/Gameplay/Repo.antt =====
-- `UpdateChessStateTxn` of backend/service/chessrepo.go: reading, changing and writing the state of a
-- game in redis, with its optimistic lock and its retries. What other clients do is a sequence of
-- their operations, before and between the commands of each attempt. Connections do not fail.
pub mod Atomic
use hexchess.Prelude.{
  ℕ, zero, suc, Bool, true, false, Option, none, some, List, [], ◌∷◌, ◌++◌, ◌==◌, if◌then◌else◌,
}

-- The state, its bytes in redis, the error of an update and the events of the queue are parameters.
module _ (S B E Ev : Type 0) where
  -- What redis holds about the game: its state, its score in the set of timers, and the queue.
  pub record Cell : Type 0 where
    pub value : Option B
    pub timer : Option ℕ
    pub events : List Ev

  pub data Changed : Type 0 where
    changed : S → Changed
    rejected : E → Changed

  -- What another client does to these.
  pub data Other : Type 0 where
    put : Option B → Other
    touch : Option ℕ → Other
    emit : Ev → Other

  pub data TxnResult : Type 0 where
    stored : S → TxnResult
    update_error : E → TxnResult
    no_chess_state unmarshal_error marshal_error commit_error max_retries : TxnResult

  -- What happens around one attempt: before it reads, and between its reading and its writing.
  pub record Interference : Type 0 where
    pub before : List Other
    pub between : List Other
    pub now : ℕ

module _ {S B E Ev : Type 0} where
  abbrev pub act : Cell S B E Ev → Other S B E Ev → Cell S B E Ev
  act c (put v) = record c { value = v }
  act c (touch t) = record c { timer = t }
  act c (emit e) = record c { events = c.events ++ e ∷ [] }

  abbrev pub act_all : Cell S B E Ev → List (Other S B E Ev) → Cell S B E Ev
  act_all c [] = c
  act_all c (o ∷ os) = act_all (act c o) os

  -- The watched key was written.
  abbrev pub dirty : List (Other S B E Ev) → Bool
  dirty [] = false
  dirty (put v ∷ os) = true
  dirty (touch t ∷ os) = dirty os
  dirty (emit e ∷ os) = dirty os

-- The operation that a request asks for, and the serialisation of backend/model/serde.go.
pub record Operation (S B E Ev : Type 0) : Type 0 where
  pub unmarshal : B → Option S
  pub marshal : S → Option B
  pub change : S → Changed S B E Ev
  -- The events that the commit adds to the queue; the inner `none` is its error, the outer a nil.
  pub commit : Option (S → Option (List Ev))

module _ {S B E Ev : Type 0} (op : Operation S B E Ev) where
  -- `SetChessStatePiped` in the pipeline: the commands run together.
  abbrev pub set_piped : ℕ → B → List Ev → Cell S B E Ev → Cell S B E Ev
  set_piped now bytes events c = record {
    value = some bytes;
    timer = if now == 0 then c.timer else some now;
    events = c.events ++ events;
  }

  abbrev pub committed : Option (S → Option (List Ev)) → S → Option (List Ev)
  committed none s = some []
  committed (some f) s = f s

  -- What an attempt is about to do, from what it read: to stop with a result, or to write.
  pub data Prepared : Type 0 where
    stop : TxnResult S B E Ev → Prepared
    write : S → B → List Ev → Prepared

  abbrev pub piped : S → B → Option (List Ev) → Prepared
  piped s bytes none = stop commit_error
  piped s bytes (some events) = write s bytes events

  abbrev pub marshalled : S → Option B → Prepared
  marshalled s none = stop marshal_error
  marshalled s (some bytes) = piped s bytes (committed op.commit s)

  abbrev pub changing : Changed S B E Ev → Prepared
  changing (rejected e) = stop (update_error e)
  changing (changed s) = marshalled s (op.marshal s)

  abbrev pub unmarshalled : Option S → Prepared
  unmarshalled none = stop unmarshal_error
  unmarshalled (some s) = changing (op.change s)

  -- From the reading to the end of the pipeline, `getChessState` first.
  abbrev pub prepare : Option B → Prepared
  prepare none = stop no_chess_state
  prepare (some bytes) = unmarshalled (op.unmarshal bytes)

  -- One attempt: `none` is `redis.TxFailedErr`.
  abbrev pub execute :
      Interference S B E Ev → Cell S B E Ev → Prepared → Cell S B E Ev × Option (TxnResult S B E Ev)
  execute around c (stop r) = (act_all c around.between, some r)
  execute around c (write s bytes events) =
      let rest = act_all c around.between in
      if dirty around.between
      then (rest, none)
      else (set_piped around.now bytes events rest, some (stored s))

  abbrev pub attempt_txn :
      Interference S B E Ev → Cell S B E Ev → Cell S B E Ev × Option (TxnResult S B E Ev)
  attempt_txn around c =
      let read = act_all c around.before in execute around read (prepare read.value)

  -- `return`, or `continue` on `redis.TxFailedErr`.
  abbrev pub proceed :
      Cell S B E Ev × Option (TxnResult S B E Ev)
      → (Cell S B E Ev → Cell S B E Ev × TxnResult S B E Ev)
      → Cell S B E Ev × TxnResult S B E Ev
  proceed (c, some r) continue = (c, r)
  proceed (c, none) continue = continue c

  -- The loop of the retries: `left` of them, the next one surrounded by `around i`.
  unfoldable pub retry_txn :
      ℕ → ℕ → (ℕ → Interference S B E Ev) → Cell S B E Ev → Cell S B E Ev × TxnResult S B E Ev
  retry_txn zero i around c = (c, max_retries)
  retry_txn (suc left) i around c =
      proceed (attempt_txn (around i) c) (λ c'. retry_txn left (suc i) around c')

  abbrev pub max_update_chess_state_retries : ℕ
  max_update_chess_state_retries = 5

  unfoldable pub update_chess_state_txn :
      (ℕ → Interference S B E Ev) → Cell S B E Ev → Cell S B E Ev × TxnResult S B E Ev
  update_chess_state_txn around c = retry_txn max_update_chess_state_retries 0 around c

-- ===== src/Pubsub.antt =====
-- The brokers of backend/pubsub/actor.go, which pass messages on to the channels of a server's clients.
-- Go's channels are names in a table; a send on a closed channel and a second close are panics, `none`.
-- A method runs under the lock of its broker, as one step.
pub mod Sending
pub mod Shards
pub mod Served
pub mod Passing
mod Witnesses
use hexchess.Prelude.{
  ℕ, zero, suc, Bool, true, false, not, ◌&&◌, Option, none, some, List, [], ◌∷◌, ◌++◌, length, ltb,
  ◌==◌, if◌then◌else◌, ◌>>=◌,
}
use hexchess.Model.Enums.{Text, same_text}

-- A channel of Go: what was sent and not yet received, and how much of that it holds.
pub record Channel (M : Type 0) : Type 0 where
  pub buffer : List M
  pub capacity : ℕ
  pub is_open : Bool

abbrev pub Channels : Type 0 → Type 0
Channels M = ℕ → Channel M

-- `slices.Contains` and `slices.DeleteFunc` on the channels of a shard.
abbrev pub contains_channel : List ℕ → ℕ → Bool
contains_channel [] sub = false
contains_channel (x ∷ xs) sub =
    let later = contains_channel xs sub in if x == sub then true else later

abbrev pub delete : ℕ → List ℕ → List ℕ
delete sub [] = []
delete sub (x ∷ xs) = let rest = delete sub xs in if x == sub then rest else x ∷ rest

module _ {M : Type 0} where
  abbrev pub set_channel : ℕ → Channel M → Channels M → Channels M
  set_channel sub c chans x = if x == sub then c else chans x

  -- The `select` with a default: a full channel drops the message.
  abbrev pub sent : M → Channel M → Channel M
  sent msg c =
      if ltb (length c.buffer) c.capacity then record c { buffer = c.buffer ++ msg ∷ [] } else c

  unfoldable pub try_send : M → ℕ → Channels M → Option (Channels M)
  try_send msg sub chans =
      if (chans sub).is_open then some (set_channel sub (sent msg (chans sub)) chans) else none

  unfoldable pub close : ℕ → Channels M → Option (Channels M)
  close sub chans =
      if (chans sub).is_open
      then some (set_channel sub (record (chans sub) { is_open = false }) chans)
      else none

  -- The loop of a broadcast.
  unfoldable pub send_all : M → List ℕ → Channels M → Option (Channels M)
  send_all msg [] chans = some chans
  send_all msg (sub ∷ subs) chans = do chans' ← try_send msg sub chans; send_all msg subs chans'

-- `actorsMap`, with no channels where it has no entry.
pub record BroadcastBroker (M : Type 0) : Type 0 where
  pub actors_map : Text → List ℕ
  pub channels : Channels M

abbrev pub set_shard : Text → List ℕ → (Text → List ℕ) → Text → List ℕ
set_shard actor_id shard m id = if same_text id actor_id then shard else m id

module _ {M : Type 0} where
  unfoldable pub subscribe : Text → ℕ → BroadcastBroker M → BroadcastBroker M
  subscribe actor_id sub b =
      let shard = b.actors_map actor_id in
      record b {
        actors_map =
            set_shard actor_id
              (if not (contains_channel shard sub) then shard ++ sub ∷ [] else shard) b.actors_map;
      }

  abbrev pub close_if : Bool → ℕ → Channels M → Option (Channels M)
  close_if true sub chans = close sub chans
  close_if false sub chans = some chans

  unfoldable pub unsubscribe : Text → ℕ → BroadcastBroker M → Option (BroadcastBroker M)
  unsubscribe actor_id sub b = do
    let shard = b.actors_map actor_id
    chans ← close_if (contains_channel shard sub) sub b.channels
    some (record {
      actors_map = set_shard actor_id (delete sub shard) b.actors_map;
      channels = chans;
    })

  unfoldable pub broadcast : Text → M → BroadcastBroker M → Option (BroadcastBroker M)
  broadcast actor_id msg b = do
    chans ← send_all msg (b.actors_map actor_id) b.channels
    some (record b { channels = chans })

-- `GlobalCasterBroker`; the keys of its map, in the order in which they are visited.
pub record GlobalCasterBroker (M : Type 0) : Type 0 where
  pub subscribers : List ℕ
  pub channels : Channels M

module _ {M : Type 0} where
  unfoldable pub subscribe_global : ℕ → GlobalCasterBroker M → GlobalCasterBroker M
  subscribe_global sub b = record b {
    subscribers =
        if contains_channel b.subscribers sub then b.subscribers else b.subscribers ++ sub ∷ [];
  }

  unfoldable pub unsubscribe_global : ℕ → GlobalCasterBroker M → Option (GlobalCasterBroker M)
  unsubscribe_global sub b = do
    let held = contains_channel b.subscribers sub
    chans ← close_if held sub b.channels
    some (record {
      subscribers = if held then delete sub b.subscribers else b.subscribers;
      channels = chans;
    })

  unfoldable pub broadcast_global : M → GlobalCasterBroker M → Option (GlobalCasterBroker M)
  broadcast_global msg b = do
    chans ← send_all msg b.subscribers b.channels
    some (record b { channels = chans })

-- ===== src/Pubsub/Passing.antt =====
-- What a method of a broker of backend/pubsub/actor.go does whenever it is called.
use hexchess.Prelude.{
  ℕ, ◌≡◌, refl, ◌∙◌, ap, ap₂, sym, fun_ext, true, false, some, List, [], ◌∷◌, ◌==◌, if◌then◌else◌,
  ◌>>=◌, Bool-cases, inl, inr, arith,
}
use hexchess.Model.Enums.{Text, same_text, ≡-of_same_text, same_text_refl}
use hexchess.Pubsub.Sending.{
  all_different, all_different-append, contains_channel-delete, AllOpen, send_all-sent,
}
use hexchess.Pubsub.{
  close, GlobalCasterBroker, subscribe_global, unsubscribe_global, broadcast_global, Channels,
  contains_channel, delete, set_channel, BroadcastBroker, sent, set_shard, unsubscribe, broadcast,
}
use hexchess.Pubsub.Served.{Reached, after, unsubscribed, passed, broadcast_opened, Reached-Serving}
use hexchess.Pubsub.Shards.{
  unsubscribed_from, unsubscribed_from-contains_channel, unsubscribe_opened,
}

delete_absent :
    (sub : ℕ) (shard : List ℕ) → contains_channel shard sub ≡ false → delete sub shard ≡ shard
delete_absent sub [] p = refl
delete_absent sub (x ∷ xs) p =
    let off : (x == sub) ≡ false = ground (arith, p) in
    let rest = delete_absent sub xs (ground (arith, p)) in ground (arith, off, rest)

module _ {M : Type 0} where
  -- Whatever the clients did before, as long as each hands over a channel of its own that is open, a
  -- broadcast does not panic: every channel of the actor gets the message once, behind what it holds, if
  -- it has room, and no other channel changes.
  pub broadcast-Reached :
      {b : BroadcastBroker M}
      → Reached b
      → (a : Text) (msg : M) → broadcast a msg b ≡ some (passed a msg b)
  broadcast-Reached {b = b} r a msg = broadcast_opened a msg b (Reached-Serving r)

  gone :
      (a : Text) (sub : ℕ) (b : BroadcastBroker M)
      → contains_channel ((unsubscribed_from a sub b).actors_map a) sub ≡ false
  gone a sub b = ground (arith, unsubscribed_from-contains_channel a sub b a sub, same_text_refl a)

  unsubscribed_from_absent :
      (a : Text) (sub : ℕ) (b : BroadcastBroker M)
      → contains_channel (b.actors_map a) sub ≡ false
      → unsubscribed_from a sub b ≡ b
  unsubscribed_from_absent a sub b p =
      let shards : (id : Text)
          → set_shard a (delete sub (b.actors_map a)) b.actors_map id ≡ b.actors_map id =
        λ id. elim (Bool-cases (same_text id a)) [
          | inl e ↦ ground (
            arith,
            e,
            ap b.actors_map (≡-of_same_text id a e),
            delete_absent sub (b.actors_map a) p,
          )
          | inr e ↦ ground (arith, e)
        ] in
      let same_channels =
        ap
          (λ held.
            if held
            then set_channel sub (record (b.channels sub) { is_open = false }) b.channels
            else b.channels)
          p in
      let broker : (Text → List ℕ) → Channels M → BroadcastBroker M =
        λ m c. record { actors_map = m; channels = c } in
      ap₂ broker (fun_ext shards) same_channels

  -- On such a broker `Unsubscribe` does not panic either, it removes the channel from the actor and
  -- closes it if the actor had it, and a second call changes nothing.
  pub unsubscribe-unsubscribe :
      {b : BroadcastBroker M}
      → Reached b
      → (a : Text) (sub : ℕ)
      → (unsubscribe a sub b ≡ some (unsubscribed_from a sub b))
        × (contains_channel ((unsubscribed_from a sub b).actors_map a) sub ≡ false)
        × ((unsubscribe a sub b >>= unsubscribe a sub) ≡ unsubscribe a sub b)
  unsubscribe-unsubscribe {b = b} r a sub =
      let b' : BroadcastBroker M = unsubscribed_from a sub b in
      let first = unsubscribe_opened a sub b ((Reached-Serving r).opened a) in
      let again =
        unsubscribe_opened a sub b'
          ((Reached-Serving (after r (unsubscribed a sub first))).opened a)
        ∙ ap some (unsubscribed_from_absent a sub b' (gone a sub b)) in
      (first, gone a sub b, ap (λ o. o >>= unsubscribe a sub) first ∙ again ∙ sym first)

  -- The broker of the counts, with different channels that are open: each gets the message once, if it
  -- has room, and no other channel changes.
  pub broadcast_global-sent :
      (msg : M) (b : GlobalCasterBroker M)
      → all_different b.subscribers ≡ true
      → AllOpen b.subscribers b.channels
      → broadcast_global msg b
        ≡ some (record b {
          channels = λ x.
              if contains_channel b.subscribers x then sent msg (b.channels x) else b.channels x;
        })
  unfolding broadcast_global
  broadcast_global-sent msg b d o =
      let all = send_all-sent msg b.subscribers b.channels d o in
      let with_channels : Channels M → GlobalCasterBroker M = λ c. record b { channels = c } in
      ap (λ o. o >>= (λ c. some (with_channels c))) all.1
      ∙ ap (λ c. some (with_channels c)) (fun_ext all.2)

  -- A channel that subscribes is listed once.
  pub subscribe_global_different :
      (sub : ℕ) (b : GlobalCasterBroker M)
      → all_different b.subscribers ≡ true
      → all_different (subscribe_global sub b).subscribers ≡ true
  unfolding subscribe_global
  subscribe_global_different sub b d = elim (Bool-cases (contains_channel b.subscribers sub)) [
    | inl e ↦ ground (arith, e, d)
    | inr e ↦ ground (arith, e, all_different-append b.subscribers sub d e)
  ]

  -- A channel that leaves is closed once, and is not listed any more.
  pub unsubscribe_global_gone :
      (sub : ℕ) (b : GlobalCasterBroker M)
      → AllOpen b.subscribers b.channels
      → (b' : GlobalCasterBroker M) × (unsubscribe_global sub b ≡ some b')
        × (contains_channel b'.subscribers sub ≡ false)
  unfolding unsubscribe_global close
  unsubscribe_global_gone sub b o = elim (Bool-cases (contains_channel b.subscribers sub)) [
    | inl e ↦ (
      record {
        subscribers = delete sub b.subscribers;
        channels = set_channel sub (record (b.channels sub) { is_open = false }) b.channels;
      },
      ground (arith, e, o sub e),
      ground (arith, contains_channel-delete b.subscribers sub sub),
    )
    | inr e ↦ (record b { subscribers = b.subscribers }, ground (arith, e), e)
  ]

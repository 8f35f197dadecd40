-- ===== src/Pubsub/Served.antt =====
-- The channels of a broker of backend/pubsub/actor.go over the life of a server.
use hexchess.Prelude.{
  ℕ, ◌≡◌, refl, ◌∙◌, ap, sym, subst, fun_ext, true, false, not, some, List, [], ◌∷◌, ◌++◌, ◌==◌,
  ==_iff, if◌then◌else◌, ◌>>=◌, Bool-cases, inl, inr, arith,
}
use hexchess.Model.Enums.{Text, same_text, ≡-of_same_text, same_text_refl}
use hexchess.Pubsub.Shards.{
  set_shard_test, subscribe-contains_channel, unsubscribed_from, unsubscribed_from-contains_channel,
  unsubscribe_opened, subscribed_different, same_value,
}
use hexchess.Pubsub.{
  Channels, contains_channel, delete, set_channel, sent, BroadcastBroker, set_shard, subscribe,
  unsubscribe, broadcast,
}
use hexchess.Pubsub.Sending.{all_different, all_different-delete, AllOpen, send_all-sent, sent_open}

module _ {M : Type 0} where
  -- A client hands its own, open channel to one actor only.
  abbrev pub OwnChannel : Text → ℕ → BroadcastBroker M → Type 0
  OwnChannel a sub b =
      ((b.channels sub).is_open ≡ true)
      × ((a' : Text) → contains_channel (b.actors_map a') sub ≡ true → a' ≡ a)

  -- No channel is listed twice, or with two actors, and a listed channel is open.
  pub record Serving (b : BroadcastBroker M) : Type 0 where
    pub different : (a : Text) → all_different (b.actors_map a) ≡ true
    pub one_actor :
        (a a' : Text) (x : ℕ)
        → contains_channel (b.actors_map a) x ≡ true
        → contains_channel (b.actors_map a') x ≡ true
        → a' ≡ a
    pub opened : (a : Text) → AllOpen (b.actors_map a) b.channels

  -- What the channels of a broker go through: a client makes a channel, hands it over, takes a message
  -- from it; the broker drops a channel, or passes a message on.
  pub data Step : BroadcastBroker M → BroadcastBroker M → Type 0 where
    made :
        {b : BroadcastBroker M} (sub capacity : ℕ)
        → ((a : Text) → contains_channel (b.actors_map a) sub ≡ false)
        → Step b (record b {
          channels =
              set_channel sub
                (record { buffer = []; capacity = capacity; is_open = true })
                b.channels;
        })
    subscribed :
        {b : BroadcastBroker M} (a : Text) (sub : ℕ)
        → OwnChannel a sub b
        → Step b (subscribe a sub b)
    received :
        {b : BroadcastBroker M} (sub : ℕ) (msg : M) (later : List M)
        → (b.channels sub).buffer ≡ msg ∷ later
        → Step b (record b {
          channels = set_channel sub (record (b.channels sub) { buffer = later }) b.channels;
        })
    unsubscribed :
        {b b' : BroadcastBroker M} (a : Text) (sub : ℕ) → unsubscribe a sub b ≡ some b' → Step b b'
    passed_on :
        {b b' : BroadcastBroker M} (a : Text) (msg : M) → broadcast a msg b ≡ some b' → Step b b'

  -- The brokers that come of `NewBroadcastBroker`.
  pub data Reached : BroadcastBroker M → Type 0 where
    new_broker : (chans : Channels M) → Reached (record { actors_map = λ a. []; channels = chans })
    after : {b b' : BroadcastBroker M} → Reached b → Step b b' → Reached b'

  -- `Broadcast`, where the channels of the actor are open: each gets the message if it has room.
  abbrev pub passed : Text → M → BroadcastBroker M → BroadcastBroker M
  passed a msg b = record b {
    channels =
        λ x. if contains_channel (b.actors_map a) x then sent msg (b.channels x) else b.channels x;
  }

  pub broadcast_opened :
      (a : Text) (msg : M) (b : BroadcastBroker M)
      → Serving b
      → broadcast a msg b ≡ some (passed a msg b)
  unfolding broadcast
  broadcast_opened a msg b v =
      let all = send_all-sent msg (b.actors_map a) b.channels (v.different a) (v.opened a) in
      let with_channels : Channels M → BroadcastBroker M = λ c. record b { channels = c } in
      ap (λ o. o >>= (λ c. some (with_channels c))) all.1
      ∙ ap (λ c. some (with_channels c)) (fun_ext all.2)

  subscribed_own :
      (a : Text) (sub : ℕ) (b : BroadcastBroker M)
      → OwnChannel a sub b
      → (a' : Text) (x : ℕ) → (sub == x) ≡ true
      → contains_channel ((subscribe a sub b).actors_map a') x ≡ true
      → a' ≡ a
  subscribed_own a sub b own a' x e p = elim (Bool-cases (same_text a' a)) [
    | inl same ↦ ≡-of_same_text a' a same
    | inr other ↦
        let here : contains_channel (b.actors_map a') x ≡ true =
          ground (arith, p, other, subscribe-contains_channel a sub b a' x) in
        own.1 a'
          (subst (λ y. contains_channel (b.actors_map a') y ≡ true) (sym ((==_iff sub x).0 e)) here)
  ]

  subscribed_before :
      (a : Text) (sub : ℕ) (b : BroadcastBroker M) (a' : Text) (x : ℕ)
      → (sub == x) ≡ false
      → contains_channel ((subscribe a sub b).actors_map a') x ≡ true
      → contains_channel (b.actors_map a') x ≡ true
  subscribed_before a sub b a' x e p = ground (arith, p, e, subscribe-contains_channel a sub b a' x)

  set_shard_different :
      (a : Text) (shard : List ℕ) (b : BroadcastBroker M)
      → Serving b
      → all_different shard ≡ true
      → (a' : Text) → all_different (set_shard a shard b.actors_map a') ≡ true
  set_shard_different a shard b v d a' =
      ground (arith, d, v.different a', set_shard_test all_different a shard b.actors_map a')

  subscribe-Serving :
      (a : Text) (sub : ℕ) (b : BroadcastBroker M)
      → Serving b
      → OwnChannel a sub b
      → Serving (subscribe a sub b)
  unfolding subscribe
  subscribe-Serving a sub b v own = record {
    different =
        set_shard_different a
          (if not (contains_channel (b.actors_map a) sub)
            then b.actors_map a ++ sub ∷ []
            else b.actors_map a)
          b v (subscribed_different (b.actors_map a) sub (v.different a));
    one_actor = λ a₁ a₂ x p q. elim (Bool-cases (sub == x)) [
      | inl e ↦ subscribed_own a sub b own a₂ x e q ∙ sym (subscribed_own a sub b own a₁ x e p)
      | inr e ↦
          v.one_actor a₁ a₂ x (subscribed_before a sub b a₁ x e p)
            (subscribed_before a sub b a₂ x e q)
    ];
    opened = λ a' x p. elim (Bool-cases (sub == x)) [
      | inl e ↦ subst (λ y. (b.channels y).is_open ≡ true) ((==_iff sub x).0 e) own.0
      | inr e ↦ v.opened a' x (subscribed_before a sub b a' x e p)
    ];
  }

  -- A channel that is still listed was not the one that is closed.
  still_listed :
      (a : Text) (sub : ℕ) (b : BroadcastBroker M)
      → Serving b
      → contains_channel (b.actors_map a) sub ≡ true
      → (a' : Text) (x : ℕ) → contains_channel ((unsubscribed_from a sub b).actors_map a') x ≡ true
      → (x == sub) ≡ false
  still_listed a sub b v held a' x p = elim (Bool-cases (x == sub)) [
    | inr e ↦ e
    | inl e ↦
        let left = unsubscribed_from-contains_channel a sub b a' x in
        let listed : contains_channel (b.actors_map a') x ≡ true = ground (arith, p, left) in
        let here =
          subst (λ y. contains_channel (b.actors_map a') y ≡ true) ((==_iff x sub).0 e) listed in
        let same = ap (λ c. same_text c a) (v.one_actor a a' sub held here) ∙ same_text_refl a in
        ground (arith, p, left, same, e)
  ]

  unsubscribed_from-Serving :
      (a : Text) (sub : ℕ) (b : BroadcastBroker M) → Serving b → Serving (unsubscribed_from a sub b)
  unsubscribed_from-Serving a sub b v = record {
    different =
        set_shard_different a (delete sub (b.actors_map a)) b v
          (all_different-delete (b.actors_map a) sub (v.different a));
    one_actor = λ a₁ a₂ x p q.
        v.one_actor a₁ a₂ x (ground (arith, p, unsubscribed_from-contains_channel a sub b a₁ x))
          (ground (arith, q, unsubscribed_from-contains_channel a sub b a₂ x));
    opened = λ a' x p.
        let listed : contains_channel (b.actors_map a') x ≡ true =
          ground (arith, p, unsubscribed_from-contains_channel a sub b a' x) in
        elim (Bool-cases (contains_channel (b.actors_map a) sub)) [
          | inl held ↦
              ground (arith, held, still_listed a sub b v held a' x p, v.opened a' x listed)
          | inr held ↦ ground (arith, held, v.opened a' x listed)
        ];
  }

  passed-Serving :
      (a : Text) (msg : M) (b : BroadcastBroker M) → Serving b → Serving (passed a msg b)
  passed-Serving a msg b v = record {
    different = v.different;
    one_actor = v.one_actor;
    opened = λ a' x p. ground (arith, v.opened a' x p, sent_open msg (b.channels x));
  }

  Step-Serving : {b b' : BroadcastBroker M} → Step b b' → Serving b → Serving b'
  Step-Serving (made {b = b} sub capacity fresh) v = record {
    different = v.different;
    one_actor = v.one_actor;
    opened = λ a x p. ground (arith, fresh a, v.opened a x p);
  }
  Step-Serving (subscribed {b = b} a sub own) v = subscribe-Serving a sub b v own
  Step-Serving (received {b = b} sub msg later e) v = record {
    different = v.different;
    one_actor = v.one_actor;
    opened = λ a x p. elim (Bool-cases (x == sub)) [
      | inl here ↦
          let same = ap (λ y. (b.channels y).is_open) ((==_iff x sub).0 here) in
          ground (arith, here, same, v.opened a x p)
      | inr off ↦ ground (arith, off, v.opened a x p)
    ];
  }
  Step-Serving (unsubscribed {b = b} {b' = b'} a sub e) v =
      subst Serving
        (same_value (unsubscribe a sub b) (unsubscribed_from a sub b) b'
          (unsubscribe_opened a sub b (v.opened a)) e)
        (unsubscribed_from-Serving a sub b v)
  Step-Serving (passed_on {b = b} {b' = b'} a msg e) v =
      subst Serving
        (same_value (broadcast a msg b) (passed a msg b) b' (broadcast_opened a msg b v) e)
        (passed-Serving a msg b v)

  pub Reached-Serving : {b : BroadcastBroker M} → Reached b → Serving b
  Reached-Serving (new_broker chans) = record {
    different = λ a. refl;
    one_actor = λ a a' x p q. ground (arith, p);
    opened = λ a x p. ground (arith, p);
  }
  Reached-Serving (after r step) = Step-Serving step (Reached-Serving r)

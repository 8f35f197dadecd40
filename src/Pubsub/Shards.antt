-- ===== src/Pubsub/Shards.antt =====
-- The shards of a broker of backend/pubsub/actor.go after a channel was added or removed.
use hexchess.Prelude.{
  ℕ, ◌≡◌, refl, ap, subst, true, false, not, ◌&&◌, ◌||◌, Option, some, List, [], ◌∷◌, ◌++◌, ◌==◌,
  ==_iff, if◌then◌else◌, Bool-cases, inl, inr, arith,
}
use hexchess.Model.Enums.{Text, same_text, ≡-of_same_text}
use hexchess.Pubsub.{
  contains_channel, delete, set_channel, close, BroadcastBroker, set_shard, subscribe, unsubscribe,
}
use hexchess.Pubsub.Sending.{
  all_different, all_different-append, contains_channel-append, contains_channel-delete, AllOpen,
}

-- What a new shard of an actor does to a test on the shards.
pub set_shard_test :
    {V : Type 0} (test : List ℕ → V) (a : Text) (shard : List ℕ) (m : Text → List ℕ) (b : Text)
    → test (set_shard a shard m b) ≡ (if same_text b a then test shard else test (m b))
set_shard_test test a shard m b =
    elim (same_text b a)
      as (λ e. test (if e then shard else m b) ≡ (if e then test shard else test (m b))) [
        | true ↦ refl
        | false ↦ refl
      ]

contains_here :
    (shard : List ℕ) (sub x : ℕ)
    → contains_channel shard sub ≡ true
    → (sub == x) ≡ true
    → contains_channel shard x ≡ true
contains_here shard sub x p e = subst (λ y. contains_channel shard y ≡ true) ((==_iff sub x).0 e) p

subscribed_shard :
    (shard : List ℕ) (sub x : ℕ)
    → contains_channel (if not (contains_channel shard sub) then shard ++ sub ∷ [] else shard) x
      ≡ (contains_channel shard x || sub == x)
subscribed_shard shard sub x = elim (Bool-cases (contains_channel shard sub)) [
  | inl p ↦ ground (arith, p, contains_here shard sub x p)
  | inr p ↦ ground (arith, p, contains_channel-append shard x sub)
]

pub subscribed_different :
    (shard : List ℕ) (sub : ℕ)
    → all_different shard ≡ true
    → all_different (if not (contains_channel shard sub) then shard ++ sub ∷ [] else shard) ≡ true
subscribed_different shard sub d = elim (Bool-cases (contains_channel shard sub)) [
  | inl p ↦ ground (arith, p)
  | inr p ↦ ground (arith, p, all_different-append shard sub d p)
]

pub same_value : {A : Type 0} (o : Option A) (a b : A) → o ≡ some a → o ≡ some b → a ≡ b
same_value o a b p q = ground (arith, p, q)

module _ {M : Type 0} where
  pub subscribe-contains_channel :
      (a : Text) (sub : ℕ) (b : BroadcastBroker M) (a' : Text) (x : ℕ)
      → contains_channel ((subscribe a sub b).actors_map a') x
        ≡ (contains_channel (b.actors_map a') x || (same_text a' a && sub == x))
  unfolding subscribe
  subscribe-contains_channel a sub b a' x = elim (Bool-cases (same_text a' a)) [
    | inl e ↦
        let same = ap (λ c. contains_channel (b.actors_map c) x) (≡-of_same_text a' a e) in
        ground (
          arith,
          e,
          same,
          subscribed_shard (b.actors_map a) sub x,
          set_shard_test (λ l. contains_channel l x) a
              (if not (contains_channel (b.actors_map a) sub)
                then b.actors_map a ++ sub ∷ []
                else b.actors_map a)
              b.actors_map a',
        )
    | inr e ↦ ground (arith, e)
  ]

  -- `Unsubscribe`, where the channel is open if the actor has it.
  abbrev pub unsubscribed_from : Text → ℕ → BroadcastBroker M → BroadcastBroker M
  unsubscribed_from a sub b = record {
    actors_map = set_shard a (delete sub (b.actors_map a)) b.actors_map;
    channels =
        if contains_channel (b.actors_map a) sub
        then set_channel sub (record (b.channels sub) { is_open = false }) b.channels
        else b.channels;
  }

  pub unsubscribed_from-contains_channel :
      (a : Text) (sub : ℕ) (b : BroadcastBroker M) (a' : Text) (x : ℕ)
      → contains_channel ((unsubscribed_from a sub b).actors_map a') x
        ≡ (contains_channel (b.actors_map a') x && not (same_text a' a && sub == x))
  unsubscribed_from-contains_channel a sub b a' x = elim (Bool-cases (same_text a' a)) [
    | inl e ↦
        let same = ap (λ c. contains_channel (b.actors_map c) x) (≡-of_same_text a' a e) in
        ground (
          arith,
          e,
          same,
          contains_channel-delete (b.actors_map a) x sub,
          set_shard_test (λ l. contains_channel l x) a (delete sub (b.actors_map a)) b.actors_map
              a',
        )
    | inr e ↦ ground (arith, e)
  ]

  pub unsubscribe_opened :
      (a : Text) (sub : ℕ) (b : BroadcastBroker M)
      → AllOpen (b.actors_map a) b.channels
      → unsubscribe a sub b ≡ some (unsubscribed_from a sub b)
  unfolding unsubscribe close
  unsubscribe_opened a sub b o = elim (Bool-cases (contains_channel (b.actors_map a) sub)) [
    | inl e ↦ ground (arith, e, o sub e)
    | inr e ↦ ground (arith, e)
  ]

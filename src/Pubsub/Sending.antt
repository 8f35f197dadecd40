-- ===== src/Pubsub/Sending.antt =====
-- A message that a broker of backend/pubsub/actor.go sends to its channels.
use hexchess.Prelude.{
  ℕ, ◌≡◌, refl, subst, ◌∙◌, ap, Bool, true, false, not, ◌&&◌, ◌||◌, some, List, [], ◌∷◌, ◌++◌, ◌==◌,
  ==_iff, if◌then◌else◌, ◌>>=◌, Bool-cases, inl, inr, arith,
}
use hexchess.Pubsub.{
  Channel, Channels, contains_channel, delete, set_channel, sent, try_send, send_all,
}

-- No channel stands in the list twice.
abbrev pub all_different : List ℕ → Bool
all_different [] = true
all_different (x ∷ xs) = not (contains_channel xs x) && all_different xs

pub contains_channel-append :
    (xs : List ℕ) (a b : ℕ) → contains_channel (xs ++ b ∷ []) a ≡ (contains_channel xs a || b == a)
contains_channel-append [] a b = ground arith
contains_channel-append (x ∷ xs) a b = ground (arith, contains_channel-append xs a b)

pub all_different-append :
    (xs : List ℕ) (a : ℕ)
    → all_different xs ≡ true
    → contains_channel xs a ≡ false
    → all_different (xs ++ a ∷ []) ≡ true
all_different-append [] a p q = ground arith
all_different-append (x ∷ xs) a p q =
    ground (arith, all_different-append xs a, contains_channel-append xs x a)

pub contains_channel-delete :
    (xs : List ℕ) (a b : ℕ)
    → contains_channel (delete b xs) a ≡ (contains_channel xs a && not (b == a))
contains_channel-delete [] a b = refl
contains_channel-delete (x ∷ xs) a b = ground (arith, contains_channel-delete xs a b)

pub all_different-delete :
    (xs : List ℕ) (b : ℕ) → all_different xs ≡ true → all_different (delete b xs) ≡ true
all_different-delete [] b p = refl
all_different-delete (x ∷ xs) b p =
    ground (arith, all_different-delete xs b, contains_channel-delete xs x b)

module _ {M : Type 0} where
  -- Every channel of the list is open.
  abbrev pub AllOpen : List ℕ → Channels M → Type 0
  AllOpen subs chans = (x : ℕ) → contains_channel subs x ≡ true → (chans x).is_open ≡ true

  pub try_send_open :
      (msg : M) (sub : ℕ) (chans : Channels M)
      → (chans sub).is_open ≡ true
      → try_send msg sub chans ≡ some (set_channel sub (sent msg (chans sub)) chans)
  unfolding try_send
  try_send_open msg sub chans o = ground arith

  pub sent_open : (msg : M) (c : Channel M) → (sent msg c).is_open ≡ c.is_open
  sent_open msg c = ground arith

  AllOpen_later :
      (msg : M) (sub : ℕ) (subs : List ℕ) (chans : Channels M)
      → contains_channel subs sub ≡ false
      → AllOpen (sub ∷ subs) chans
      → AllOpen subs (set_channel sub (sent msg (chans sub)) chans)
  AllOpen_later msg sub subs chans d o x p = ground (arith, o x)

  visited :
      (msg : M) (sub : ℕ) (subs : List ℕ) (chans chans' : Channels M)
      → contains_channel subs sub ≡ false
      → (x : ℕ)
      → chans' x ≡ (
          if contains_channel subs x
          then sent msg (set_channel sub (sent msg (chans sub)) chans x)
          else set_channel sub (sent msg (chans sub)) chans x)
      → chans' x ≡ (if contains_channel (sub ∷ subs) x then sent msg (chans x) else chans x)
  visited msg sub subs chans chans' d x p = elim (Bool-cases (sub == x)) [
    | inl e ↦
        let same = (==_iff sub x).0 e in
        let later : contains_channel subs x ≡ false =
          subst (λ y. contains_channel subs y ≡ false) same d in
        let here : chans sub ≡ chans x = ap chans same in ground (arith, p, e, later, here)
    | inr e ↦ ground (arith, p, e)
  ]

  -- To open and different channels a message is sent without a panic: each of them gets it once, if
  -- it has room, and no other channel changes.
  pub send_all-sent :
      (msg : M) (subs : List ℕ) (chans : Channels M)
      → all_different subs ≡ true
      → AllOpen subs chans
      → (chans' : Channels M) × (send_all msg subs chans ≡ some chans')
        × ((x : ℕ) → chans' x ≡ (if contains_channel subs x then sent msg (chans x) else chans x))
  unfolding send_all
  send_all-sent msg [] chans d o = (chans, refl, λ x. refl)
  send_all-sent msg (sub ∷ subs) chans d o =
      let fresh : contains_channel subs sub ≡ false = ground arith in
      let chans₁ : Channels M = set_channel sub (sent msg (chans sub)) chans in
      let ih =
        send_all-sent msg subs chans₁ (ground arith) (AllOpen_later msg sub subs chans fresh o) in
      (
        ih.0,
        ap (λ o. o >>= send_all msg subs) (try_send_open msg sub chans (o sub (ground arith)))
            ∙ ih.1,
        λ x. visited msg sub subs chans ih.0 fresh x (ih.2 x),
      )

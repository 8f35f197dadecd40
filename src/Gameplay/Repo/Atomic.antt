-- ===== src/Gameplay/Repo/Atomic.antt =====
-- The retries make one atomic step of the operation.
use hexchess.Prelude.{
  ℕ, zero, suc, ◌<◌, ◌+◌, ◌≡◌, refl, sym, ◌∙◌, ap, subst, append-nil, append_assoc, true, false,
  Option, none, some, List, [], ◌∷◌, ◌++◌, arith, Bool-cases, inl, inr, ◌⊎◌,
}
use hexchess.Gameplay.Repo.{
  Cell, Other, put, touch, emit, TxnResult, stored, max_retries, Interference, act, act_all, dirty,
  Operation, set_piped, Prepared, stop, write, prepare, proceed, attempt_txn, retry_txn,
  update_chess_state_txn,
}

module _ {S B E Ev : Type 0} where
  act_all-append :
      (c : Cell S B E Ev) (xs ys : List (Other S B E Ev))
      → act_all c (xs ++ ys) ≡ act_all (act_all c xs) ys
  act_all-append c [] ys = refl
  act_all-append c (x ∷ xs) ys = act_all-append (act c x) xs ys

  clean-value :
      (c : Cell S B E Ev) (os : List (Other S B E Ev))
      → dirty os ≡ false
      → (act_all c os).value ≡ c.value
  clean-value c [] d = refl
  clean-value c (put v ∷ os) d = cc
  clean-value c (touch t ∷ os) d = clean-value (act c (touch t)) os d
  clean-value c (emit e ∷ os) d = clean-value (act c (emit e)) os d

  -- What the others do around the attempts from `i` on, `n` of them.
  abbrev pub others : ℕ → ℕ → (ℕ → Interference S B E Ev) → List (Other S B E Ev)
  others zero i around = []
  others (suc n) i around = ((around i).before ++ (around i).between) ++ others n (suc i) around

module _ {S B E Ev : Type 0} (op : Operation S B E Ev) where
  -- The operation with nobody else around: it reads, and writes or leaves everything as it is.
  abbrev pub perform : ℕ → Cell S B E Ev → Prepared op → Cell S B E Ev × TxnResult S B E Ev
  perform now c (stop r) = (c, r)
  perform now c (write s bytes events) = (set_piped op now bytes events c, stored s)

  abbrev pub atomic : ℕ → Cell S B E Ev → Cell S B E Ev × TxnResult S B E Ev
  atomic now c = perform now c (prepare op c.value)

  -- The outcome is that of the operation alone, as one step at some point among what the others do
  -- around the attempts that were used.
  pub record AsOneStep (n i : ℕ) (around : ℕ → Interference S B E Ev) (c : Cell S B E Ev)
      (out : Cell S B E Ev × TxnResult S B E Ev) : Type 0 where
    pub used : ℕ
    pub within : used < suc n
    pub pre : List (Other S B E Ev)
    pub post : List (Other S B E Ev)
    pub split : others used i around ≡ pre ++ post
    pub now : ℕ
    pub cell : out.0 ≡ act_all (atomic now (act_all c pre)).0 post
    pub result : out.1 ≡ (atomic now (act_all c pre)).1

  -- All attempts found that the state was written by somebody else; nothing was done.
  pub record Exhausted (n i : ℕ) (around : ℕ → Interference S B E Ev) (c : Cell S B E Ev)
      (out : Cell S B E Ev × TxnResult S B E Ev) : Type 0 where
    pub always : (k : ℕ) → k < n → dirty (around (k + i)).between ≡ true
    pub cell : out.0 ≡ act_all c (others n i around)
    pub result : out.1 ≡ max_retries

  abbrev pub Linear :
      ℕ
      → ℕ
      → (ℕ → Interference S B E Ev)
      → Cell S B E Ev
      → Cell S B E Ev × TxnResult S B E Ev
      → Type 0
  Linear n i around c out = AsOneStep n i around c out ⊎ Exhausted n i around c out

  Prepared-cases :
      (p : Prepared op)
      → ((r : TxnResult S B E Ev) × (p ≡ stop r))
        ⊎ ((s : S) × (bytes : B) × (events : List Ev) × (p ≡ write s bytes events))
  Prepared-cases (stop r) = inl (r, refl)
  Prepared-cases (write s bytes events) = inr (s, bytes, events, refl)

  module _ (around : ℕ → Interference S B E Ev) where
    -- What the others do around one attempt.
    abbrev around_one : ℕ → List (Other S B E Ev)
    around_one i = (around i).before ++ (around i).between

    seen :
        (i : ℕ) (c : Cell S B E Ev) (os : List (Other S B E Ev))
        → act_all c (around_one i ++ os)
          ≡ act_all (act_all (act_all c (around i).before) (around i).between) os
    seen i c os =
        act_all-append c (around_one i) os
        ∙ ap (λ x. act_all x os) (act_all-append c (around i).before (around i).between)

    always_later :
        (n i : ℕ)
        → dirty (around i).between ≡ true
        → ((k : ℕ) → k < n → dirty (around (k + suc i)).between ≡ true)
        → (k : ℕ) → k < suc n
        → dirty (around (k + i)).between ≡ true
    always_later n i d rest zero lt =
        let shift : i ≡ 0 + i = omega arith in subst (λ j. dirty (around j).between ≡ true) shift d
    always_later n i d rest (suc k) lt =
        let shift : k + suc i ≡ suc k + i = omega arith in
        subst (λ j. dirty (around j).between ≡ true) shift (rest k (omega arith))

    -- One attempt more in front.
    later :
        (n i : ℕ) (c : Cell S B E Ev) (out : Cell S B E Ev × TxnResult S B E Ev)
        → dirty (around i).between ≡ true
        → Linear n (suc i) around (act_all (act_all c (around i).before) (around i).between) out
        → Linear (suc n) i around c out
    later n i c out d (inl r) = inl (record {
      used = suc (r.used);
      within = omega (arith, r.within);
      pre = around_one i ++ r.pre;
      post = r.post;
      split = ap (λ x. around_one i ++ x) r.split ∙ sym (append_assoc (around_one i) r.pre r.post);
      now = r.now;
      cell = r.cell ∙ ap (λ x. act_all (atomic r.now x).0 r.post) (sym (seen i c r.pre));
      result = r.result ∙ ap (λ x. (atomic r.now x).1) (sym (seen i c r.pre));
    })
    later n i c out d (inr r) = inr (record {
      always = always_later n i d r.always;
      cell = r.cell ∙ sym (seen i c (others n (suc i) around));
      result = r.result;
    })

    -- An attempt that is not disturbed.
    stops :
        (n i : ℕ) (c : Cell S B E Ev) (r : TxnResult S B E Ev)
        → prepare op (act_all c (around i).before).value ≡ stop r
        → AsOneStep (suc n) i around c (act_all (act_all c (around i).before) (around i).between, r)
    stops n i c r e = record {
      used = 1;
      within = omega arith;
      pre = (around i).before;
      post = (around i).between;
      split = append-nil (around_one i);
      now = 0;
      cell = rw e refl;
      result = rw e refl;
    }

    writes :
        (n i : ℕ) (c : Cell S B E Ev) (s : S) (bytes : B) (events : List Ev)
        → dirty (around i).between ≡ false
        → prepare op (act_all c (around i).before).value ≡ write s bytes events
        → AsOneStep (suc n) i around c (
          set_piped op
              (around i).now
              bytes
              events
              (act_all (act_all c (around i).before) (around i).between),
          stored s,
        )
    writes n i c s bytes events d e =
        let same =
          ap (λ x. x.value) (act_all-append c (around i).before (around i).between)
          ∙ clean-value (act_all c (around i).before) (around i).between d in
        let prep = ap (prepare op) same ∙ e in
        record {
          used = 1;
          within = omega arith;
          pre = around_one i;
          post = [];
          split = refl;
          now = (around i).now;
          cell = rw prep (
              ap (λ x. set_piped op (around i).now bytes events x)
                (sym (act_all-append c (around i).before (around i).between)));
          result = rw prep refl;
        }

    after_attempt :
        (n i : ℕ) (c : Cell S B E Ev) (tried : Cell S B E Ev × Option (TxnResult S B E Ev))
        → attempt_txn op (around i) c ≡ tried
        → Linear (suc n) i around c (proceed op tried (λ c'. retry_txn op n (suc i) around c'))
        → Linear (suc n) i around c (retry_txn op (suc n) i around c)
    unfolding retry_txn
    after_attempt n i c tried e l =
        subst
          (λ p. Linear (suc n) i around c (proceed op p (λ c'. retry_txn op n (suc i) around c')))
          (sym e) l

    -- The loop at an attempt.
    retry_txn-Linear :
        (n i : ℕ) (c : Cell S B E Ev) → Linear n i around c (retry_txn op n i around c)
    unfolding retry_txn
    retry_txn-Linear zero i c =
        inr (record { always = λ k lt. absurd (omega arith); cell = refl; result = refl })
    retry_txn-Linear (suc n) i c =
        let read = act_all c (around i).before in
        let rest = act_all read (around i).between in
        elim (Prepared-cases (prepare op read.value)) [
          | inl (r, e) ↦
              let tried : attempt_txn op (around i) c ≡ (rest, some r) = rw e refl in
              after_attempt n i c _ tried (inl (stops n i c r e))
          | inr (s, bytes, events, e) ↦ elim (Bool-cases (dirty (around i).between)) [
            | inr d ↦
                let tried : attempt_txn op (around i) c
                    ≡ (set_piped op (around i).now bytes events rest, some (stored s)) =
                  rw (e, d) refl in
                after_attempt n i c _ tried (inl (writes n i c s bytes events d e))
            | inl d ↦
                let tried : attempt_txn op (around i) c ≡ (rest, none) = rw (e, d) refl in
                rw (retry_txn, tried)
                  (later n i c (retry_txn op n (suc i) around rest) d
                    (retry_txn-Linear n (suc i) rest))
          ]
        ]

    -- Whatever other clients do around its attempts, UpdateChessStateTxn has the result and the effect
    -- of the operation alone, done as one step at some point among what they do: no update is lost, and
    -- an error leaves no trace. Or each of its five attempts found the state written in between, and
    -- it returns the error that says so, with no effect.
    pub update_chess_state_txn-Linear :
        (c : Cell S B E Ev) → Linear 5 0 around c (update_chess_state_txn op around c)
    unfolding update_chess_state_txn
    update_chess_state_txn-Linear c = retry_txn-Linear 5 0 c

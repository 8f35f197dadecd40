-- ===== src/Timers/Polling.antt =====
-- Which games the polling of backend/service/chesstimers.go times out.
use hexchess.Prelude.{
  ℕ, ◌≡◌, refl, ◌∙◌, ap, Bool, false, ◌||◌, ◌+◌, Option, none, List, [], ◌∷◌, ◌++◌, map,
  if◌then◌else◌, Bool-cases, inl, inr, arith,
}
use hexchess.Model.Enums.{Text, same_text}
use hexchess.Cache.{contains_text, is_due, SortedSets, Documented}
use hexchess.Cache.Members.{one_if, count_text, count_text_distinct}
use hexchess.Timers.{TimerEvent, Timers, timeout_event, publish, poll_game_timers, iterations}

-- How often a game is on the stream.
abbrev pub events_of : Text → List TimerEvent → ℕ
events_of m [] = 0
events_of m (e ∷ es) = one_if (same_text m e.id) + events_of m es

events_of-append :
    (m : Text) (es fs : List TimerEvent) → events_of m (es ++ fs) ≡ events_of m es + events_of m fs
events_of-append m [] fs = ground arith
events_of-append m (e ∷ es) fs = ground (arith, events_of-append m es fs)

events_of-map : (m : Text) (l : List Text) → events_of m (map timeout_event l) ≡ count_text m l
events_of-map m [] = refl
events_of-map m (x ∷ xs) = ground (arith, events_of-map m xs)

-- One of the times has come to the score.
abbrev pub is_polled : List ℕ → Option ℕ → Bool
is_polled [] s = false
is_polled (now ∷ nows) s = is_due now s || is_polled nows s

unscored : (nows : List ℕ) → is_polled nows none ≡ false
unscored [] = refl
unscored (now ∷ nows) = unscored nows

module _ {Z : Type 0} (ops : SortedSets Z) (documented : Documented ops) where
  publish-exact :
      (due : List Text) (t : Timers Z) (m : Text)
      → (ops.zscore m (publish ops due t).game_timers
          ≡ (if contains_text due m then none else ops.zscore m t.game_timers))
        × (events_of m (publish ops due t).stream ≡ events_of m t.stream + count_text m due)
  publish-exact [] t m = (refl, ground arith)
  publish-exact (x ∷ xs) t m = (
    documented.score_zrem (x ∷ xs) t.game_timers m,
    events_of-append m t.stream (map timeout_event (x ∷ xs))
        ∙ ap (λ n. events_of m t.stream + n) (events_of-map m (x ∷ xs)),
  )

  -- A poll adds a `TIMEOUT` event, once, of exactly the games whose score has come, removes them from
  -- the set, and leaves the score of every other game.
  pub poll_game_timers-exact :
      (now : ℕ) (t : Timers Z) (m : Text)
      → (ops.zscore m (poll_game_timers ops now t).game_timers
          ≡ (if is_due now (ops.zscore m t.game_timers) then none else ops.zscore m t.game_timers))
        × (events_of m (poll_game_timers ops now t).stream
            ≡ events_of m t.stream + one_if (is_due now (ops.zscore m t.game_timers)))
  unfolding poll_game_timers
  poll_game_timers-exact now t m =
      let due : List Text = ops.zrange_by_score now t.game_timers in
      let lists = documented.range now t.game_timers in
      let all = publish-exact due t m in
      (
        all.0 ∙ ap (λ c. if c then none else ops.zscore m t.game_timers) (lists.listed m),
        all.1
            ∙ ap (λ n. events_of m t.stream + n)
                (count_text_distinct m due lists.distinct ∙ ap one_if (lists.listed m)),
      )

  -- However often the loop polls, and at whatever times, a game that is not written in between gets
  -- one event if one of the times has come to its score, and none otherwise.
  pub iterations-once :
      (nows : List ℕ) (t : Timers Z) (m : Text)
      → events_of m (iterations ops nows t).stream
        ≡ events_of m t.stream + one_if (is_polled nows (ops.zscore m t.game_timers))
  unfolding iterations
  iterations-once [] t m = ground arith
  iterations-once (now ∷ nows) t m =
      let next : Timers Z = poll_game_timers ops now t in
      let one = poll_game_timers-exact now t m in
      let later = iterations-once nows next m in
      elim (Bool-cases (is_due now (ops.zscore m t.game_timers))) [
        | inl e ↦
            let left = ap (λ c. if c then none else ops.zscore m t.game_timers) e in
            let off = ap (is_polled nows) (one.0 ∙ left) ∙ unscored nows in
            ground (arith, e, one.1, later, off)
        | inr e ↦
            let left = ap (λ c. if c then none else ops.zscore m t.game_timers) e in
            let same = ap (is_polled nows) (one.0 ∙ left) in ground (arith, e, one.1, later, same)
      ]

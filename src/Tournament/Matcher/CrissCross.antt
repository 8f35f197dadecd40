-- ===== src/Tournament/Matcher/CrissCross.antt =====
-- Who meets in the first round of a Swiss tournament.
use hexchess.Prelude.{
  ℕ, zero, suc, ◌+◌, ◌-◌, ◌*◌, ◌≤◌, ◌≡◌, refl, some, List, [], ◌∷◌, length, get_elem?, get_elem?-in,
  arith, Bool,
}
use hexchess.Tournament.Scoring.{Ratings}
use hexchess.Tournament.Matcher.{
  Runtime, MatchCreation, criss_cross, FirstMatchParticipant, ids_of, elo_before,
  make_matches_criss_cross_elos,
}
use hexchess.Tournament.Matcher.Pairing.{length-ids_of}

-- Match `i` is between the players `i` places from the low end and from the high end.
abbrev pub Meets : List ℕ → ℕ → ℕ → List MatchCreation → Type 0
Meets ids low bound ms =
    (i : ℕ) (m : MatchCreation)
    → get_elem? ms i ≡ some m
    → (get_elem? ids (low + i) ≡ some m.white_id)
      × (get_elem? ids (bound - 1 - i) ≡ some m.black_id)

Meets-cons :
    (ids : List ℕ) (low high : ℕ) (first : MatchCreation) (ms : List MatchCreation)
    → get_elem? ids low ≡ some first.white_id
    → get_elem? ids high ≡ some first.black_id
    → Meets ids (low + 1) high ms
    → Meets ids low (suc high) (first ∷ ms)
Meets-cons ids low high first ms w b rest zero m e = ground (arith)
Meets-cons ids low high first ms w b rest (suc i) m e = ground (arith, rest i m e)

criss_cross-Meets :
    (game_id : ℕ → ℕ) (ids : List ℕ) (n low bound : ℕ)
    → bound ≡ low + 2 * n
    → bound ≤ length ids
    → (ms : List MatchCreation) × (criss_cross game_id ids low bound ≡ some ms)
      × (length ms ≡ n)
      × Meets ids low bound ms
criss_cross-Meets game_id ids zero low zero e fits = ([], refl, refl, λ i m x. cc)
criss_cross-Meets game_id ids zero low (suc high) e fits = ([], ground arith, refl, λ i m x. cc)
criss_cross-Meets game_id ids (suc n) low zero e fits = absurd (omega arith)
criss_cross-Meets game_id ids (suc n) low (suc high) e fits =
    let (ms, r, l, meets) =
      criss_cross-Meets game_id ids n (low + 1) high (omega arith) (omega arith) in
    let (w, ew) = get_elem?-in ids low (omega arith) in
    let (b, eb) = get_elem?-in ids high (omega arith) in
    (
      record { game_id = game_id low; white_id = w; black_id = b } ∷ ms,
      ground (arith),
      omega (arith, l),
      Meets-cons ids low high (record { game_id = game_id low; white_id = w; black_id = b }) ms ew
          eb meets,
    )

module _ (R : Ratings) (G : Runtime) where
  -- If the sort keeps the number of participants and that number is even, the first round of a
  -- Swiss tournament is made without a panic: half as many matches, and match `i` is between the
  -- participants `i` places from either end of the sorted list.
  pub make_matches_criss_cross_elos-Meets :
      (n : ℕ) (ps : List (FirstMatchParticipant R G))
      → ((before : FirstMatchParticipant R G → FirstMatchParticipant R G → Bool)
          → length (G.sort_func before ps) ≡ length ps)
      → length ps ≡ 2 * n
      → (ms : List MatchCreation) × (make_matches_criss_cross_elos R G ps ≡ some ms)
        × (length ms ≡ n)
        × Meets (ids_of R G (G.sort_func (elo_before R G) ps)) 0 (length ps) ms
  unfolding make_matches_criss_cross_elos
  make_matches_criss_cross_elos-Meets n ps keeps e =
      let ids = ids_of R G (G.sort_func (elo_before R G) ps) in
      criss_cross-Meets G.game_id ids n 0 (length ps) (omega arith)
        (omega (arith, length-ids_of R G (G.sort_func (elo_before R G) ps), keeps (elo_before R G)))

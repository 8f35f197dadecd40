-- ===== src/Tournament/Advancing/Games.antt =====
-- `AdvanceTournament` of backend/service/tournamentadvancer.go: the transaction, and then a game for
-- each of its matches. The games are created in parallel there, and one after the other here. The users
-- of the matches and the texts of identifiers are parameters; the broadcast is left out.
use hexchess.Prelude.{
  ℕ, ◌≡◌, refl, ◌∙◌, sym, ap, true, false, Option, none, some, List, [], ◌∷◌, ◌==◌, All,
  if◌then◌else◌, ◌>>=◌, ◌++◌, ◌∈◌, Bool-cases, Option-cases, inl, inr, arith,
}
use hexchess.Prelude.Int.{pos}
use hexchess.Model.Enums.{Text, GameMode, white}
use hexchess.Tournament.Scoring.{Ratings}
use hexchess.Tournament.Matcher.{Runtime}
use hexchess.Tournament.Advancing.{
  TournamentMatch, Rows, Advanced, advanced, aborted, AdvanceError, find_row, advance_tournament,
}
use hexchess.Tournament.Advancing.Repeated.{advance_tournament-again}
use hexchess.Gameplay.State.{PlayerState, ChessState, ChessStateArgs, not_ended}
use hexchess.Gameplay.Service.Creation.{create_game, create_game-returns}

-- The name and the country of a user.
pub record UserData : Type 0 where
  pub username : Text
  pub country : Text

-- The states of games under their identifiers.
abbrev pub Games : Type 0
Games = ℕ → Option ChessState

-- What the games of matches are created with: the time, the mode of the tournament, the users, and the
-- text of an identifier, with the one that would stand for an empty text.
pub record Setup : Type 0 where
  pub now : ℕ
  pub mode : GameMode
  pub user_data : ℕ → Option UserData
  pub id_text : ℕ → Text
  pub new_id : Text

abbrev pub new_player : ℕ → UserData → PlayerState
new_player id u = record { id = pos id; name = u.username; country = u.country; present = true }

abbrev pub nobody : PlayerState
nobody = record { id = pos 0; name = []; country = []; present = false }

abbrev pub match_args : Setup → TournamentMatch → UserData → UserData → ChessStateArgs
match_args c m w b = record {
  id = c.id_text m.game_id;
  mode = c.mode;
  first_color = white;
  white = new_player m.white_id w;
  black = new_player m.black_id b;
  initial_board = none;
  game = none;
  end_state = not_ended;
  undo_id = pos 0;
}

abbrev pub set_game : ℕ → ChessState → Games → Games
set_game id s games = λ k. if k == id then some s else games k

-- A game is written whatever is there. The inner `none` is the error of a missing user.
abbrev pub setup_for :
    Setup → TournamentMatch → Option UserData → Option UserData → Games → Option (Option Games)
setup_for c m (some w) (some b) games = do
  s ← create_game c.now c.new_id (match_args c m w b)
  some (some (set_game m.game_id s games))
setup_for c m (some w) none games = some none
setup_for c m none b games = some none

unfoldable pub setup_game : Setup → TournamentMatch → Games → Option (Option Games)
setup_game c m games = setup_for c m (c.user_data m.white_id) (c.user_data m.black_id) games

abbrev pub go_on : (Games → Option (Option Games)) → Option Games → Option (Option Games)
go_on f none = some none
go_on f (some games) = f games

unfoldable pub setup_games : Setup → List TournamentMatch → Games → Option (Option Games)
setup_games c [] games = some (some games)
setup_games c (m ∷ ms) games = do
  r ← setup_game c m games
  go_on (λ games'. setup_games c ms games') r

-- Both players of a match are known.
abbrev pub Known : Setup → TournamentMatch → Type 0
Known c m =
    (w : UserData) × (b : UserData) × (c.user_data m.white_id ≡ some w)
    × (c.user_data m.black_id ≡ some b)

-- A game as CreateGame makes it for a match.
abbrev pub Created : Setup → TournamentMatch → Option ChessState → Type 0
Created c m o =
    (w : UserData) × (b : UserData) × (s : ChessState) × (c.user_data m.white_id ≡ some w)
    × (c.user_data m.black_id ≡ some b)
    × (create_game c.now c.new_id (match_args c m w b) ≡ some s)
    × (o ≡ some s)

-- What setting up the games of matches leaves under an identifier, from what was there: a new game of
-- a match with that identifier, or what was there if no match has it.
pub data SetUp (c : Setup) (id : ℕ) (ms : List TournamentMatch) (before after : Option ChessState)
    : Type 0 where
  untouched : All (λ m. (id == m.game_id) ≡ false) ms → after ≡ before → SetUp c id ms before after
  renewed :
      (m : TournamentMatch)
      → m ∈ ms
      → (id == m.game_id) ≡ true
      → Created c m after
      → SetUp c id ms before after

one_more :
    (c : Setup) (id : ℕ) (m : TournamentMatch) (ms : List TournamentMatch) (games : Games)
    (s : ChessState) (after : Option ChessState)
    → Created c m (some s)
    → SetUp c id ms (set_game m.game_id s games id) after
    → SetUp c id (m ∷ ms) (games id) after
one_more c id m ms games s after (w, b, s', uw, ub, made, same) (untouched away kept) =
    elim (Bool-cases (id == m.game_id)) [
      | inl e ↦
          renewed m (inl refl) e
            (w, b, s', uw, ub, made, kept ∙ ap (λ t. if t then some s else games id) e ∙ same)
      | inr e ↦ untouched (e, away) (kept ∙ ap (λ t. if t then some s else games id) e)
    ]
one_more c id m ms games s after made (renewed n there e again) = renewed n (inr there) e again

-- Setting up the games of matches whose players are known does not fail.
pub setup_games-SetUp :
    (c : Setup) (ms : List TournamentMatch) (games : Games)
    → All (Known c) ms
    → (games' : Games) × (setup_games c ms games ≡ some (some games'))
      × ((id : ℕ) → SetUp c id ms (games id) (games' id))
unfolding setup_games setup_game
setup_games-SetUp c [] games known = (games, refl, λ id. untouched tt refl)
setup_games-SetUp c (m ∷ ms) games ((w, b, uw, ub), known) =
    let (s, made) = create_game-returns c.now c.new_id (match_args c m w b) refl in
    let next : Games = set_game m.game_id s games in
    let (games', all, each) = setup_games-SetUp c ms next known in
    (
      games',
      rw (uw, ub, made) all,
      λ id. one_more c id m ms games s (games' id) (w, b, s, uw, ub, made, refl) (each id),
    )

-- The rows, the games and the matches after an advancement, or its error.
pub data Outcome (F : Type 0) : Type 0 where
  set_up : Rows F → Games → List TournamentMatch → Outcome F
  no_player : Rows F → Outcome F
  not_advanced : AdvanceError → Outcome F

module _ (R : Ratings) where
  open R use {Rating}

  abbrev pub then_games : Rows Rating → List TournamentMatch → Option Games → Outcome Rating
  then_games s ms none = no_player s
  then_games s ms (some games) = set_up s games ms

  abbrev pub after_transaction : Setup → Games → Advanced Rating → Option (Outcome Rating)
  after_transaction c games (advanced s ms) = do
    r ← setup_games c ms games
    some (then_games s ms r)
  after_transaction c games (aborted e) = some (not_advanced e)

  -- `AdvanceTournament`.
  unfoldable pub advance_with_games :
      Runtime → Setup → ℕ → Rows Rating → Games → Option (Outcome Rating)
  advance_with_games G c event_id s games = do
    a ← advance_tournament R G event_id s
    after_transaction c games a

  advanced_before :
      (c : Setup) (games : Games) (a : Advanced Rating) (s' : Rows Rating) (games' : Games)
      (ms : List TournamentMatch)
      → after_transaction c games a ≡ some (set_up s' games' ms)
      → a ≡ advanced s' ms
  advanced_before c games (aborted e) s' games' ms q = absurd cc
  advanced_before c games (advanced s ns) s' games' ms q =
      elim (Option-cases (setup_games c ns games)) [
        | inl e ↦ absurd (ground (arith, e, q))
        | inr (o, e) ↦ elim (Option-cases o) [
          | inl n ↦ absurd (ground (arith, e, n, q))
          | inr (g, n) ↦ ground (arith, e, n, q)
        ]
      ]

  -- When an event that advanced a tournament is delivered again, whatever became of the games of its
  -- matches since then, AdvanceTournament gives the same matches and changes no row, but creates
  -- their games again: under the identifier of a match there is then a new game of a match with that
  -- identifier, and every other game stays. The users of the matches are known at the second delivery.
  -- If the event was new at the first, its matches were added to the rows of those before them.
  pub advance_with_games-again :
      (G G' : Runtime) (c c' : Setup) (event_id : ℕ) (s s' : Rows Rating)
      (games games' later : Games) (ms : List TournamentMatch)
      → advance_with_games G c event_id s games ≡ some (set_up s' games' ms)
      → All (Known c') ms
      → (renewed_games : Games) × (advance_with_games G' c' event_id s' later
          ≡ some (set_up s' renewed_games ms))
        × ((id : ℕ) → SetUp c' id ms (later id) (renewed_games id))
        × (find_row event_id s.event_keys ≡ none → s'.matches ≡ s.matches ++ ms)
  unfolding advance_with_games
  advance_with_games-again G G' c c' event_id s s' games games' later ms q known =
      elim (Option-cases (advance_tournament R G event_id s)) [
        | inl e ↦ absurd (ground (arith, e, q))
        | inr (a, e) ↦
            let over : after_transaction c games a ≡ some (set_up s' games' ms) =
              sym (rw e refl) ∙ q in
            let first : advance_tournament R G event_id s ≡ some (advanced s' ms) =
              e ∙ ap some (advanced_before c games a s' games' ms over) in
            let (again, added) = advance_tournament-again R G G' event_id s s' ms first in
            let (renewed_games, all, each) = setup_games-SetUp c' ms later known in
            (renewed_games, rw (again, all) refl, each, added)
      ]

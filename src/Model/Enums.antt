-- ===== src/Model/Enums.antt =====
-- The enumerations of backend/model: gamemode.go, gamecolor.go, replayresult.go, replaycause.go.
-- Durations are nanoseconds. Their texts go through the helper of backend/utils/enum/enum.go.
use hexchess.Prelude.{
  ℕ, ◌*◌, ◌≡◌, refl, Bool, true, false, Option, none, some, List, [], ◌∷◌, ◌&&◌, ◌==◌,
  if◌then◌else◌, arith,
}

pub data GameMode : Type 0 where
  correspondence_1 correspondence_7 correspondence_14 : GameMode
  timed_1_plus_0 timed_3_plus_2 timed_15_plus_10 : GameMode

unfoldable pub is_real_time : GameMode → Bool
is_real_time timed_1_plus_0 = true
is_real_time timed_3_plus_2 = true
is_real_time timed_15_plus_10 = true
is_real_time correspondence_1 = false
is_real_time correspondence_7 = false
is_real_time correspondence_14 = false

abbrev seconds : ℕ → ℕ
seconds n = n * 1000000000

unfoldable pub total_time : GameMode → ℕ
total_time timed_1_plus_0 = seconds 60
total_time timed_3_plus_2 = seconds 180
total_time timed_15_plus_10 = seconds 900
total_time correspondence_1 = 0
total_time correspondence_7 = 0
total_time correspondence_14 = 0

unfoldable pub time_increment : GameMode → ℕ
time_increment timed_1_plus_0 = 0
time_increment timed_3_plus_2 = seconds 2
time_increment timed_15_plus_10 = seconds 10
time_increment correspondence_1 = 0
time_increment correspondence_7 = 0
time_increment correspondence_14 = 0

pub data GameColor : Type 0 where
  random white black : GameColor

pub data ReplayCause : Type 0 where
  checkmate forfeit stalemate timeout : ReplayCause

-- Texts, as their bytes.
abbrev pub Text : Type 0
Text = List ℕ

abbrev pub same_text : Text → Text → Bool
same_text [] [] = true
same_text (a ∷ s) (b ∷ t) = a == b && same_text s t
same_text [] (b ∷ t) = false
same_text (a ∷ s) [] = false

pub ≡-of_same_text : (a b : Text) → same_text a b ≡ true → a ≡ b
≡-of_same_text [] [] p = refl
≡-of_same_text (c ∷ cs) (d ∷ ds) p =
    let first : c ≡ d = ground arith in
    let rest : cs ≡ ds = ≡-of_same_text cs ds (ground arith) in ground (arith, first, rest)
≡-of_same_text [] (d ∷ ds) p = ground (arith, p)
≡-of_same_text (c ∷ cs) [] p = ground (arith, p)

pub same_text_refl : (a : Text) → same_text a a ≡ true
same_text_refl [] = refl
same_text_refl (c ∷ cs) = ground (arith, same_text_refl cs)

-- An enumeration with its number and the text of each of its values.
pub record Entry (E : Type 0) : Type 0 where
  pub enum : E
  pub string : Text

-- `String`, for the number of a value.
abbrev pub enum_string : {E : Type 0} → (E → ℕ) → E → List (Entry E) → Text
enum_string number v [] = b'U' ∷ b'N' ∷ b'K' ∷ b'N' ∷ b'O' ∷ b'W' ∷ b'N' ∷ []
enum_string number v (e ∷ es) =
    let rest = enum_string number v es in if number (e.enum) == number v then e.string else rest

-- `Parse` in the map that `BuildReverseMap` makes: a later entry replaces one with the same text.
abbrev pub parse_enum : {E : Type 0} → Text → List (Entry E) → Option E
parse_enum s [] = none
parse_enum s (e ∷ es) = elim (parse_enum s es) [
  | some v ↦ some v
  | none ↦ if same_text (e.string) s then some (e.enum) else none
]

abbrev game_mode_number : GameMode → ℕ
game_mode_number correspondence_1 = 0
game_mode_number correspondence_7 = 1
game_mode_number correspondence_14 = 2
game_mode_number timed_1_plus_0 = 3
game_mode_number timed_3_plus_2 = 4
game_mode_number timed_15_plus_10 = 5

abbrev pub game_mode_entries : List (Entry GameMode)
game_mode_entries =
    record {
      enum = correspondence_1;
      string =
          b'C' ∷ b'O' ∷ b'R' ∷ b'R' ∷ b'E' ∷ b'S' ∷ b'P' ∷ b'O' ∷ b'N' ∷ b'D' ∷ b'E' ∷ b'N' ∷ b'C'
          ∷ b'E' ∷ b'_' ∷ b'1' ∷ [];
    }
    ∷ record {
      enum = correspondence_7;
      string =
          b'C' ∷ b'O' ∷ b'R' ∷ b'R' ∷ b'E' ∷ b'S' ∷ b'P' ∷ b'O' ∷ b'N' ∷ b'D' ∷ b'E' ∷ b'N' ∷ b'C'
          ∷ b'E' ∷ b'_' ∷ b'7' ∷ [];
    }
    ∷ record {
      enum = correspondence_14;
      string =
          b'C' ∷ b'O' ∷ b'R' ∷ b'R' ∷ b'E' ∷ b'S' ∷ b'P' ∷ b'O' ∷ b'N' ∷ b'D' ∷ b'E' ∷ b'N' ∷ b'C'
          ∷ b'E' ∷ b'_' ∷ b'1' ∷ b'4' ∷ [];
    }
    ∷ record {
      enum = timed_1_plus_0;
      string = b'T' ∷ b'I' ∷ b'M' ∷ b'E' ∷ b'D' ∷ b'_' ∷ b'1' ∷ b'+' ∷ b'0' ∷ [];
    }
    ∷ record {
      enum = timed_3_plus_2;
      string = b'T' ∷ b'I' ∷ b'M' ∷ b'E' ∷ b'D' ∷ b'_' ∷ b'3' ∷ b'+' ∷ b'2' ∷ [];
    }
    ∷ record {
      enum = timed_15_plus_10;
      string = b'T' ∷ b'I' ∷ b'M' ∷ b'E' ∷ b'D' ∷ b'_' ∷ b'1' ∷ b'5' ∷ b'+' ∷ b'1' ∷ b'0' ∷ [];
    }
    ∷ []

unfoldable pub game_mode_string : GameMode → Text
game_mode_string m = enum_string game_mode_number m game_mode_entries

unfoldable pub parse_game_mode : Text → Option GameMode
parse_game_mode s = parse_enum s game_mode_entries

abbrev game_color_number : GameColor → ℕ
game_color_number random = 0
game_color_number white = 1
game_color_number black = 2

abbrev pub color_entries : List (Entry GameColor)
color_entries =
    record { enum = random; string = b'R' ∷ b'A' ∷ b'N' ∷ b'D' ∷ b'O' ∷ b'M' ∷ [] }
    ∷ record { enum = white; string = b'W' ∷ b'H' ∷ b'I' ∷ b'T' ∷ b'E' ∷ [] }
    ∷ record { enum = black; string = b'B' ∷ b'L' ∷ b'A' ∷ b'C' ∷ b'K' ∷ [] }
    ∷ []

unfoldable pub game_color_string : GameColor → Text
game_color_string c = enum_string game_color_number c color_entries

unfoldable pub parse_game_color : Text → Option GameColor
parse_game_color s = parse_enum s color_entries

pub parse_game_mode-game_mode_string :
    (m : GameMode) → parse_game_mode (game_mode_string m) ≡ some m
unfolding parse_game_mode game_mode_string
parse_game_mode-game_mode_string correspondence_1 = refl
parse_game_mode-game_mode_string correspondence_7 = refl
parse_game_mode-game_mode_string correspondence_14 = refl
parse_game_mode-game_mode_string timed_1_plus_0 = refl
parse_game_mode-game_mode_string timed_3_plus_2 = refl
parse_game_mode-game_mode_string timed_15_plus_10 = refl

pub parse_game_color-game_color_string :
    (c : GameColor) → parse_game_color (game_color_string c) ≡ some c
unfolding parse_game_color game_color_string
parse_game_color-game_color_string random = refl
parse_game_color-game_color_string white = refl
parse_game_color-game_color_string black = refl

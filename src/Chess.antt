-- ===== src/Chess.antt =====
-- The rules of the game: the Go package backend/chess. Its parts are the children.
pub mod Piece
pub mod Hex
pub mod Board
pub mod Moves
pub mod Notation
pub mod Game
pub mod Start
pub mod Fen
pub mod Tests
pub mod Witnesses

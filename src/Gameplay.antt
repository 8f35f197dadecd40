-- ===== src/Gameplay.antt =====
-- Games in play: backend/model/chess.go and backend/model/playerstate.go.
pub mod State
pub mod Repo
pub mod Service
pub mod Witnesses

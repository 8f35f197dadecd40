-- ===== src/Tournament.antt =====
-- Tournaments: the pairings of backend/service/tournamentmatcher.go, the lobby of
-- tournamentupdater.go, and the events of tournamentadvancer.go.
pub mod Scoring
pub mod Matcher
pub mod Updates
pub mod Advancing
mod Witnesses

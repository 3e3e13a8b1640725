-- ===== src/Ranking.antt =====
-- services/ranking-service: the signals that reactions leave (usecase/signals.go) and the order of a
-- feed (usecase/rank.go).
mod Tests
pub mod Signals
pub mod Diversity
pub mod Rank

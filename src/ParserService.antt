-- ===== src/ParserService.antt =====
-- services/parser-service: its jobs and the scheduler that starts them, the registry of sources, and
-- the search of all sources.
pub mod Jobs
pub mod Search
pub mod Registry
pub mod Scheduler
pub mod Rss
pub mod Config
pub mod Build
pub mod JobsHandler
pub mod Parsers
mod Tests

-- ===== src/Contracts.antt =====
-- The types that the services exchange: contracts/{article,events,feed,parser,user}/v1.
pub mod Query
pub mod Article
pub mod Feed
pub mod Parser
pub mod User
pub mod Events
mod Tests

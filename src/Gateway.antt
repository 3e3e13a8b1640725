-- ===== src/Gateway.antt =====
-- services/gateway-api: the rate limit, the feed as one user sees it, and the cache of responses.
pub mod RateLimit
pub mod Http
pub mod FeedQuery
pub mod FeedHandler
pub mod Reactions
pub mod Searches
pub mod Sources
pub mod Feed

-- ===== src/ParserService/Parsers.antt =====
-- services/parser-service/internal/parsers: what the parsers of the sites make of what they fetch. The
-- clients' requests, the HTML and XML of a page and the decoders of JSON and times are arguments.
pub mod Json
pub mod Texts
pub mod Page
pub mod State
pub mod Vc
pub mod VcArticle
pub mod Dzen
pub mod DzenArticle
pub mod RssFeed
pub mod WebSearch
pub mod Urls
pub mod Http
pub mod VcClient
pub mod VcDiscovery
pub mod DzenSearch
pub mod Workers
pub mod DzenClient
pub mod Habr
pub mod HabrClient
mod Tests
mod ClientTests

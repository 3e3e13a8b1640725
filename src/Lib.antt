-- ===== src/Lib.antt =====
-- articleflow collects articles from several sites, stores them, ranks them, and shows them as a feed
-- that each user's reactions shape. This library models the parts of its services that decide
-- something, in plain functions, and proves what those parts owe to each other.
--
-- How the parts interact: the parser service runs jobs (services/parser-service/internal/jobs), each
-- of which searches all sources (internal/search), reads their pages and answers (internal/parsers)
-- and publishes the candidates as events. The article service takes the events in
-- (services/article-service/internal/usecase/ingest.go) and answers searches. The feed service keeps
-- the items of the feed (services/feed-service/internal/usecase/feed.go), the ranking service scores
-- and orders them (services/ranking-service/internal/usecase), the user service keeps profiles and
-- reactions (services/user-service/internal/usecase/reactions.go), and the gateway
-- (services/gateway-api/internal/transport/http) reads the requests, limits them, hides what the user
-- rejected, caches responses and publishes reactions. Counters of what they do
-- stand in the registry of packages/observability.
--
-- Which file models which part:
--   Contracts.*            contracts/*/v1: the records, Validate and Normalize of each contract
--   Dedup                  the loop that keeps the first of equal texts (cleanSourceOrder,
--                          cleanCandidateTags, queryTerms, cleanSources)
--   RoundRobin             the loops of interleaveArticlesBySource, interleaveFeedItemsBySource and
--                          interleaveCandidateBuckets; Columns, Grouping, Order, Limited and Members
--                          hold its lemmas
--   ArticleIds             the id of an article as three services compute it
--   ArticleService.Text    searchTerms, matchesAllTerms, normalizeTag, sourceSet, tagSet
--   ArticleService.Store   MemoryArticleStore: save is Save, search is Search, found and page its parts
--   ArticleService.Ingest  IngestUsecase: ingest_discovered over the interface ArticleStore
--   ArticleService.Consumer
--                          DiscoveredHandler and ConsumerLoop: handle and consume
--   FeedService            MemoryFeed: add_article, upsert_scored_item, list
--   UserService            MemoryReactions: record_reaction is Record, ensure_profile is EnsureProfile
--   Ranking.Signals        usecase/signals.go; Signals.Spec is what the signals promise
--   Ranking.Diversity, Rank
--                          usecase/rank.go: the order that mixes sources, and the scores
--   ParserService.Jobs     Manager and MemoryStore: start, begin_run and finish_run are Start and Run
--                          before and after the search; Interleavings has the goroutines of StartAsync
--   ParserService.Search   SearchAndPublish: Candidates has one candidate, Sources one source, Search
--                          the loop over the sources and the publication
--   ParserService.Registry, Scheduler, Rss
--                          sources/runtime.go, scheduler.go (RunOnce and Run), publish_discovered.go
--   ParserService.Config, Build, JobsHandler
--                          the settings, the registry that is built of them, the HTTP handler of jobs
--   ParserService.Parsers.*
--                          the parsers of habr.com (Habr, HabrClient), vc.ru (State, Vc, VcArticle,
--                          VcClient, VcDiscovery), dzen.ru (Dzen, DzenArticle, DzenSearch, DzenClient,
--                          Workers), of RSS and Atom (RssFeed) and the search on the web (WebSearch);
--                          Json is the value that encoding/json decodes, Page the view of a page, Http
--                          a response and its checks, Urls and Texts what several parsers repeat
--   Gateway.Http           session.go and router.go: the session of a request, CORS
--   Gateway.RateLimit      rate_limit.go: serve is the middleware's handler
--   Gateway.FeedQuery      the query of the feed and its cursor
--   Gateway.Feed, FeedHandler
--                          feed_handler.go: the reactions applied, the cache, the whole handler
--   Gateway.Reactions, Searches, Sources
--                          the handlers of reactions, of searches and of the sources
--   Observability          packages/observability/metrics.go (Metrics) and the recorders of the
--                          services (Recorders)
--   Go.*                   what the code uses of Go's standard library: strings, maps, stable sorts,
--                          times, errors, strconv (Decimal)
--   Prelude                shared names, Boolean tests on numbers, lists, signed integers
--
-- How the code is represented: a method that changes its receiver is a function from the old state to
-- the new one, a lock makes it one step; a map is a list of entries, and code that ranges over one takes
-- the order of the visit as an argument; an error is its text; an int is a signed integer (the counters
-- stay far below 2^63, so they do not wrap); a time is the number of nanoseconds since Go's zero time;
-- float64 is a record of operations with the laws that the code relies on. A text is a list of Unicode
-- characters; ToLower and TrimSpace are written out for ASCII, Latin-1 and Cyrillic letters, and the
-- Unicode spaces. SHA-1, net/url, time.Now, time.Parse, the decoders of JSON and XML, goquery, the
-- printing of floats, the producer, the sites and unicode.IsLetter are arguments.
--
-- Fuel: the rounds of RoundRobin run on one more round than there are items, and each round before the
-- last one takes an item, so that the fuel is never what ends them; the lemmas on length and permutation
-- would fail otherwise. The digits of a number (Go.Decimal) run on the number itself, which is at least
-- the count of its digits; reading them back gives the number. The choice of Ranking.Diversity takes one
-- item a round, and has one round for each item. The pages of VcDiscovery have one round more than the
-- limit on the URLs, and a round that adds none ends the loop; the attempts of HabrClient are counted
-- down. All other loops are structural.
--
-- Not modelled: the stores in Postgres, which are statements of SQL; the handlers in front of the
-- article, the feed, the user and the sources of the parser service, and the gateway's clients of them,
-- which pass a request on to what is modelled; the transport by gRPC and Kafka, the wiring of the
-- services and the frontend, which belong to libraries or only put the parts together.
mod Prelude
pub mod Go
pub mod Contracts
pub mod Dedup
pub mod RoundRobin
pub mod ArticleService
pub mod FeedService
pub mod UserService
pub mod Ranking
pub mod Observability
pub mod ParserService
pub mod Gateway
pub mod ArticleIds

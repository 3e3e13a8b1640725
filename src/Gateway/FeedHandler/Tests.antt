-- ===== src/Gateway/FeedHandler/Tests.antt =====
-- Runs of the handler of the feed, its query and its session.
use articleflow.Contracts.Query.{clamp_limit}
use articleflow.Gateway.FeedQuery.Laws.{parse-next_feed_cursor}
use articleflow.Gateway.FeedHandler.Laws.{handle_feed-IsModest, IsModestFor}
use articleflow.Gateway.Http.Laws.{user_id-open_session}
use articleflow.Gateway.FeedHandler.Repeats.{handle_feed_repeats}
use articleflow.Contracts.User.{reaction_skip}
use articleflow.ParserService.Jobs.{queued_job}
use articleflow.Prelude.{
  arith, refl, false, ◌==◌, if◌then◌else◌, ◌∷◌, map, ◌≡◌, [], none, List, some, ℕ, Option, String,
}
use articleflow.Gateway.FeedHandler.Handle.{handle_feed}
use articleflow.Go.Text.{trim_space, to_lower, is_empty}
use articleflow.Go.Map.{lookup, insert}
use articleflow.Gateway.Feed.{apply_user_reactions, cache_get, cache_set, hides_feed_item}
use articleflow.Gateway.FeedQuery.{next_feed_cursor, parse_feed_cursor}
use articleflow.Gateway.Http.{
  generate_anonymous_user_id, open_session, status_of, user_id_from_request,
}
use articleflow.Gateway.FeedHandler.{feed_article_id}
use articleflow.Prelude.Int.{pos}
use articleflow.Gateway.FeedHandler.{
  failure, FeedItem, UserReaction, reply, ok, Time, Result, SearchQuery, Map, ArticleCandidate,
  Request, Response, Dependencies, FeedCache, FeedResponse,
}

-- Two URLs: a query, and the same with a refill.
abbrev values_of : String → Map (List String)
values_of raw_query =
    if raw_query == "query=go&refill=1"
    then ("query", "go" ∷ []) ∷ ("refill", "1" ∷ []) ∷ []
    else ("query", " go" ∷ []) ∷ ("limit", "2" ∷ []) ∷ ("cursor", "offset:20" ∷ []) ∷ []

abbrev request : String → String → Request
request raw_query user_id = record {
  method = "GET";
  path = "/api/v1/feed";
  raw_query = raw_query;
  headers = [];
  cookies = [];
  context_user_id = some user_id;
}

abbrev candidate : String → ArticleCandidate
candidate id = record {
  source_name = "habr";
  external_id = id;
  url = id;
  title = "t";
  summary = "";
  content = "";
  author = "";
  tags = [];
  language = "ru";
  published_at = 1;
}

abbrev find : SearchQuery → Result (List ArticleCandidate)
find query = ok (candidate "1" ∷ candidate "2" ∷ [])

-- The user "a" skipped the first article; nobody else did anything.
abbrev list_user_reactions : String → Result (List UserReaction)
list_user_reactions user_id =
    if user_id == "a"
    then ok
        (record { user_id = "a"; article_id = "habr:1"; type = reaction_skip; created_at = 1 } ∷ [])
    else ok []

abbrev dependencies : Dependencies ℕ
dependencies = record {
  list = λ _. [];
  search = some find;
  start_async = some (λ query. ok (queued_job (λ text. text) (λ _. "") query 5));
  list_user_reactions = some list_user_reactions;
  refill_min_items = pos 10;
  refill_limit = pos 500;
}

abbrev cache : FeedCache ℕ
cache = record { ttl = 60; entries = [] }

abbrev parse_time : String → Option Time
parse_time raw_value = none

abbrev shown : Response (FeedResponse ℕ) → List String
shown (reply _ payload) = map (λ (item : FeedItem ℕ). item.article_id) payload.items
shown (failure _ message) = message ∷ []

-- The second user gets what is left for the first one.
shared_test :
    let first =
      handle_feed values_of 0 parse_time dependencies 10 11 (some cache) (request "query=go" "a") in
    let second =
      handle_feed values_of 0 parse_time dependencies 12 12 first.cache (request "query=go" "b") in
    let alone =
      handle_feed values_of 0 parse_time dependencies 12 12 none (request "query=go" "b") in
    (shown second.response ≡ "habr:2" ∷ []) × (shown alone.response ≡ "habr:1" ∷ "habr:2" ∷ [])
unfolding handle_feed lookup trim_space to_lower insert apply_user_reactions user_id_from_request
    feed_article_id cache_get cache_set
shared_test = (refl, refl)

handle_feed-IsModest_example :
    IsModestFor values_of
      (request "query=go&refill=1" "a")
      (handle_feed values_of 0 parse_time dependencies 10 11
        (some cache)
        (request "query=go&refill=1" "a")).asked
handle_feed-IsModest_example =
    handle_feed-IsModest values_of 0 parse_time dependencies 10 11 (some cache)
      (request "query=go&refill=1" "a")

-- The job of that example is for 100 articles, not for 500.
refill_test :
    map
      (λ (query : SearchQuery). query.limit)
      (handle_feed values_of 0 parse_time dependencies 10 11
        (some cache)
        (request "query=go&refill=1" "a")).asked
    ≡ pos 100 ∷ []
unfolding handle_feed lookup trim_space to_lower apply_user_reactions user_id_from_request
    hides_feed_item insert clamp_limit
refill_test = refl

handle_feed_repeats_example :
    let first =
      handle_feed values_of 0 parse_time dependencies 10 11 (some cache) (request "query=go" "a") in
    (handle_feed values_of 0 parse_time dependencies 12 12 first.cache
      (request "query=go" "b")).response
    ≡ first.response
unfolding handle_feed lookup trim_space to_lower status_of
handle_feed_repeats_example =
    handle_feed_repeats values_of 0 parse_time dependencies find 10 11 12 12 cache
      (request "query=go" "a") [] [] (some "b") refl refl refl refl refl (omega arith) refl

parse-next_feed_cursor_example : parse_feed_cursor (next_feed_cursor (pos 40) 20 (pos 20)) ≡ pos 60
parse-next_feed_cursor_example =
    parse-next_feed_cursor 40 20 (pos 20) (omega arith) (omega arith) (omega arith) (omega arith)

user_id-open_session_example :
    let (cookie, request') =
      open_session (generate_anonymous_user_id (some "07")) (request "query=go" "a") in
    (user_id_from_request values_of request' ≡ trim_space cookie)
    × (is_empty (trim_space cookie) ≡ false)
user_id-open_session_example = user_id-open_session values_of (some "07") (request "query=go" "a")

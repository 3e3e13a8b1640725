-- ===== src/Gateway/FeedHandler/Handle.antt =====
-- services/gateway-api/internal/transport/http/feed_handler.go: handleQueryFeed and the handler of
-- NewFeedHandlerWithRefill. `now` and `found_at` are the times at which the cache is read and written.
use articleflow.Gateway.FeedQuery.{search_query, parse_limit}
use articleflow.Gateway.Http.{query_value}
use articleflow.Prelude.{
  ◌==◌, not, if◌then◌else◌, some, [], Option, none, false, length, List, String,
}
use articleflow.Contracts.Parser.{ArticleCandidate, SearchQuery}
use articleflow.Gateway.FeedHandler.{
  is_empty, method_not_allowed, trim_space, reply, ok, failure, err, Handled, FeedCache, Time,
  Result, keep_response, FeedResponse, start_refill, ℤ, Request, query_response, cached_response,
  personalized_feed_items, feed_items_from_candidates, Map, Dependencies,
}

module _ {Score : Type 0} (values_of : String → Map (List String)) where
  -- handleQueryFeed from the search on. `found_at` is the time of the last use of the cache.
  unfoldable pub answer_query :
      Score
      → (SearchQuery → Result (List ArticleCandidate))
      → Dependencies Score
      → Time
      → Option (FeedCache Score)
      → Request
      → ℤ
      → SearchQuery
      → Handled Score
  unfolding feed_items_from_candidates personalized_feed_items query_response start_refill
      keep_response
  answer_query zero_score find dependencies found_at cache request limit query = elim (find query) [
    | err _ ↦ record { cache = cache; response = failure 502 "feed search failed"; asked = [] }
    | ok candidates ↦
        let items =
          personalized_feed_items values_of dependencies request
            (feed_items_from_candidates zero_score candidates) in
        let (payload, asked) =
          start_refill values_of dependencies request query limit
            (query_response query limit items) in
        record {
          cache = keep_response found_at cache request.raw_query payload;
          response = reply 200 payload;
          asked = asked;
        }
  ]

  unfoldable pub handle_query_feed :
      Score
      → (String → Option Time)
      → (SearchQuery → Result (List ArticleCandidate))
      → Dependencies Score
      → Time
      → Time
      → Option (FeedCache Score)
      → Request
      → String
      → ℤ
      → Handled Score
  unfolding cached_response search_query answer_query
  handle_query_feed zero_score parse_time find dependencies now found_at cache request query_text
        limit =
      let (looked, hit) = cached_response values_of now cache request in
      elim hit [
        | some payload ↦ record { cache = looked; response = reply 200 payload; asked = [] }
        | none ↦ elim (search_query parse_time (values_of request.raw_query) query_text limit) [
          | err e ↦ record { cache = looked; response = failure 400 e; asked = [] }
          | ok query ↦ answer_query zero_score find dependencies found_at looked request limit query
        ]
      ]

  -- The response without a query.
  unfoldable pub default_response : Dependencies Score → Request → ℤ → FeedResponse Score
  unfolding personalized_feed_items
  default_response dependencies request limit =
      let items =
        personalized_feed_items values_of dependencies request (dependencies.list limit) in
      record {
        items = items;
        mode = "default";
        returned_count = length items;
        next_cursor = "";
        refill_started = false;
        refill_job = none;
      }

  -- The handler of NewFeedHandlerWithRefill.
  unfoldable pub handle_feed :
      Score
      → (String → Option Time)
      → Dependencies Score
      → Time
      → Time
      → Option (FeedCache Score)
      → Request
      → Handled Score
  unfolding handle_query_feed default_response parse_limit query_value
  handle_feed zero_score parse_time dependencies now found_at cache request =
      let values = values_of request.raw_query in
      let limit = parse_limit values in
      let query_text = trim_space (query_value values "query") in
      let by_default : Handled Score = record {
        cache = cache;
        response = reply 200 (default_response dependencies request limit);
        asked = [];
      } in
      if not (request.method == "GET")
      then record { cache = cache; response = method_not_allowed; asked = [] }
      else if is_empty query_text
      then by_default
      else elim dependencies.search [
        | none ↦ by_default
        | some find ↦
            handle_query_feed zero_score parse_time find dependencies now found_at cache request
              query_text limit
      ]

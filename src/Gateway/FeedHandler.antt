-- ===== src/Gateway/FeedHandler.antt =====
-- services/gateway-api/internal/transport/http/feed_handler.go: the handler of the feed. What the
-- services behind the gateway answer is an argument, `none` where the handler is built without the
-- service; `values_of` stands for net/url's parse of the raw query, `parse_time` for time.Parse.
pub mod Handle
pub mod Laws
pub mod Repeats
mod Tests
use articleflow.Contracts.User.{UserReaction}
use articleflow.Go.Result.{err, ok, Result}
use articleflow.Go.Time.{Time}
use articleflow.Gateway.FeedQuery.{
  search_query, parse_limit, refill_minimum, refill_limit, wants_refill, next_feed_cursor,
}
use articleflow.Gateway.Feed.{apply_user_reactions, cache_set, cache_get}
use articleflow.Go.Map.{Map}
use articleflow.Gateway.Http.{
  method_not_allowed, reply, failure, query_value, user_id_from_request, Request, Response,
}
use articleflow.Contracts.Parser.{ParserJob, normalize, SearchQuery, ArticleCandidate}
use articleflow.Contracts.Feed.{FeedItem}
use articleflow.Go.Text.{trim_space, is_empty, cat}
use articleflow.Prelude.{
  ◌==◌, true, length, ◌&&◌, not, ◌∷◌, false, if◌then◌else◌, Bool, none, [], some, suc, ℕ, map,
  Option, List, String,
}
use articleflow.Prelude.Int.{ltb_ℤ, ℤ, pos}

pub record Dependencies (Score : Type 0) : Type 0 where
  pub list : ℤ → List (FeedItem Score)
  pub search : Option (SearchQuery → Result (List ArticleCandidate))
  pub start_async : Option (SearchQuery → Result ParserJob)
  pub list_user_reactions : Option (String → Result (List UserReaction))
  pub refill_min_items : ℤ
  pub refill_limit : ℤ

pub record FeedResponse (Score : Type 0) : Type 0 where
  pub items : List (FeedItem Score)
  pub mode : String
  pub returned_count : ℕ
  pub next_cursor : String
  pub refill_started : Bool
  pub refill_job : Option ParserJob

pub record FeedCache (Score : Type 0) : Type 0 where
  pub ttl : ℕ
  pub entries : Map (FeedResponse Score × Time)

-- No cache where the time to live is not positive.
unfoldable pub new_feed_response_cache : {Score : Type 0} → ℤ → Option (FeedCache Score)
new_feed_response_cache (pos (suc ttl)) = some (record { ttl = suc ttl; entries = [] })
new_feed_response_cache _ = none

-- What a request leaves: the cache, the response, and the queries of the jobs it asked for.
pub record Handled (Score : Type 0) : Type 0 where
  pub cache : Option (FeedCache Score)
  pub response : Response (FeedResponse Score)
  pub asked : List SearchQuery

unfoldable pub feed_article_id : ArticleCandidate → String
unfolding cat
feed_article_id candidate =
    if not (is_empty candidate.source_name) && not (is_empty candidate.external_id)
    then cat candidate.source_name (cat ":" candidate.external_id)
    else candidate.url

module _ {Score : Type 0} (zero_score : Score) where
  -- The item of one candidate, with the zero values of Go for what it does not give.
  unfoldable pub feed_item_from_candidate : ArticleCandidate → FeedItem Score
  unfolding feed_article_id
  feed_item_from_candidate candidate = record {
    article_id = feed_article_id candidate;
    title = candidate.title;
    summary = candidate.summary;
    source_name = candidate.source_name;
    url = candidate.url;
    tags = candidate.tags;
    score = zero_score;
    score_reasons = [];
    reaction = "";
    saved = false;
    published_at = candidate.published_at;
  }

  unfoldable pub feed_items_from_candidates : List ArticleCandidate → List (FeedItem Score)
  unfolding feed_item_from_candidate
  feed_items_from_candidates candidates = map feed_item_from_candidate candidates

module _ {Score : Type 0} where
  -- The last use of the cache: a response that started no refill is kept.
  unfoldable pub keep_response :
      Time → Option (FeedCache Score) → String → FeedResponse Score → Option (FeedCache Score)
  unfolding cache_set
  keep_response now none key payload = none
  keep_response now (some cache) key payload =
      if payload.refill_started
      then some cache
      else some (record cache { entries = cache_set cache.ttl now cache.entries key payload })

  -- The response for the items of a query before a refill.
  unfoldable pub query_response : SearchQuery → ℤ → List (FeedItem Score) → FeedResponse Score
  unfolding next_feed_cursor
  query_response query limit items = record {
    items = items;
    mode = "query";
    returned_count = length items;
    next_cursor = next_feed_cursor query.offset (length items) limit;
    refill_started = false;
    refill_job = none;
  }

  abbrev pub refill_query : Dependencies Score → SearchQuery → ℤ → SearchQuery
  refill_query dependencies query limit =
      normalize (record query { limit = refill_limit dependencies.refill_limit limit })

  -- The response once a refill was asked for: the job of it, if one could be started.
  unfoldable pub with_refill : Result ParserJob → FeedResponse Score → FeedResponse Score
  with_refill (ok job) payload = record payload { refill_started = true; refill_job = some job }
  with_refill (err _) payload = payload

module _ {Score : Type 0} (values_of : String → Map (List String)) where
  -- The items as the user of the request sees them.
  unfoldable pub personalized_feed_items :
      Dependencies Score → Request → List (FeedItem Score) → List (FeedItem Score)
  personalized_feed_items dependencies request [] = []
  personalized_feed_items dependencies request (item ∷ items) =
      let user_id = user_id_from_request values_of request in
      if is_empty user_id then item ∷ items else elim dependencies.list_user_reactions [
        | none ↦ item ∷ items
        | some list_user_reactions ↦ elim (list_user_reactions user_id) [
          | err _ ↦ item ∷ items
          | ok [] ↦ item ∷ items
          | ok (reaction ∷ reactions) ↦ apply_user_reactions (item ∷ items) (reaction ∷ reactions)
        ]
      ]

  unfoldable pub should_start_refill : Dependencies Score → Request → ℕ → ℤ → Bool
  unfolding wants_refill refill_minimum
  should_start_refill dependencies request item_count limit = elim dependencies.start_async [
    | none ↦ false
    | some _ ↦
        wants_refill (values_of request.raw_query)
        && ltb_ℤ (pos item_count) (refill_minimum dependencies.refill_min_items limit)
  ]

  -- What the cache has for a request that does not ask for a refill; an old response is removed.
  unfoldable pub cached_response :
      Time
      → Option (FeedCache Score)
      → Request
      → Option (FeedCache Score) × Option (FeedResponse Score)
  unfolding cache_get wants_refill
  cached_response now none request = (none, none)
  cached_response now (some cache) request =
      if wants_refill (values_of request.raw_query)
      then (some cache, none)
      else let (entries, found) = cache_get now cache.entries request.raw_query in
        (some (record cache { entries = entries }), found)

  unfoldable pub start_refill :
      Dependencies Score
      → Request
      → SearchQuery
      → ℤ
      → FeedResponse Score
      → FeedResponse Score × List SearchQuery
  unfolding should_start_refill with_refill refill_limit normalize
  start_refill dependencies request query limit payload =
      let asked = refill_query dependencies query limit in
      elim dependencies.start_async [
        | none ↦ (payload, [])
        | some start_async ↦
            if should_start_refill dependencies request payload.returned_count limit
            then (with_refill (start_async asked) payload, asked ∷ [])
            else (payload, [])
      ]

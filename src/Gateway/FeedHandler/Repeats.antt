-- ===== src/Gateway/FeedHandler/Repeats.antt =====
-- What the cache of responses repeats, and to whom.
use articleflow.Gateway.FeedHandler.Laws.{handle_feed_query}
use articleflow.Gateway.Feed.Laws.{cache_get-cache_set}
use articleflow.Go.Result.{Result-cases}
use articleflow.Go.Map.{lookup}
use articleflow.Prelude.{
  ap, true, ◌==◌, Option, eq_refl, none, refl, inr, arith, inl, Option-cases, ◌+◌, [], ◌≤◌, some,
  false, ◌≡◌, List, String,
}
use articleflow.Gateway.FeedHandler.{
  parse_limit, search_query, feed_items_from_candidates, personalized_feed_items, reply,
  wants_refill, FeedResponse, ℤ, FeedCache, Handled, Result, Time, Request, Map, Dependencies,
  keep_response, cached_response, start_refill, should_start_refill, query_response,
}
use articleflow.Contracts.Parser.{ArticleCandidate, SearchQuery}
use articleflow.Gateway.Feed.{cache_get}
use articleflow.Gateway.Http.{status_of}
use articleflow.Go.Text.{trim_space, is_empty}
use articleflow.Gateway.Http.{query_value}
use articleflow.Gateway.FeedHandler.Handle.{handle_feed, handle_query_feed, answer_query}

module _ {Score : Type 0} (values_of : String → Map (List String)) where
  start_refill_unwanted :
      (dependencies : Dependencies Score) (request : Request) (query : SearchQuery) (limit : ℤ)
      (payload : FeedResponse Score)
      → wants_refill (values_of request.raw_query) ≡ false
      → start_refill values_of dependencies request query limit payload ≡ (payload, [])
  unfolding start_refill should_start_refill
  start_refill_unwanted dependencies request query limit payload unwanted =
      elim (Option-cases dependencies.start_async) [
        | inl absent ↦ rw (start_refill, absent) refl
        | inr (start, e) ↦ rw (start_refill, e, should_start_refill, e, unwanted) refl
      ]

  -- The response that a query got and the cache then keeps.
  record IsKept (first : Handled Score) (found_at : Time) (cache : FeedCache Score) (key : String)
      : Type 0 where
    payload : FeedResponse Score
    kept : first.cache ≡ keep_response found_at (some cache) key payload
    sent : first.response ≡ reply 200 payload
    started : payload.refill_started ≡ false

  answer_query-IsKept :
      (zero_score : Score) (find : SearchQuery → Result (List ArticleCandidate))
      (dependencies : Dependencies Score) (found_at : Time) (cache : FeedCache Score)
      (request : Request) (limit : ℤ) (query : SearchQuery)
      → wants_refill (values_of request.raw_query) ≡ false
      → status_of
          (answer_query values_of zero_score find dependencies found_at
            (some cache)
            request
            limit
            query).response
        ≡ 200
      → IsKept
          (answer_query values_of zero_score find dependencies found_at
            (some cache)
            request
            limit
            query)
          found_at
          cache
          request.raw_query
  unfolding answer_query status_of query_response
  answer_query-IsKept zero_score find dependencies found_at cache request limit query unwanted
        answered =
      elim (Result-cases (find query)) [
        | inr (message, e) ↦ absurd (omega (arith, rw (answer_query, e) at answered))
        | inl (candidates, e) ↦
            let items =
              personalized_feed_items values_of dependencies request
                (feed_items_from_candidates zero_score candidates) in
            rw
              (
                answer_query,
                e,
                start_refill_unwanted dependencies request query limit
                    (query_response query limit items) unwanted,
              )
              (record {
                payload = query_response query limit items;
                kept = refl;
                sent = refl;
                started = refl;
              })
      ]

  cached_response_missed :
      (now : Time) (cache : FeedCache Score) (request : Request)
      → wants_refill (values_of request.raw_query) ≡ false
      → lookup request.raw_query cache.entries ≡ none
      → cached_response values_of now (some cache) request ≡ (some cache, none)
  unfolding cached_response cache_get
  cached_response_missed now cache request unwanted missing = rw (unwanted, cache_get, missing) refl

  cached_response_kept :
      (now found_at : Time) (cache : FeedCache Score) (request : Request)
      (payload : FeedResponse Score)
      → wants_refill (values_of request.raw_query) ≡ false
      → payload.refill_started ≡ false
      → now ≤ found_at + cache.ttl
      → (cached_response values_of now
          (keep_response found_at (some cache) request.raw_query payload)
          request).1
        ≡ some payload
  unfolding cached_response keep_response
  cached_response_kept now found_at cache request payload unwanted started soon =
      rw (started, unwanted)
        (ground (
          arith,
          cache_get-cache_set cache.ttl found_at now cache.entries request.raw_query
              request.raw_query payload,
          eq_refl request.raw_query,
          soon,
        ))

  handle_query_feed-IsKept :
      (zero_score : Score) (parse_time : String → Option Time)
      (find : SearchQuery → Result (List ArticleCandidate)) (dependencies : Dependencies Score)
      (now found_at : Time) (cache : FeedCache Score) (request : Request) (text : String)
      (limit : ℤ)
      → wants_refill (values_of request.raw_query) ≡ false
      → lookup request.raw_query cache.entries ≡ none
      → status_of
          (handle_query_feed values_of zero_score parse_time find dependencies now found_at
            (some cache)
            request
            text
            limit).response
        ≡ 200
      → IsKept
          (handle_query_feed values_of zero_score parse_time find dependencies now found_at
            (some cache)
            request
            text
            limit)
          found_at
          cache
          request.raw_query
  unfolding handle_query_feed status_of
  handle_query_feed-IsKept zero_score parse_time find dependencies now found_at cache request text
        limit unwanted missing answered =
      let missed = cached_response_missed now cache request unwanted missing in
      let left = ap (λ (r : Option (FeedCache Score) × Option (FeedResponse Score)). r.0) missed in
      let hit = ap (λ (r : Option (FeedCache Score) × Option (FeedResponse Score)). r.1) missed in
      elim (Result-cases (search_query parse_time (values_of request.raw_query) text limit)) [
        | inr (message, e) ↦ absurd (omega (arith, rw (handle_query_feed, hit, e) at answered))
        | inl (query, e) ↦
            rw (handle_query_feed, hit, e, left)
              (answer_query-IsKept zero_score find dependencies found_at cache request limit query
                unwanted (rw (handle_query_feed, hit, e, left) at answered))
      ]

  -- A query that found a response which is not in the cache is answered with the same response, until
  -- the response expires, when the same URL is asked for with other headers, cookies and session:
  -- also when the second user hid, or saved, other articles than the first one. The query asks for no
  -- refill.
  pub handle_feed_repeats :
      (zero_score : Score) (parse_time : String → Option Time) (dependencies : Dependencies Score)
      (find : SearchQuery → Result (List ArticleCandidate)) (now found_at now' found_at' : Time)
      (cache : FeedCache Score) (request : Request) (headers cookies : Map String)
      (user_id : Option String)
      → (request.method == "GET") ≡ true
      → is_empty (trim_space (query_value (values_of request.raw_query) "query")) ≡ false
      → dependencies.search ≡ some find
      → wants_refill (values_of request.raw_query) ≡ false
      → lookup request.raw_query cache.entries ≡ none
      → now' ≤ found_at + cache.ttl
      → status_of
          (handle_feed values_of zero_score parse_time dependencies now found_at
            (some cache)
            request).response
        ≡ 200
      → let first =
          handle_feed values_of zero_score parse_time dependencies now found_at
            (some cache)
            request in
        let other = record request {
          headers = headers;
          cookies = cookies;
          context_user_id = user_id;
        } in
        (handle_feed values_of zero_score parse_time dependencies now' found_at' first.cache
          other).response
        ≡ first.response
  unfolding handle_query_feed
  handle_feed_repeats zero_score parse_time dependencies find now found_at now' found_at' cache
        request headers cookies user_id get filled e unwanted missing soon answered =
      let text = trim_space (query_value (values_of request.raw_query) "query") in
      let limit = parse_limit (values_of request.raw_query) in
      let other = record request {
        headers = headers;
        cookies = cookies;
        context_user_id = user_id;
      } in
      let first =
        handle_feed_query values_of zero_score parse_time dependencies find now found_at
          (some cache) request get filled e in
      let kept =
        handle_query_feed-IsKept zero_score parse_time find dependencies now found_at cache request
          text limit unwanted missing (rw first at answered) in
      let second =
        handle_feed_query values_of zero_score parse_time dependencies find now' found_at'
          (keep_response found_at (some cache) request.raw_query kept.payload) other get filled e in
      let hit =
        cached_response_kept now' found_at cache other kept.payload unwanted kept.started soon in
      rw (first, kept.kept, kept.sent, second, handle_query_feed, hit) refl

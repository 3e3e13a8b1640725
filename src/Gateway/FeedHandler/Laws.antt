-- ===== src/Gateway/FeedHandler/Laws.antt =====
-- When a request starts a job, and what the cache repeats.
use articleflow.Go.Text.Laws.{trim_space_idem}
use articleflow.Go.Result.{Result-cases}
use articleflow.Contracts.Parser.Laws.{normalize-IsNormal}
use articleflow.Gateway.Http.{query_value}
use articleflow.Go.Text.{trim_space, is_empty}
use articleflow.Gateway.FeedQuery.{search_query, parse_limit, parse_optional_time_query}
use articleflow.Gateway.FeedHandler.Handle.{handle_feed, handle_query_feed, answer_query}
use articleflow.Gateway.FeedHandler.Handle.{default_response}
use articleflow.Prelude.Int.{pos, ℤ, ◌≤ℤ◌, ltb_ℤ}
use articleflow.Contracts.Parser.{ArticleCandidate, normalize, SearchQuery}
use articleflow.Prelude.{
  false, some, none, subst, sym, ◌∙◌, ap, ◌==◌, Option, refl, Bool-cases, inr, inl, [],
  Option-cases, ◌∷◌, arith, true, ◌≡◌, ℕ, List, String,
}
use articleflow.Gateway.FeedHandler.{
  reply, Handled, err, cached_response, ok, FeedCache, Time, Result, refill_limit, refill_minimum,
  trim_space, wants_refill, FeedResponse, pos, ℤ, SearchQuery, should_start_refill, start_refill,
  Request, Map, Dependencies,
}

-- A job that refills the feed: of the same text, for 1 to 100 articles.
abbrev pub IsRefill : String → SearchQuery → Type 0
IsRefill text query = (query.text ≡ text) × (pos 1 ≤ℤ query.limit) × (query.limit ≤ℤ pos 100)

normalize-IsRefill : (query : SearchQuery) → IsRefill (trim_space query.text) (normalize query)
unfolding normalize
normalize-IsRefill query =
    let normal = normalize-IsNormal query in (refl, normal.limit_low, normal.limit_high)

-- The jobs that a response asks for: none or one, and none unless the query wants it.
abbrev pub IsModest : Map (List String) → String → List SearchQuery → Type 0
IsModest values text [] = Unit
IsModest values text (query ∷ queries) =
    (wants_refill values ≡ true) × IsRefill text query × (queries ≡ [])

-- The query that is searched for has the text of the request.
search_query-text :
    (parse_time : String → Option Time) (values : Map (List String)) (text : String) (limit : ℤ)
    (query : SearchQuery)
    → search_query parse_time values text limit ≡ ok query
    → query.text ≡ trim_space text
unfolding search_query normalize
search_query-text parse_time values text limit query e =
    elim (Result-cases (parse_optional_time_query parse_time values "from_date")) [
      | inr (message, refused) ↦ ground (arith, rw (search_query, refused) at e)
      | inl (from_date, given) ↦
          elim (Result-cases (parse_optional_time_query parse_time values "to_date")) [
            | inr (message, refused) ↦ ground (arith, rw (search_query, given, refused) at e)
            | inl (to_date, given') ↦
                ap (λ (r : Result SearchQuery). elim r [ ok q ↦ q.text | err _ ↦ "" ])
                  (sym (rw (search_query, given, given') at e))
          ]
    ]

module _ (values_of : String → Map (List String)) where
  -- The same of a request: none unless it is a GET as well.
  abbrev pub IsModestFor : Request → List SearchQuery → Type 0
  IsModestFor request [] = Unit
  IsModestFor request (query ∷ queries) =
      ((request.method == "GET") ≡ true)
      × (wants_refill (values_of request.raw_query) ≡ true)
      × IsRefill (trim_space (query_value (values_of request.raw_query) "query")) query
      × (queries ≡ [])

  get-IsModestFor :
      (request : Request) (asked : List SearchQuery)
      → (request.method == "GET") ≡ true
      → IsModest
          (values_of request.raw_query)
          (trim_space (query_value (values_of request.raw_query) "query"))
          asked
      → IsModestFor request asked
  get-IsModestFor request [] get modest = tt
  get-IsModestFor request (query ∷ queries) get (wanted, refill, single) =
      (get, wanted, refill, single)

module _ {Score : Type 0} (values_of : String → Map (List String)) where
  -- A refill is asked for, and there are fewer items than the minimum.
  should_start-wants :
      (dependencies : Dependencies Score) (request : Request) (count : ℕ) (limit : ℤ)
      → should_start_refill values_of dependencies request count limit ≡ true
      → (wants_refill (values_of request.raw_query) ≡ true)
        × (ltb_ℤ (pos count) (refill_minimum dependencies.refill_min_items limit) ≡ true)
  unfolding should_start_refill
  should_start-wants dependencies request count limit h =
      elim (Option-cases dependencies.start_async) [
        | inl absent ↦ ground (arith, absent, h)
        | inr (start, e) ↦ ground (arith, e, h)
      ]

  start_refill-IsModest :
      (dependencies : Dependencies Score) (request : Request) (query : SearchQuery) (limit : ℤ)
      (payload : FeedResponse Score)
      → IsModest
          (values_of request.raw_query)
          (trim_space query.text)
          (start_refill values_of dependencies request query limit payload).1
  unfolding start_refill
  start_refill-IsModest dependencies request query limit payload =
      let refill =
        normalize-IsRefill
          (record query { limit = refill_limit dependencies.refill_limit limit }) in
      elim (Option-cases dependencies.start_async) [
        | inl absent ↦ rw (start_refill, absent) tt
        | inr (start, e) ↦
            elim (Bool-cases
              (should_start_refill values_of dependencies request payload.returned_count limit)) [
                | inl starts ↦
                    rw (start_refill, e, starts)
                      (
                        (should_start-wants dependencies request payload.returned_count limit
                            starts).0,
                        refill,
                        refl,
                      )
                | inr waits ↦ rw (start_refill, e, waits) tt
              ]
      ]

  answer_query-IsModest :
      (zero_score : Score) (find : SearchQuery → Result (List ArticleCandidate))
      (dependencies : Dependencies Score) (found_at : Time) (cache : Option (FeedCache Score))
      (request : Request) (limit : ℤ) (query : SearchQuery)
      → IsModest
          (values_of request.raw_query)
          (trim_space query.text)
          (answer_query values_of zero_score find dependencies found_at cache request limit
            query).asked
  unfolding answer_query
  answer_query-IsModest zero_score find dependencies found_at cache request limit query =
      elim (Result-cases (find query)) [
        | inr (message, e) ↦ rw (answer_query, e) tt
        | inl (candidates, e) ↦
            rw (answer_query, e) (start_refill-IsModest dependencies request query limit _)
      ]

  handle_query_feed-IsModest :
      (zero_score : Score) (parse_time : String → Option Time)
      (find : SearchQuery → Result (List ArticleCandidate)) (dependencies : Dependencies Score)
      (now found_at : Time) (cache : Option (FeedCache Score)) (request : Request) (text : String)
      (limit : ℤ)
      → trim_space text ≡ text
      → IsModest
          (values_of request.raw_query)
          text
          (handle_query_feed values_of zero_score parse_time find dependencies now found_at cache
            request text limit).asked
  unfolding handle_query_feed
  handle_query_feed-IsModest zero_score parse_time find dependencies now found_at cache request text
        limit trimmed =
      let (looked, hit) = cached_response values_of now cache request in
      elim (Option-cases (cached_response values_of now cache request).1) [
        | inr (payload, e) ↦ rw (handle_query_feed, e) tt
        | inl missed ↦
            elim (Result-cases (search_query parse_time (values_of request.raw_query) text limit)) [
              | inr (message, e) ↦ rw (handle_query_feed, missed, e) tt
              | inl (query, e) ↦
                  let same : trim_space query.text ≡ text =
                    ap trim_space (search_query-text parse_time _ text limit query e)
                    ∙ trim_space_idem text
                    ∙ trimmed in
                  rw (handle_query_feed, missed, e)
                    (subst
                      (λ t.
                        IsModest (values_of request.raw_query) t
                          (answer_query values_of zero_score find dependencies found_at looked
                            request limit query).asked)
                      same
                      (answer_query-IsModest zero_score find dependencies found_at looked request
                        limit query))
            ]
      ]

  -- A GET with a query goes to handleQueryFeed, where there is a search.
  pub handle_feed_query :
      (zero_score : Score) (parse_time : String → Option Time) (dependencies : Dependencies Score)
      (find : SearchQuery → Result (List ArticleCandidate)) (now found_at : Time)
      (cache : Option (FeedCache Score)) (request : Request)
      → (request.method == "GET") ≡ true
      → is_empty (trim_space (query_value (values_of request.raw_query) "query")) ≡ false
      → dependencies.search ≡ some find
      → handle_feed values_of zero_score parse_time dependencies now found_at cache request
        ≡ handle_query_feed values_of zero_score parse_time find dependencies now found_at cache
            request
            (trim_space (query_value (values_of request.raw_query) "query"))
            (parse_limit (values_of request.raw_query))
  unfolding handle_feed
  handle_feed_query zero_score parse_time dependencies find now found_at cache request get filled
        e =
      let values = values_of request.raw_query in
      let limit = parse_limit values in
      let text = trim_space (query_value values "query") in
      let by_default : Handled Score = record {
        cache = cache;
        response = reply 200 (default_response values_of dependencies request limit);
        asked = [];
      } in
      rw (handle_feed, get, filled)
        (ap
          (λ (x : Option (SearchQuery → Result (List ArticleCandidate))).
            elim x as (λ _. Handled Score) [
              | none ↦ by_default
              | some find ↦
                  handle_query_feed values_of zero_score parse_time find dependencies now found_at
                    cache request text limit
            ])
          e)

  -- A request asks for one job at most, and for none unless it is a GET whose query has `refill`
  -- set; the job is for the text of the request, and for 1 to 100 articles whatever is configured.
  pub handle_feed-IsModest :
      (zero_score : Score) (parse_time : String → Option Time) (dependencies : Dependencies Score)
      (now found_at : Time) (cache : Option (FeedCache Score)) (request : Request)
      → IsModestFor values_of request
          (handle_feed values_of zero_score parse_time dependencies now found_at cache
            request).asked
  unfolding handle_feed
  handle_feed-IsModest zero_score parse_time dependencies now found_at cache request =
      let limit = parse_limit (values_of request.raw_query) in
      let text = trim_space (query_value (values_of request.raw_query) "query") in
      elim (Bool-cases (request.method == "GET")) [
        | inr other ↦ rw (handle_feed, other) tt
        | inl get ↦ elim (Bool-cases (is_empty text)) [
          | inl blank ↦ rw (handle_feed, get, blank) tt
          | inr filled ↦ elim (Option-cases dependencies.search) [
            | inl absent ↦ rw (handle_feed, get, filled, absent) tt
            | inr (find, e) ↦
                rw
                  (handle_feed_query zero_score parse_time dependencies find now found_at cache
                    request get filled e)
                  (get-IsModestFor values_of request _ get (
                    handle_query_feed-IsModest zero_score parse_time find dependencies now found_at
                      cache request text limit (trim_space_idem _)))
          ]
        ]
      ]

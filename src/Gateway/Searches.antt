-- ===== src/Gateway/Searches.antt =====
-- services/gateway-api/internal/transport/http: search_handler.go and search_jobs_handler.go.
-- `body` is what the JSON decoder makes of the request's body, if anything; what a service behind the
-- gateway answers is an argument.
use articleflow.Go.Decimal.{atoi}
use articleflow.Go.Text.{trim_prefix, is_empty, trim_space}
use articleflow.Go.Map.{Map}
use articleflow.Go.Result.{ok, err, Result}
use articleflow.Prelude.{
  ◌∷◌, length, ◌||◌, [], not, none, ◌==◌, some, ℕ, if◌then◌else◌, Option, List, String,
}
use articleflow.Prelude.Int.{ltb_ℤ, pos, ℤ, leb_ℤ}
use articleflow.Go.Time.{Time}
use articleflow.Gateway.Http.{method_not_allowed, reply, failure, query_value, Response, Request}
use articleflow.Contracts.Parser.{ParserJob, ArticleCandidate, SearchQuery, normalize, validate}

pub record SearchRequest : Type 0 where
  pub query : String
  pub sources : List String
  pub tags : List String
  pub from_date : Option Time
  pub to_date : Option Time
  pub limit : ℤ
  pub offset : ℤ

pub record SearchResponse : Type 0 where
  pub candidates : List ArticleCandidate
  pub limit : ℤ
  pub offset : ℤ
  pub returned_count : ℕ

unfoldable pub normalize_search_limit : ℤ → ℤ
normalize_search_limit limit =
    if leb_ℤ limit (pos 0) then pos 20 else if ltb_ℤ (pos 100) limit then pos 100 else limit

unfoldable pub query_of_search : SearchRequest → SearchQuery
unfolding normalize_search_limit
query_of_search payload = record {
  text = trim_space payload.query;
  sources = payload.sources;
  tags = payload.tags;
  limit = normalize_search_limit payload.limit;
  offset = payload.offset;
  language = "";
  from_date = payload.from_date;
  to_date = payload.to_date;
}

unfoldable pub handle_search :
    (SearchQuery → Result (List ArticleCandidate))
    → Request
    → Option SearchRequest
    → Response SearchResponse
unfolding query_of_search normalize validate
handle_search find request body =
    if not (request.method == "POST") then method_not_allowed else elim body [
      | none ↦ failure 400 "invalid json body"
      | some payload ↦
          let query = query_of_search payload in
          elim (validate query) [
            | err e ↦ failure 400 e
            | ok _ ↦ elim (find query) [
              | err _ ↦ failure 502 "search failed"
              | ok candidates ↦ reply 200 (record {
                candidates = candidates;
                limit = (normalize query).limit;
                offset = (normalize query).offset;
                returned_count = length candidates;
              })
            ]
          ]
    ]

pub record SearchJobRequest : Type 0 where
  pub query : String
  pub sources : List String
  pub limit : ℤ
  pub from_date : Option Time
  pub to_date : Option Time

-- What the parser service does for the gateway.
pub record ParserJobClient : Type 0 where
  pub start_async : SearchQuery → Result ParserJob
  pub get : String → Result (Option ParserJob)
  pub list : ℤ → Result (List ParserJob)

unfoldable pub start_search_job :
    ParserJobClient → Option SearchJobRequest → Response (List ParserJob)
start_search_job client none = failure 400 "invalid json body"
start_search_job client (some payload) =
    let query : SearchQuery = record {
      text = trim_space payload.query;
      sources = payload.sources;
      tags = [];
      limit = payload.limit;
      offset = pos 0;
      language = "";
      from_date = payload.from_date;
      to_date = payload.to_date;
    } in
    elim (client.start_async query) [
      | err _ ↦ failure 502 "parser job failed"
      | ok job ↦ reply 202 (job ∷ [])
    ]

-- The name at the end of a path, where there is one.
unfoldable pub path_tail : String → String → Option String
path_tail prefix path =
    let name = trim_space (trim_prefix path prefix) in
    if is_empty name || name == path then none else some name

unfoldable pub get_search_job : ParserJobClient → Request → Response (List ParserJob)
unfolding path_tail
get_search_job client request = elim (path_tail "/api/v1/search/jobs/" request.path) [
  | none ↦ failure 400 "job id is required"
  | some id ↦ elim (client.get id) [
    | err _ ↦ failure 502 "parser job failed"
    | ok none ↦ failure 404 "parser job not found"
    | ok (some job) ↦ reply 200 (job ∷ [])
  ]
]

-- The limit of a list of jobs: 20 where none is given, no result where it is not a positive number.
unfoldable pub jobs_limit : Map (List String) → Option ℤ
unfolding query_value
jobs_limit values =
    let raw_limit = trim_space (query_value values "limit") in
    if is_empty raw_limit then some (pos 20) else elim (atoi raw_limit) [
      | none ↦ none
      | some limit ↦
          if leb_ℤ limit (pos 0)
          then none
          else if ltb_ℤ (pos 100) limit
          then some (pos 100)
          else some limit
    ]

unfoldable pub list_search_jobs : ParserJobClient → Map (List String) → Response (List ParserJob)
unfolding jobs_limit
list_search_jobs client values = elim (jobs_limit values) [
  | none ↦ failure 400 "limit must be a positive integer"
  | some limit ↦ elim (client.list limit) [
    | err _ ↦ failure 502 "parser job failed"
    | ok jobs ↦ reply 200 jobs
  ]
]

unfoldable pub handle_search_jobs :
    (String → Map (List String))
    → ParserJobClient
    → Request
    → Option SearchJobRequest
    → Response (List ParserJob)
unfolding start_search_job get_search_job list_search_jobs
handle_search_jobs values_of client request body =
    if request.method == "POST"
    then start_search_job client body
    else if not (request.method == "GET")
    then method_not_allowed
    else if request.path == "/api/v1/search/jobs"
    then list_search_jobs client (values_of request.raw_query)
    else get_search_job client request

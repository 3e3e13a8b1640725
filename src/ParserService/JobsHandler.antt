-- ===== src/ParserService/JobsHandler.antt =====
-- services/parser-service/internal/transport/http/jobs_handler.go, over the manager of the jobs.
-- `body` is what the JSON decoder makes of the request's body, if anything.
use articleflow.Go.Text.{trim_space}
use articleflow.Go.Map.{Map}
use articleflow.Prelude.{not, ◌==◌, if◌then◌else◌, none, [], ◌∷◌, some, Option, List, String}
use articleflow.Prelude.Int.{ℤ, pos}
use articleflow.Go.Time.{Time}
use articleflow.Go.Result.{Result, ok, err}
use articleflow.Contracts.Parser.{SearchQuery, ParserJob}
use articleflow.Gateway.Http.{method_not_allowed, reply, failure, Request, Response}
use articleflow.Gateway.Searches.{path_tail, jobs_limit}

pub record JobRequest : Type 0 where
  pub query : String
  pub sources : List String
  pub limit : ℤ
  pub from_date : Option Time
  pub to_date : Option Time

-- The manager, whose state is `S`; it answers a request within one step.
pub record JobManager (S : Type 0) : Type 0 where
  pub start_async : S → SearchQuery → S × Result ParserJob
  pub get : S → String → Result (Option ParserJob)
  pub list : S → ℤ → Result (List ParserJob)

unfoldable pub job_query : JobRequest → SearchQuery
job_query payload = record {
  text = trim_space payload.query;
  sources = payload.sources;
  tags = [];
  limit = payload.limit;
  offset = pos 0;
  language = "";
  from_date = payload.from_date;
  to_date = payload.to_date;
}

module _ {S : Type 0} (manager : JobManager S) where
  unfoldable pub create_job : S → Option JobRequest → S × Response (List ParserJob)
  unfolding job_query
  create_job s none = (s, failure 400 "invalid json body")
  create_job s (some payload) =
      let (s', started) = manager.start_async s (job_query payload) in
      elim started [ err e ↦ (s', failure 400 e) | ok job ↦ (s', reply 202 (job ∷ [])) ]

  unfoldable pub get_job : S → Request → Response (List ParserJob)
  unfolding path_tail
  get_job s request = elim (path_tail "/api/v1/parser/jobs/" request.path) [
    | none ↦ failure 400 "job id is required"
    | some id ↦ elim (manager.get s id) [
      | err e ↦ failure 500 e
      | ok none ↦ failure 404 "parser job not found"
      | ok (some job) ↦ reply 200 (job ∷ [])
    ]
  ]

  unfoldable pub list_limited_jobs : S → Map (List String) → Response (List ParserJob)
  unfolding jobs_limit
  list_limited_jobs s values = elim (jobs_limit values) [
    | none ↦ failure 400 "limit must be a positive integer"
    | some limit ↦ elim (manager.list s limit) [ err e ↦ failure 500 e | ok jobs ↦ reply 200 jobs ]
  ]

  unfoldable pub handle_jobs :
      (String → Map (List String)) → S → Request → Option JobRequest → S × Response (List ParserJob)
  unfolding create_job get_job list_limited_jobs
  handle_jobs values_of s request body =
      if request.method == "POST"
      then create_job s body
      else if not (request.method == "GET")
      then (s, method_not_allowed)
      else if request.path == "/api/v1/parser/jobs"
      then (s, list_limited_jobs s (values_of request.raw_query))
      else (s, get_job s request)

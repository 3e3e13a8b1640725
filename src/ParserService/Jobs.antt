-- ===== src/ParserService/Jobs.antt =====
-- services/parser-service/internal/jobs: the store in memory and the manager that runs the jobs.
-- SHA-1 and the time format are the arguments `digest` and `format` of the job's id. What the search
-- of a job returns is an argument, and so is each value of time.Now().
pub mod Laws
pub mod Interleavings
mod Tests
use articleflow.Prelude.{
  if◌then◌else◌, ◌∷◌, none, ◌++◌, take, [], Bool, length, List, some, Option, String,
}
use articleflow.Prelude.Int.{ℤ, pos, pos_part, leb_ℤ}
use articleflow.Go.Time.{Time, after}
use articleflow.Go.Text.{cat}
use articleflow.Go.Map.{Map, lookup, insert}
use articleflow.Go.Sort.{sort_stable}
use articleflow.Go.Result.{Result, ok, err}
use articleflow.Contracts.Parser.{
  SearchQuery, normalize, validate, ParserJob, SearchResult, status_queued, status_running,
  status_completed, status_failed,
}

abbrev pub MemoryStore : Type 0
MemoryStore = Map ParserJob

unfoldable pub save_job : MemoryStore → ParserJob → MemoryStore
save_job jobs job = insert job.id job jobs

unfoldable pub find_job : MemoryStore → String → Option ParserJob
find_job jobs id = lookup id jobs

abbrev pub later : ParserJob → ParserJob → Bool
later a b = after a.updated_at b.updated_at

-- `visited` is the jobs of the map in the order in which Go ranges over them.
unfoldable pub list_jobs : List ParserJob → ℤ → List ParserJob
list_jobs visited limit =
    take (if leb_ℤ limit (pos 0) then 20 else pos_part limit) (sort_stable later visited)

-- What the manager needs of its store, whose state is `S`.
pub record JobStore (S : Type 0) : Type 0 where
  pub save : S → ParserJob → S × Result ParserJob
  pub find_by_id : S → String → Result (Option ParserJob)

-- The store in memory, which never fails.
abbrev pub memory_store : JobStore MemoryStore
memory_store = record {
  save = λ jobs job. (save_job jobs job, ok job);
  find_by_id = λ jobs id. ok (find_job jobs id);
}

unfoldable pub stable_job_id : (String → String) → (Time → String) → SearchQuery → Time → String
stable_job_id digest format query created_at =
    cat "parser-job-" (digest (cat query.text (format created_at)))

-- The job of a query, queued now.
unfoldable pub queued_job : (String → String) → (Time → String) → SearchQuery → Time → ParserJob
queued_job digest format query now = record {
  id = stable_job_id digest format query now;
  query = query;
  status = status_queued;
  error = "";
  candidates_count = 0;
  candidates = [];
  source_stats = [];
  created_at = now;
  updated_at = now;
}

-- The job and the error that Run returns; no job where it returns the empty one.
pub record RunResult : Type 0 where
  pub job : Option ParserJob
  pub error : Option String

abbrev pub refused : String → RunResult
refused e = record { job = none; error = some e }

-- What a run has done so far: the job whose search comes next, or the end of the run.
pub data Begun : Type 0 where
  searching : ParserJob → Begun
  ended : RunResult → Begun

unfoldable pub running_job : ParserJob → Time → ParserJob
running_job job now = record job { status = status_running; updated_at = now }

unfoldable pub failed_job : ParserJob → Time → SearchResult → String → ParserJob
failed_job job now result e = record job {
  status = status_failed;
  updated_at = now;
  source_stats = result.source_stats;
  error = e;
}

unfoldable pub completed_job : ParserJob → Time → SearchResult → ParserJob
completed_job job now result = record job {
  status = status_completed;
  updated_at = now;
  source_stats = result.source_stats;
  candidates_count = length result.candidates;
  candidates = result.candidates;
  error = "";
}

-- The store, the jobs that the metrics have observed, and the result of a run.
pub record Ran (S : Type 0) : Type 0 where
  pub store : S
  pub observed : List ParserJob
  pub result : RunResult

module _ {S : Type 0} (jobs : JobStore S) where
  -- `cancelled` is `ctx.Err()` once the context is done.
  unfoldable pub start :
      (String → String)
      → (Time → String)
      → Option String
      → Time
      → S
      → SearchQuery
      → S × Result ParserJob
  unfolding queued_job
  start digest format cancelled now s query = elim (validate (normalize query)) [
    | err e ↦ (s, err e)
    | ok _ ↦ elim cancelled [
      | some e ↦ (s, err e)
      | none ↦ jobs.save s (queued_job digest format (normalize query) now)
    ]
  ]

  -- Run up to the search.
  unfoldable pub begin_run : Time → S → String → S × Begun
  unfolding running_job
  begin_run now s id = elim (jobs.find_by_id s id) [
    | err e ↦ (s, ended (refused e))
    | ok none ↦ (s, ended (refused "parser job not found"))
    | ok (some job) ↦
        let (s', saved) = jobs.save s (running_job job now) in
        elim saved [
          | err e ↦ (s', ended (refused e))
          | ok _ ↦ (s', searching (running_job job now))
        ]
  ]

  abbrev observe_saved : List ParserJob → Result ParserJob → List ParserJob
  observe_saved observed (ok job) = observed ++ job ∷ []
  observe_saved observed (err e) = observed

  abbrev result_of : Result ParserJob → RunResult
  result_of (ok job) = record { job = some job; error = none }
  result_of (err e) = refused e

  -- The error of saving comes before that of the search.
  abbrev failure_of : ParserJob → String → Result ParserJob → RunResult
  failure_of job e (ok _) = record { job = some job; error = some e }
  failure_of job e (err e') = record { job = some job; error = some e' }

  -- Run from the search on, which gave a result and perhaps an error.
  unfoldable pub finish_run :
      Time → S → List ParserJob → ParserJob → SearchResult → Option String → Ran S
  unfolding failed_job completed_job
  finish_run now s observed job result (some e) =
      let failed = failed_job job now result e in
      let (s', saved) = jobs.save s failed in
      record { store = s'; observed = observed ++ failed ∷ []; result = failure_of failed e saved }
  finish_run now s observed job result none =
      let (s', saved) = jobs.save s (completed_job job now result) in
      record { store = s'; observed = observe_saved observed saved; result = result_of saved }

  -- The whole run, with nothing between its parts; `search` is SearchAndPublish.
  unfoldable pub run :
      (SearchQuery → SearchResult × Option String)
      → Time
      → Time
      → S
      → List ParserJob
      → String
      → Ran S
  unfolding begin_run finish_run
  run search started finished s observed id =
      let (s', begun) = begin_run started s id in
      elim begun [
        | ended result ↦ record { store = s'; observed = observed; result = result }
        | searching job ↦
            let (result, failure) = search job.query in
            finish_run finished s' observed job result failure
      ]

-- ===== src/ParserService/Jobs/Tests.antt =====
-- Runs of the job manager, and its theorems at concrete inputs.
use articleflow.Go.Text.{trim_space}
use articleflow.Prelude.{◌≡◌, refl, [], ◌∷◌, ◌++◌, some, none, String, if◌then◌else◌, ◌==◌, true}
use articleflow.Prelude.Int.{pos}
use articleflow.Go.Time.{Time}
use articleflow.Go.Map.{lookup-insert_self, lookup}
use articleflow.Go.Result.{ok}
use articleflow.Contracts.Parser.{SearchQuery, SearchResult, ParserJob, validate, normalize}
use articleflow.ParserService.Jobs.{
  completed_job, Ran, searching, MemoryStore, memory_store, save_job, find_job, queued_job,
  running_job, run, start, begin_run, finish_run,
}
use articleflow.ParserService.Jobs.Laws.{
  begin_run_found, Runs, IsConsistent, final_job, run_found, SaysOutcome, IsEndOf, run-IsConsistent,
  save_job-IsConsistent, queued_job-IsSound,
}
use articleflow.ParserService.Jobs.Interleavings.{
  waiting_is_found, System, idle, IsReachable, at_first, after_step, starts, begins, finishes,
  is_over, idle_is_over,
}

abbrev digest : String → String
digest text = text

abbrev format : Time → String
format now = "1"

abbrev query : SearchQuery
query = record {
  text = "go";
  sources = [];
  tags = [];
  limit = pos 5;
  offset = pos 0;
  language = "ru";
  from_date = none;
  to_date = none;
}

abbrev no_result : SearchResult
no_result = record { candidates = []; source_stats = [] }

abbrev failing : Runs
failing q = (no_result, some "timeout")

abbrev job : ParserJob
job = queued_job digest format (normalize query) 7

abbrev no_jobs : MemoryStore
no_jobs = []

abbrev jobs : MemoryStore
jobs = save_job no_jobs job

is_stored : find_job jobs job.id ≡ some job
unfolding find_job save_job
is_stored = lookup-insert_self job.id job no_jobs

no_jobs-IsConsistent : IsConsistent no_jobs
unfolding find_job lookup
no_jobs-IsConsistent = record { own_id = λ id other e. cc; sound = λ id other e. cc }

jobs-IsConsistent : IsConsistent jobs
jobs-IsConsistent =
    save_job-IsConsistent no_jobs job (queued_job-IsSound digest format (normalize query) 7)
      no_jobs-IsConsistent

run_found_example :
    let ran = run memory_store failing 8 9 jobs [] job.id in
    (final : ParserJob) × (SaysOutcome job (no_result, some "timeout") final
      × IsEndOf job 9 no_result final)
    × (find_job ran.store job.id ≡ (if job.id == job.id then some final else find_job jobs job.id))
    × (ran.observed ≡ [] ++ final ∷ [])
    × (ran.result ≡ record { job = some final; error = some "timeout" })
unfolding queued_job
run_found_example = run_found failing 8 9 jobs [] job.id job job.id is_stored

run-IsConsistent_example : IsConsistent (run memory_store failing 8 9 jobs [] job.id).store
run-IsConsistent_example = run-IsConsistent failing 8 9 jobs [] job.id jobs-IsConsistent

started : start memory_store digest format none 7 no_jobs query ≡ (jobs, ok job)
unfolding start validate normalize trim_space
started = refl

abbrev running : ParserJob
running = running_job job 8

abbrev ran : Ran MemoryStore
ran = finish_run memory_store 9 (save_job jobs running) [] running no_result none

abbrev all_done : System
all_done = record { store = ran.store; waiting = []; searched = []; observed = ran.observed }

all_done-IsReachable : IsReachable all_done
all_done-IsReachable =
    after_step
      (after_step (after_step at_first (starts digest format none 7 query idle jobs job started)) (
        begins 8 jobs (save_job jobs running) [] [] job.id [] [] running
          (begin_run_found 8 jobs job.id job is_stored)))
      (finishes 9 (save_job jobs running) [] [] [] running [] (no_result, none) ran refl)

done_is_stored : find_job all_done.store job.id ≡ some (final_job running 9 (no_result, none))
unfolding find_job save_job running_job completed_job finish_run
done_is_stored =
    lookup-insert_self job.id (final_job running 9 (no_result, none)) (save_job jobs running)

idle_is_over_example : is_over (final_job running 9 (no_result, none)) ≡ true
idle_is_over_example =
    idle_is_over all_done job.id (final_job running 9 (no_result, none)) all_done-IsReachable refl
      refl done_is_stored

abbrev one_waits : System
one_waits = record { store = jobs; waiting = job.id ∷ []; searched = []; observed = [] }

waiting_is_found_example :
    (found : ParserJob) × (found.id ≡ job.id)
    × (begin_run memory_store 8 jobs job.id ≡ (save_job jobs found, searching found))
waiting_is_found_example =
    waiting_is_found one_waits 8 [] [] job.id
      (after_step at_first (starts digest format none 7 query idle jobs job started)) refl

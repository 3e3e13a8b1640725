-- ===== src/ParserService/Jobs/Laws.antt =====
-- What a start and a run do to the jobs in memory.
use articleflow.Prelude.{
  Option-cases, [], ◌∷◌, ◌++◌, none, if◌then◌else◌, refl, subst, ◌==◌, Bool-cases, length, eq_iff,
  ◌⊎◌, ◌≡◌, arith, inr, some, inl, ◌≢◌, Option, String, List,
}
use articleflow.Go.Time.{Time}
use articleflow.Go.Map.{lookup-insert}
use articleflow.Go.Result.{ok, err, Result-cases}
use articleflow.Contracts.Parser.{
  SearchQuery, normalize, validate, ParserJob, SearchResult, status_queued, status_running,
  status_completed, status_failed,
}
use articleflow.ParserService.Jobs.{
  ended, MemoryStore, save_job, find_job, memory_store, queued_job, running_job, failed_job,
  completed_job, refused, searching, start, begin_run, finish_run, run,
}

pub find_job-save_job :
    (jobs : MemoryStore) (job : ParserJob) (id : String)
    → find_job (save_job jobs job) id ≡ (if job.id == id then some job else find_job jobs id)
unfolding find_job save_job
find_job-save_job jobs job id = lookup-insert job.id id job jobs

-- The statuses of the contract, and what they say of a job.
pub record IsSound (job : ParserJob) : Type 0 where
  pub status :
      (job.status ≡ status_queued)
      ⊎ (job.status ≡ status_running)
      ⊎ (job.status ≡ status_completed)
      ⊎ (job.status ≡ status_failed)
  pub counted : job.candidates_count ≡ length job.candidates
  pub clean : job.status ≡ status_completed → job.error ≡ ""

-- Every job is filed under its own id, and sound.
pub record IsConsistent (jobs : MemoryStore) : Type 0 where
  pub own_id : (id : String) (job : ParserJob) → find_job jobs id ≡ some job → job.id ≡ id
  pub sound : (id : String) (job : ParserJob) → find_job jobs id ≡ some job → IsSound job

running_ne_completed : status_running ≢ status_completed
running_ne_completed = ground (arith, eq_iff status_running status_completed)

failed_ne_completed : status_failed ≢ status_completed
failed_ne_completed = ground (arith, eq_iff status_failed status_completed)

queued_ne_completed : status_queued ≢ status_completed
queued_ne_completed = ground (arith, eq_iff status_queued status_completed)

pub save_job-IsConsistent :
    (jobs : MemoryStore) (job : ParserJob)
    → IsSound job
    → IsConsistent jobs
    → IsConsistent (save_job jobs job)
save_job-IsConsistent jobs job sound h = record {
  own_id = λ id other e.
      ground (arith, find_job-save_job jobs job id, eq_iff job.id id, h.own_id id other);
  sound = λ id other e. elim (Bool-cases (job.id == id)) [
    | inl same ↦
        let here : job ≡ other = ground (arith, find_job-save_job jobs job id) in
        subst IsSound here sound
    | inr differs ↦ h.sound id other (ground (arith, find_job-save_job jobs job id))
  ];
}

pub running_job-IsSound :
    (job : ParserJob) (now : Time) → IsSound job → IsSound (running_job job now)
unfolding running_job
running_job-IsSound job now h = record {
  status = inr (inl refl);
  counted = h.counted;
  clean = λ e. absurd (running_ne_completed e);
}

pub failed_job-IsSound :
    (job : ParserJob) (now : Time) (result : SearchResult) (e : String)
    → IsSound job
    → IsSound (failed_job job now result e)
unfolding failed_job
failed_job-IsSound job now result e h = record {
  status = inr (inr (inr refl));
  counted = h.counted;
  clean = λ c. absurd (failed_ne_completed c);
}

pub completed_job-IsSound :
    (job : ParserJob) (now : Time) (result : SearchResult) → IsSound (completed_job job now result)
unfolding completed_job
completed_job-IsSound job now result = record {
  status = inr (inr (inl refl));
  counted = refl;
  clean = λ c. refl;
}

pub queued_job-IsSound :
    (digest : String → String) (format : Time → String) (query : SearchQuery) (now : Time)
    → IsSound (queued_job digest format query now)
unfolding queued_job
queued_job-IsSound digest format query now = record {
  status = inl refl;
  counted = refl;
  clean = λ c. absurd (queued_ne_completed c);
}

-- The job that a run leaves behind.
abbrev pub final_job : ParserJob → Time → SearchResult × Option String → ParserJob
final_job job now (result, some e) = failed_job job now result e
final_job job now (result, none) = completed_job job now result

abbrev pub Runs : Type 0
Runs = (SearchQuery → SearchResult × Option String)

pub begin_run_missing :
    (now : Time) (jobs : MemoryStore) (id : String)
    → find_job jobs id ≡ none
    → begin_run memory_store now jobs id ≡ (jobs, ended (refused "parser job not found"))
unfolding begin_run
begin_run_missing now jobs id e = rw (e, begin_run)

pub begin_run_found :
    (now : Time) (jobs : MemoryStore) (id : String) (job : ParserJob)
    → find_job jobs id ≡ some job
    → begin_run memory_store now jobs id
      ≡ (save_job jobs (running_job job now), searching (running_job job now))
unfolding begin_run
begin_run_found now jobs id job e = rw (e, begin_run)

pub finish_run-memory_store :
    (now : Time) (jobs : MemoryStore) (observed : List ParserJob) (job : ParserJob)
    (outcome : SearchResult × Option String)
    → let final = final_job job now outcome in
      finish_run memory_store now jobs observed job outcome.0 outcome.1 ≡ record {
        store = save_job jobs final;
        observed = observed ++ final ∷ [];
        result = record { job = some final; error = outcome.1 };
      }
unfolding finish_run
finish_run-memory_store now jobs observed job (result, some e) = refl
finish_run-memory_store now jobs observed job (result, none) = refl

pub final_job-id :
    (job : ParserJob) (now : Time) (outcome : SearchResult × Option String)
    → (final_job job now outcome).id ≡ job.id
unfolding failed_job completed_job
final_job-id job now (result, some e) = refl
final_job-id job now (result, none) = refl

pub run-found_lem :
    (search : Runs) (started finished : Time) (jobs : MemoryStore) (observed : List ParserJob)
    (id : String) (job : ParserJob)
    → find_job jobs id ≡ some job
    → let running = running_job job started in
      let final = final_job running finished (search job.query) in
      run memory_store search started finished jobs observed id ≡ record {
        store = save_job (save_job jobs running) final;
        observed = observed ++ final ∷ [];
        result = record { job = some final; error = (search job.query).1 };
      }
unfolding run running_job
run-found_lem search started finished jobs observed id job e =
    let running = running_job job started in
    let outcome = search job.query in
    rw (
      run,
      begin_run_found started jobs id job e,
      begin_run_found started jobs id job e,
      finish_run-memory_store finished (save_job jobs running) observed running outcome,
    )

-- What a search that began with `job` leaves of it: the candidates, counted, where it has no error; the
-- error, and the candidates of before, where it has one.
abbrev pub SaysOutcome : ParserJob → SearchResult × Option String → ParserJob → Type 0
SaysOutcome job (result, none) final =
    (final.status ≡ status_completed)
    × (final.error ≡ "")
    × (final.candidates ≡ result.candidates)
    × (final.candidates_count ≡ length result.candidates)
SaysOutcome job (result, some e) final =
    (final.status ≡ status_failed)
    × (final.error ≡ e)
    × (final.candidates ≡ job.candidates)
    × (final.candidates_count ≡ job.candidates_count)

-- The rest: the same id, query and time of creation, the time of the end, and the statistics.
abbrev pub IsEndOf : ParserJob → Time → SearchResult → ParserJob → Type 0
IsEndOf job finished result final =
    (final.id ≡ job.id)
    × (final.query ≡ job.query)
    × (final.created_at ≡ job.created_at)
    × (final.updated_at ≡ finished)
    × (final.source_stats ≡ result.source_stats)

final_job-SaysOutcome :
    (job : ParserJob) (started finished : Time) (outcome : SearchResult × Option String)
    → let final = final_job (running_job job started) finished outcome in
      SaysOutcome job outcome final × IsEndOf job finished outcome.0 final
unfolding running_job failed_job completed_job
final_job-SaysOutcome job started finished (result, none) =
    ((refl, refl, refl, refl), (refl, refl, refl, refl, refl))
final_job-SaysOutcome job started finished (result, some e) =
    ((refl, refl, refl, refl), (refl, refl, refl, refl, refl))

-- Running a stored job leaves it completed with the candidates of its search, or failed with the
-- error of its search and the candidates it had; in both cases with the statistics of the search, and
-- that is what the metrics observe; no other job changes. The run reports the job, with the error if
-- there is one.
pub run_found :
    (search : Runs) (started finished : Time) (jobs : MemoryStore) (observed : List ParserJob)
    (id : String) (job : ParserJob) (other : String)
    → find_job jobs id ≡ some job
    → let ran = run memory_store search started finished jobs observed id in
      (final : ParserJob) × (SaysOutcome job (search job.query) final
        × IsEndOf job finished (search job.query).0 final)
      × (find_job ran.store other ≡ (if job.id == other then some final else find_job jobs other))
      × (ran.observed ≡ observed ++ final ∷ [])
      × (ran.result ≡ record { job = some final; error = (search job.query).1 })
unfolding running_job
run_found search started finished jobs observed id job other e =
    let running = running_job job started in
    let outcome = search job.query in
    let final = final_job running finished outcome in
    (
      final,
      final_job-SaysOutcome job started finished outcome,
      rw
          (
            run-found_lem search started finished jobs observed id job e,
            find_job-save_job (save_job jobs running) final other,
            find_job-save_job jobs running other,
            final_job-id running finished outcome,
          )
          (ground arith),
      rw (run-found_lem search started finished jobs observed id job e) refl,
      rw (run-found_lem search started finished jobs observed id job e) refl,
    )

-- Running a job whose id is unknown changes nothing, observes nothing, and reports that.
pub run_without_job :
    (search : Runs) (started finished : Time) (jobs : MemoryStore) (observed : List ParserJob)
    (id : String)
    → find_job jobs id ≡ none
    → run memory_store search started finished jobs observed id
      ≡ record { store = jobs; observed = observed; result = refused "parser job not found" }
unfolding run begin_run
run_without_job search started finished jobs observed id e = rw (run, begin_run, e, e)

final_job-IsSound :
    (job : ParserJob) (now : Time) (outcome : SearchResult × Option String)
    → IsSound job
    → IsSound (final_job job now outcome)
final_job-IsSound job now (result, some e) h = failed_job-IsSound job now result e h
final_job-IsSound job now (result, none) h = completed_job-IsSound job now result

-- A run keeps every job under its own id, with a status of the contract, its candidates counted, and
-- no error where it is completed, whatever the search gives.
pub run-IsConsistent :
    (search : Runs) (started finished : Time) (jobs : MemoryStore) (observed : List ParserJob)
    (id : String)
    → IsConsistent jobs
    → IsConsistent (run memory_store search started finished jobs observed id).store
run-IsConsistent search started finished jobs observed id h =
    elim (Option-cases (find_job jobs id)) [
      | inl missing ↦ rw (run_without_job search started finished jobs observed id missing) h
      | inr (job, e) ↦
          let running = running_job job started in
          let sound = running_job-IsSound job started (h.sound id job e) in
          let outcome = search job.query in
          rw (run-found_lem search started finished jobs observed id job e) (
            save_job-IsConsistent (save_job jobs running) (final_job running finished outcome)
              (final_job-IsSound running finished outcome sound)
              (save_job-IsConsistent jobs running sound h))
    ]

-- Starting a job ends in one of three ways: the normalised query is not valid, or the context is done,
-- and that error is returned and nothing changes, or the query is valid and its job is saved as queued
-- and returned.
pub start_lem :
    (digest : String → String) (format : Time → String) (cancelled : Option String) (now : Time)
    (jobs : MemoryStore) (query : SearchQuery)
    → let job = queued_job digest format (normalize query) now in
      let started = start memory_store digest format cancelled now jobs query in
      ((e : String) × (validate (normalize query) ≡ err e) × (started ≡ (jobs, err e)))
      ⊎ ((e : String) × (cancelled ≡ some e) × (started ≡ (jobs, err e)))
      ⊎ ((validate (normalize query) ≡ ok tt) × (started ≡ (save_job jobs job, ok job)))
unfolding start
start_lem digest format cancelled now jobs query =
    elim (Result-cases (validate (normalize query))) [
      | inr (e, invalid) ↦ inl (e, invalid, rw (start, invalid))
      | inl (done, valid) ↦ elim (Option-cases cancelled) [
        | inr (e, is_done) ↦ inr (inl (e, is_done, rw (start, valid, is_done)))
        | inl goes_on ↦ inr (inr (valid, rw (start, valid, goes_on)))
      ]
    ]

-- ===== src/ParserService/Jobs/Interleavings.antt =====
-- services/parser-service/internal/jobs/manager.go: StartAsync, whose goroutines run beside each
-- other. A step is what one of them does under the lock of the store and before the next call.
use articleflow.ParserService.Jobs.Laws.{
  final_job-id, finish_run-memory_store, final_job, begin_run_found, begin_run_missing, start_lem,
  find_job-save_job,
}
use articleflow.Prelude.{
  eq_refl, ◌∙◌, sym, Option-cases, inr, subst, inl, Bool-cases, if◌then◌else◌, eq_iff, ◌++◌, [],
  ◌∷◌, none, arith, refl, ◌||◌, ◌==◌, Bool, false, true, ◌≡◌, some, Option, String, List,
}
use articleflow.Go.Map.{lookup}
use articleflow.Go.Time.{Time}
use articleflow.Go.Result.{Result, ok}
use articleflow.Contracts.Parser.{
  normalize, SearchQuery, ParserJob, SearchResult, status_completed, status_failed,
}
use articleflow.ParserService.Jobs.{
  completed_job, failed_job, lookup, queued_job, running_job, Ran, save_job, MemoryStore, find_job,
  memory_store, searching, start, begin_run, finish_run,
}

-- The goroutines that have not looked up their job yet, by its id, and those that search, each with
-- its copy of the job.
pub record System : Type 0 where
  pub store : MemoryStore
  pub waiting : List String
  pub searched : List ParserJob
  pub observed : List ParserJob

-- A goroutine leaves the list at the end of its run, as the source has it; one whose search does not
-- return stays in `searched` and makes no step.
pub data Step : System → System → Type 0 where
  starts :
      (digest : String → String) (format : Time → String) (cancelled : Option String) (now : Time)
      (query : SearchQuery) (s : System) (store : MemoryStore) (job : ParserJob)
      → start memory_store digest format cancelled now s.store query ≡ (store, ok job)
      → Step s (record s { store = store; waiting = job.id ∷ s.waiting })
  begins :
      (now : Time) (store store' : MemoryStore) (before after : List String) (id : String)
      (searched observed : List ParserJob) (job : ParserJob)
      → begin_run memory_store now store id ≡ (store', searching job)
      → Step
          (record {
            store = store;
            waiting = before ++ id ∷ after;
            searched = searched;
            observed = observed;
          })
          (record {
            store = store';
            waiting = before ++ after;
            searched = job ∷ searched;
            observed = observed;
          })
  finishes :
      (now : Time) (store : MemoryStore) (waiting : List String) (before after : List ParserJob)
      (job : ParserJob) (observed : List ParserJob) (outcome : SearchResult × Option String)
      (ran : Ran MemoryStore)
      → finish_run memory_store now store observed job outcome.0 outcome.1 ≡ ran
      → Step
          (record {
            store = store;
            waiting = waiting;
            searched = before ++ job ∷ after;
            observed = observed;
          })
          (record {
            store = ran.store;
            waiting = waiting;
            searched = before ++ after;
            observed = ran.observed;
          })

abbrev pub idle : System
idle = record { store = []; waiting = []; searched = []; observed = [] }

-- The systems that some sequence of steps reaches.
pub data IsReachable : System → Type 0 where
  at_first : IsReachable idle
  after_step : {s s' : System} → IsReachable s → Step s s' → IsReachable s'

unfoldable holds : String → List String → Bool
holds id [] = false
holds id (other ∷ others) = other == id || holds id others

unfoldable holds_job : String → List ParserJob → Bool
holds_job id [] = false
holds_job id (job ∷ jobs) = job.id == id || holds_job id jobs

holds-append :
    (id : String) (before after : List String)
    → holds id (before ++ after) ≡ (holds id before || holds id after)
unfolding holds
holds-append id [] after = refl
holds-append id (other ∷ others) after = ground (arith, holds-append id others after)

holds_job-append :
    (id : String) (before after : List ParserJob)
    → holds_job id (before ++ after) ≡ (holds_job id before || holds_job id after)
unfolding holds_job
holds_job-append id [] after = refl
holds_job-append id (job ∷ jobs) after = ground (arith, holds_job-append id jobs after)

unfoldable pub is_over : ParserJob → Bool
is_over job = job.status == status_completed || job.status == status_failed

-- A goroutine has the job of this id ahead of it or in hand.
unfoldable pending : String → System → Bool
pending id s = holds id s.waiting || holds_job id s.searched

unfoldable is_stored : String → MemoryStore → Bool
is_stored id jobs = elim (find_job jobs id) [ none ↦ false | some job ↦ true ]

-- A job that is not over is that of some goroutine, and every goroutine has a stored job.
record IsTracked (s : System) : Type 0 where
  own_id : (id : String) (job : ParserJob) → find_job s.store id ≡ some job → job.id ≡ id
  tracked :
      (id : String) (job : ParserJob)
      → find_job s.store id ≡ some job
      → (is_over job || pending id s) ≡ true
  known : (id : String) → pending id s ≡ true → is_stored id s.store ≡ true

saves-IsTracked :
    (s s' : System) (job : ParserJob)
    → s'.store ≡ save_job s.store job
    → ((id : String) → (job.id == id || pending id s) ≡ (job.id == id || pending id s'))
    → (is_over job || pending job.id s') ≡ true
    → IsTracked s
    → IsTracked s'
unfolding is_stored
saves-IsTracked s s' job stored same covered h =
    let saved : (id : String)
        → find_job s'.store id ≡ (if job.id == id then some job else find_job s.store id) =
      λ id. rw stored (find_job-save_job s.store job id) in
    record {
      own_id = λ id other e. ground (arith, saved id, eq_iff job.id id, h.own_id id other);
      tracked = λ id other e. elim (Bool-cases (job.id == id)) [
        | inl here ↦
            let is_here : job.id ≡ id = (eq_iff job.id id).0 here in
            let is_job : job ≡ other = ground (arith, saved id) in
            let covered_id : (is_over job || pending id s') ≡ true =
              subst (λ i. (is_over job || pending i s') ≡ true) is_here covered in
            subst (λ j. (is_over j || pending id s') ≡ true) is_job covered_id
        | inr elsewhere ↦ ground (arith, saved id, same id, h.tracked id other)
      ];
      known = λ id e.
          let stored_id : is_stored id s'.store ≡ (job.id == id || is_stored id s.store) =
            ground (arith, saved id) in
          ground (arith, stored_id, same id, h.known id, Bool-cases (job.id == id));
    }

start_saves :
    (digest : String → String) (format : Time → String) (cancelled : Option String) (now : Time)
    (query : SearchQuery) (jobs store : MemoryStore) (job : ParserJob)
    → start memory_store digest format cancelled now jobs query ≡ (store, ok job)
    → store ≡ save_job jobs job
start_saves digest format cancelled now query jobs store job e =
    elim (start_lem digest format cancelled now jobs query) [
      | inl (message, invalid, refusal) ↦ cc
      | inr (inl (message, is_done, refusal)) ↦ cc
      | inr (inr (valid, queued)) ↦
          let both : ◌≡◌ {A = MemoryStore × Result ParserJob} (store, ok job)
              (
                save_job jobs (queued_job digest format (normalize query) now),
                ok (queued_job digest format (normalize query) now),
              ) =
            sym e ∙ queued in
          let job_same : job ≡ queued_job digest format (normalize query) now = cc in
          let store_same : store ≡ save_job jobs (queued_job digest format (normalize query) now) =
            cc in
          cc
    ]

begin_saves :
    (now : Time) (jobs store : MemoryStore) (id : String) (job : ParserJob)
    → begin_run memory_store now jobs id ≡ (store, searching job)
    → (found : ParserJob) × (find_job jobs id ≡ some found)
      × (job ≡ running_job found now)
      × (store ≡ save_job jobs job)
begin_saves now jobs store id job e = elim (Option-cases (find_job jobs id)) [
  | inl missing ↦ let gone = begin_run_missing now jobs id missing in cc
  | inr (found, here) ↦
      let begun = begin_run_found now jobs id found here in
      let job_same : job ≡ running_job found now = cc in
      let store_same : store ≡ save_job jobs (running_job found now) = cc in
      (found, here, job_same, cc)
]

final_job-is_over :
    (job : ParserJob) (now : Time) (outcome : SearchResult × Option String)
    → is_over (final_job job now outcome) ≡ true
unfolding is_over failed_job completed_job
final_job-is_over job now (result, some e) = ground (arith, eq_refl status_failed)
final_job-is_over job now (result, none) = ground (arith, eq_refl status_completed)

finish_saves :
    (now : Time) (jobs : MemoryStore) (observed : List ParserJob) (job : ParserJob)
    (outcome : SearchResult × Option String) (ran : Ran MemoryStore)
    → finish_run memory_store now jobs observed job outcome.0 outcome.1 ≡ ran
    → ran.store ≡ save_job jobs (final_job job now outcome)
finish_saves now jobs observed job outcome ran e =
    let finished = finish_run-memory_store now jobs observed job outcome in
    let store_same : (finish_run memory_store now jobs observed job outcome.0 outcome.1).store
        ≡ save_job jobs (final_job job now outcome) =
      rw finished in
    rw (sym e) store_same

Step-IsTracked : {s s' : System} → Step s s' → IsTracked s → IsTracked s'
unfolding pending holds holds_job running_job
Step-IsTracked {s} {s'} (starts digest format cancelled now query s0 store job e) h =
    saves-IsTracked s s' job (start_saves digest format cancelled now query s.store store job e)
      (λ id. ground arith) (ground (arith, eq_refl job.id)) h
Step-IsTracked {s} {s'} (begins now store store' before after id searched observed job e) h =
    let (found, here, is_running, saved) = begin_saves now store store' id job e in
    let same_id : job.id ≡ id = rw is_running (h.own_id id found here) in
    saves-IsTracked s s' job saved
      (λ other.
        rw same_id
          (ground (arith, holds-append other before (id ∷ after), holds-append other before after)))
      (ground (arith, eq_refl job.id)) h
Step-IsTracked {s} {s'} (finishes now store waiting before after job observed outcome ran e) h =
    let final = final_job job now outcome in
    saves-IsTracked s s' final (finish_saves now store observed job outcome ran e)
      (λ other. rw (final_job-id job now outcome) (
        ground (
          arith,
          holds_job-append other before (job ∷ after),
          holds_job-append other before after,
        )))
      (ground (arith, final_job-is_over job now outcome)) h

reachable-IsTracked : {s : System} → IsReachable s → IsTracked s
unfolding find_job lookup is_stored pending holds holds_job
reachable-IsTracked at_first = record {
  own_id = λ id job e. cc;
  tracked = λ id job e. cc;
  known = λ id e. cc;
}
reachable-IsTracked (after_step past step) = Step-IsTracked step (reachable-IsTracked past)

-- However the goroutines of StartAsync interleave, whenever none is left every job of the store is
-- completed or failed: no job is stuck as queued or running.
pub idle_is_over :
    (s : System) (id : String) (job : ParserJob)
    → IsReachable s
    → s.waiting ≡ []
    → s.searched ≡ []
    → find_job s.store id ≡ some job
    → is_over job ≡ true
unfolding pending holds holds_job
idle_is_over s id job reachable none_waits none_searches e =
    let nothing_pending : pending id s ≡ false = rw (none_waits, none_searches) refl in
    ground (arith, (reachable-IsTracked reachable).tracked id job e)

-- However the goroutines interleave, the one that runs next finds its job: Run never reports that a
-- job of StartAsync is not found.
pub waiting_is_found :
    (s : System) (now : Time) (before after : List String) (id : String)
    → IsReachable s
    → s.waiting ≡ before ++ id ∷ after
    → (job : ParserJob) × (job.id ≡ id)
      × (begin_run memory_store now s.store id ≡ (save_job s.store job, searching job))
unfolding pending holds holds_job is_stored running_job
waiting_is_found s now before after id reachable waits =
    let tracked = reachable-IsTracked reachable in
    let is_pending : pending id s ≡ true =
      ground (arith, holds-append id before (id ∷ after), eq_refl id) in
    elim (Option-cases (find_job s.store id)) [
      | inl missing ↦ let stored = tracked.known id is_pending in cc
      | inr (found, here) ↦ (
        running_job found now,
        tracked.own_id id found here,
        begin_run_found now s.store id found here,
      )
    ]

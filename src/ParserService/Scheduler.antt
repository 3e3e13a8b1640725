-- ===== src/ParserService/Scheduler.antt =====
-- services/parser-service/internal/scheduler/scheduler.go: one pass over the configured queries. The
-- job manager is an argument, with its state; Run's ticker only repeats the pass.
use articleflow.Prelude.{
  zero, not, suc, ℕ, keep_if_neg, refl, inl, inr, map, keep_if, false, ◌≡◌, true, if◌then◌else◌, [],
  ◌∷◌, String, Bool, List, Option, none, some,
}
use articleflow.Prelude.Int.{ℤ, pos}
use articleflow.Go.Text.{trim_space, is_empty}
use articleflow.Go.Result.{Result-cases, Result, ok, err}
use articleflow.Contracts.Parser.{SearchQuery, ParserJob, normalize, validate}
use articleflow.Dedup.{dedup}

pub record Query : Type 0 where
  pub text : String
  pub sources : List String
  pub limit : ℤ

pub record Config : Type 0 where
  pub enabled : Bool
  pub queries : List Query

unfoldable pub clean_sources : List String → List String
unfolding dedup
clean_sources values = dedup trim_space (λ source. source) is_empty values

-- The query that a configured one stands for.
unfoldable pub search_query : Query → SearchQuery
unfolding clean_sources
search_query configured = normalize (record {
  text = trim_space configured.text;
  sources = clean_sources configured.sources;
  tags = [];
  limit = configured.limit;
  offset = pos 0;
  language = "";
  from_date = none;
  to_date = none;
})

module _ {S : Type 0} (start_async : S → SearchQuery → S × Result ParserJob) where
  -- The loop of RunOnce.
  unfoldable pub start_all : S → List Query → S × Option String
  unfolding search_query
  start_all s [] = (s, none)
  start_all s (configured ∷ queries) =
      let query = search_query configured in
      let (s', started) = start_async s query in
      let skipped = start_all s queries in
      let rest = start_all s' queries in
      elim (validate query) [
        | err e ↦ skipped
        | ok _ ↦ elim started [ err e ↦ (s', some e) | ok job ↦ rest ]
      ]

  -- Without a job starter nothing happens, as when the scheduler is not enabled.
  unfoldable pub run_once : Config → S → S × Option String
  unfolding start_all
  run_once config s = if config.enabled then start_all s config.queries else (s, none)

  -- The loop of Run: a pass at each tick until one fails, and then the error of the context.
  unfoldable pub run_ticks : Config → String → S → ℕ → S × Option String
  unfolding run_once
  run_ticks config cancelled s zero = (s, some cancelled)
  run_ticks config cancelled s (suc ticks) =
      let (s', failure) = run_once config s in
      let rest = run_ticks config cancelled s' ticks in
      elim failure [ some e ↦ (s', some e) | none ↦ rest ]

  -- Run, with `ticks` ticks of the timer before the context is done.
  unfoldable pub run : Config → String → S → ℕ → S × Option String
  unfolding run_ticks
  run config cancelled s ticks =
      let (s', failure) = run_once config s in
      let rest = run_ticks config cancelled s' ticks in
      if not config.enabled then (s, none) else elim failure [ some e ↦ (s', some e) | none ↦ rest ]

abbrev pub is_valid : SearchQuery → Bool
is_valid query = elim (validate query) [ ok _ ↦ true | err e ↦ false ]

module _ {S : Type 0} (start_async : S → SearchQuery → S × Result ParserJob) where
  -- The reference: the queries in their order, up to the first that cannot be started.
  unfoldable pub start_each : S → List SearchQuery → S × Option String
  start_each s [] = (s, none)
  start_each s (query ∷ queries) =
      let (s', started) = start_async s query in
      let rest = start_each s' queries in elim started [ err e ↦ (s', some e) | ok job ↦ rest ]

  start_all-start_each :
      (s : S) (queries : List Query)
      → start_all start_async s queries ≡ start_each s (keep_if is_valid (map search_query queries))
  unfolding start_all start_each
  start_all-start_each s [] = refl
  start_all-start_each s (configured ∷ queries) =
      let query = search_query configured in
      let others = map search_query queries in
      elim (Result-cases (validate query)) [
        | inr (e, invalid) ↦
            let is_left_out : is_valid query ≡ false = rw (is_valid, invalid) refl in
            let kept = keep_if_neg is_valid query others is_left_out in
            rw kept (rw (start_all, invalid) (start_all-start_each s queries))
        | inl (done, valid) ↦ elim (Result-cases (start_async s query).1) [
          | inr (e, failed) ↦ rw (start_all, valid, failed, start_each) refl
          | inl (job, started) ↦
              rw (start_all, valid, started, start_each)
                (start_all-start_each (start_async s query).0 queries)
        ]
      ]

  -- A pass of an enabled scheduler starts the valid ones of its normalised queries, in their order, up
  -- to the first that cannot be started, whose error it returns.
  pub run_once-start_each :
      (config : Config) (s : S)
      → config.enabled ≡ true
      → run_once start_async config s
        ≡ start_each s (keep_if is_valid (map search_query config.queries))
  unfolding run_once
  run_once-start_each config s on = rw (on) (start_all-start_each s config.queries)

-- ===== src/ParserService/Search.antt =====
-- services/parser-service/internal/search/search.go: SearchAndPublish. The producer is the argument
-- `publish`, which gives the error of an event if there is one; the marshalling of the event is part
-- of it. `clock` is what each call of time.Now() gives, by its number.
pub mod Candidates
pub mod Sources
pub mod Gathering
pub mod Selection
pub mod Stats
pub mod Counts
pub mod Quality
pub mod Keys
pub mod Fresh
pub mod Distinct
mod Tests
use articleflow.Prelude.{
  eqb, ◌||◌, ◌&&◌, if◌then◌else◌, true, false, [], ◌∷◌, String, Bool, List, not, ◌++◌, length, ◌+◌,
  map, ℕ, Option, none, some, suc,
}
use Prim.Native.Char.{Char}
use articleflow.Prelude.Int.{ℤ, pos, pos_part, leb_ℤ}
use articleflow.Go.Time.{Time}
use articleflow.Go.Result.{Result, ok, err}
use articleflow.Go.Text.{cat}
use articleflow.Go.Map.{Map, Set, lookup, lookup_or, insert}
use articleflow.RoundRobin.{rounds_limited}
use articleflow.Contracts.Parser.{
  ArticleCandidate, SearchQuery, SearchResult, SourceStats, normalize, validate,
}
use articleflow.Contracts.Events.{ArticleDiscoveredEvent, ParserJobFailedEvent, validate_discovered}
use articleflow.ParserService.Search.Candidates.{UrlPackage}
use articleflow.ParserService.Search.Sources.{
  Parser, Usecase, ScoredCandidate, SourceCandidateBucket, Pass, pass_over, accepted, failed_stats,
  found_stats, selected_sources,
}

pub data Event : Type 0 where
  discovered : ArticleDiscoveredEvent → Event
  job_failed : ParserJobFailedEvent → Event

-- The events that the producer has taken are `sent`.
unfoldable pub publish_event :
    (Event → Option String) → List Event → Event → List Event × Option String
publish_event publish sent event = elim (publish event) [
  | none ↦ (sent ++ event ∷ [], none)
  | some e ↦ (sent, some e)
]

unfoldable pub discovered_event : Time → ArticleCandidate → ArticleDiscoveredEvent
discovered_event now candidate = record {
  source_name = candidate.source_name;
  external_id = candidate.external_id;
  url = candidate.url;
  title = candidate.title;
  summary = candidate.summary;
  content = candidate.content;
  author = candidate.author;
  tags = candidate.tags;
  language = candidate.language;
  published_at = candidate.published_at;
  discovered_at = now;
}

unfoldable pub publish_candidate :
    (Event → Option String) → Time → List Event → ArticleCandidate → List Event × Option String
unfolding publish_event discovered_event
publish_candidate publish now sent candidate =
    let event = discovered_event now candidate in
    elim (validate_discovered event) [
      | err e ↦ (sent, some e)
      | ok _ ↦ publish_event publish sent (discovered event)
    ]

unfoldable pub failure_event : Time → String → SearchQuery → String → ParserJobFailedEvent
failure_event now source query cause = record {
  job_id = cat source (cat ":" query.text);
  source_name = source;
  query = query.text;
  error = cause;
  failed_at = now;
}

-- The loop that publishes the candidates, which stops at the first error.
unfoldable pub publish_all :
    (Event → Option String)
    → (ℕ → Time)
    → ℕ
    → List Event
    → List ArticleCandidate
    → List Event × Option String
unfolding publish_candidate
publish_all publish clock tick sent [] = (sent, none)
publish_all publish clock tick sent (candidate ∷ candidates) =
    let (sent', failure) = publish_candidate publish (clock tick) sent candidate in
    let rest = publish_all publish clock (suc tick) sent' candidates in
    elim failure [ none ↦ rest | some e ↦ (sent', some e) ]

unfoldable pub count_candidates : Map ℕ → List ArticleCandidate → Map ℕ
count_candidates counts [] = counts
count_candidates counts (candidate ∷ candidates) =
    let source = candidate.source_name in
    count_candidates (insert source (suc (lookup_or 0 source counts)) counts) candidates

unfoldable pub count_candidates_by_source : List ArticleCandidate → Map ℕ
unfolding count_candidates
count_candidates_by_source candidates = count_candidates [] candidates

unfoldable pub set_returned : Map ℕ → List SourceStats → List SourceStats
set_returned counts stats =
    map {A = SourceStats} (λ s. record s { returned_count = lookup_or 0 s.source_name counts })
      stats

unfoldable pub set_published : Map ℕ → List SourceStats → List SourceStats
set_published counts stats =
    map {A = SourceStats} (λ s. record s { published_count = lookup_or 0 s.source_name counts })
      stats

abbrev pub candidates_of : SourceCandidateBucket → List ArticleCandidate
candidates_of bucket = map (λ scored. scored.candidate) bucket.scored_candidates

-- One round more than there are candidates is more than the loop makes.
abbrev pub round_fuel : List (List ArticleCandidate) → ℕ
round_fuel [] = 1
round_fuel (bucket ∷ buckets) = length bucket + round_fuel buckets

unfoldable pub interleave_candidate_buckets : List SourceCandidateBucket → ℤ → List ArticleCandidate
unfolding rounds_limited
interleave_candidate_buckets [] limit = []
interleave_candidate_buckets (bucket ∷ buckets) limit =
    let lists = map candidates_of (bucket ∷ buckets) in
    if leb_ℤ limit (pos 0)
    then []
    else rounds_limited (round_fuel lists) (pos_part limit) 0 lists []

-- The state of the loop over the sources.
pub record Gathered : Type 0 where
  pub buckets : List SourceCandidateBucket
  pub stats : List SourceStats
  pub seen_candidates : Set
  pub last_error : Option String
  pub sent : List Event
  pub tick : ℕ

pub record Searched : Type 0 where
  pub result : SearchResult
  pub error : Option String
  pub sent : List Event

abbrev pub nothing_gathered : Gathered
nothing_gathered = record {
  buckets = [];
  stats = [];
  seen_candidates = [];
  last_error = none;
  sent = [];
  tick = 0;
}

-- The end of SearchAndPublish, once the candidates are published or one was refused.
unfoldable pub published : Map ℕ → SearchResult → List Event × Option String → Searched
unfolding set_published
published counts result (sent, some e) = record { result = result; error = some e; sent = sent }
published counts result (sent, none) = record {
  result = record result { source_stats = set_published counts result.source_stats };
  error = none;
  sent = sent;
}

-- Without candidates, the last error of a source is returned and nothing more is published.
unfoldable pub conclude :
    List ArticleCandidate → Option String → List Event → SearchResult → Searched → Searched
conclude [] (some e) sent result sends = record { result = result; error = some e; sent = sent }
conclude [] none sent result sends = sends
conclude (candidate ∷ candidates) last_error sent result sends = sends

-- `elapsed` is how long each source takes, in milliseconds.
module _ (urls : UrlPackage) (digest : String → String) (is_word : Char → Bool)
    (publish : Event → Option String) (clock : ℕ → Time) (elapsed : ℕ → ℕ) where
  -- The loop's body for a source whose search failed.
  unfoldable pub gather_failure : SearchQuery → Gathered → String → Parser → String → Gathered
  unfolding publish_event failure_event failed_stats
  gather_failure query s source parser message =
      let event = job_failed (failure_event (clock s.tick) source query message) in
      record s {
        stats = s.stats ++ failed_stats source parser (elapsed (length s.stats)) message ∷ [];
        last_error = some message;
        sent = (publish_event publish s.sent event).0;
        tick = suc s.tick;
      }

  -- The loop's body for a source that gave candidates.
  unfoldable pub gather_found :
      SearchQuery → Gathered → String → Parser → List ArticleCandidate → Gathered
  unfolding pass_over accepted found_stats
  gather_found query s source parser candidates =
      let pass =
        pass_over urls digest is_word query source
          (record { seen = s.seen_candidates; filtered = 0; scored = []; zero_score = [] })
          candidates in
      let bucket : SourceCandidateBucket = record {
        source = source;
        scored_candidates = accepted pass;
      } in
      record s {
        buckets =
            if eqb (length bucket.scored_candidates) 0 then s.buckets else s.buckets ++ bucket ∷ [];
        stats =
            s.stats
            ++ found_stats source parser (elapsed (length s.stats)) (length candidates) pass ∷ [];
        seen_candidates = pass.seen;
      }

  -- A source without a parser, for which Go would panic, is left out: selected_sources gives none.
  unfoldable pub gather_source : Usecase → SearchQuery → Gathered → String → Gathered
  unfolding gather_failure gather_found
  gather_source usecase query s source = elim (lookup source usecase.parsers) [
    | none ↦ s
    | some parser ↦ elim (parser.search query) [
      | err message ↦ gather_failure query s source parser message
      | ok candidates ↦ gather_found query s source parser candidates
    ]
  ]

  unfoldable pub gather_all : Usecase → SearchQuery → Gathered → List String → Gathered
  unfolding gather_source
  gather_all usecase query s [] = s
  gather_all usecase query s (source ∷ sources) =
      gather_all usecase query (gather_source usecase query s source) sources

  -- SearchAndPublish after the loop over the sources.
  unfoldable pub publish_gathered : SearchQuery → Gathered → Searched
  unfolding interleave_candidate_buckets count_candidates_by_source set_returned set_published
      publish_all published conclude
  publish_gathered query s =
      let candidates = interleave_candidate_buckets s.buckets query.limit in
      let counts = count_candidates_by_source candidates in
      let returned = set_returned counts s.stats in
      let result : SearchResult = record { candidates = candidates; source_stats = returned } in
      let sends = published counts result (publish_all publish clock s.tick s.sent candidates) in
      conclude candidates s.last_error s.sent result sends

  unfoldable pub search_and_publish : Usecase → SearchQuery → Searched
  unfolding gather_all selected_sources publish_gathered
  search_and_publish usecase query = elim (validate (normalize query)) [
    | err e ↦ record {
      result = record { candidates = []; source_stats = [] };
      error = some e;
      sent = [];
    }
    | ok _ ↦ publish_gathered (normalize query) (
        gather_all usecase (normalize query) nothing_gathered
          (selected_sources usecase (normalize query)))
  ]

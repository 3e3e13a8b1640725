-- ===== src/ParserService/Search/Sources.antt =====
-- services/parser-service/internal/search/search.go: the search of one source. What the parser of a
-- source finds is an argument, and so is the time that it took.
use articleflow.Prelude.{
  keep_if, ◌||◌, if◌then◌else◌, true, false, [], ◌∷◌, String, Bool, List, not, ◌++◌, length, ◌+◌,
  ltb, eqb, ℕ, Option, none, some, suc,
}
use Prim.Native.Char.{Char}
use articleflow.Go.Time.{after}
use articleflow.Go.Result.{Result}
use articleflow.Go.Text.{trim_space, is_empty}
use articleflow.Go.Map.{insert, Map, Set, lookup}
use articleflow.Go.Sort.{sort_stable}
use articleflow.Contracts.Parser.{
  ArticleCandidate, SearchQuery, SourceStats, source_ok, source_empty, source_failed,
}
use articleflow.ParserService.Search.Candidates.{
  UrlPackage, normalize_candidate, candidate_within_date_range, candidate_dedup_keys,
  has_seen_candidate, mark_seen_candidate, candidate_relevance_score,
}

-- A parser that reports no strategy has none here.
pub record Parser : Type 0 where
  pub source_name : String
  pub strategy : Option String
  pub search : SearchQuery → Result (List ArticleCandidate)

unfoldable pub source_strategy : Parser → String
source_strategy parser = elim parser.strategy [
  | none ↦ "unknown"
  | some strategy ↦ if is_empty (trim_space strategy) then "unknown" else trim_space strategy
]

-- The parsers by source, the sources in their order, and which sources are enabled.
pub record Usecase : Type 0 where
  pub parsers : Map Parser
  pub source_order : List String
  pub source_enabled : String → Bool

unfoldable pub add_parsers : Usecase → List Parser → Usecase
add_parsers usecase [] = usecase
add_parsers usecase (parser ∷ parsers) =
    let source = trim_space parser.source_name in
    add_parsers
      (if is_empty source then usecase else record usecase {
        parsers = insert source parser usecase.parsers;
        source_order = usecase.source_order ++ source ∷ [];
      })
      parsers

unfoldable pub new_usecase : List Parser → (String → Bool) → Usecase
unfolding add_parsers
new_usecase parsers enabled =
    add_parsers (record { parsers = []; source_order = []; source_enabled = enabled }) parsers

abbrev pub has_parser : Usecase → String → Bool
has_parser usecase source = elim (lookup source usecase.parsers) [
  | none ↦ false
  | some parser ↦ true
]

unfoldable pub keep_named : Usecase → List String → List String
keep_named usecase [] = []
keep_named usecase (raw ∷ raws) =
    let source = trim_space raw in
    let rest = keep_named usecase raws in
    if is_empty source || not (has_parser usecase source) || not (usecase.source_enabled source)
    then rest
    else source ∷ rest

unfoldable pub selected_sources : Usecase → SearchQuery → List String
unfolding keep_named
selected_sources usecase query = elim query.sources [
  | [] ↦ keep_if usecase.source_enabled usecase.source_order
  | source ∷ sources ↦ keep_named usecase (source ∷ sources)
]

pub record ScoredCandidate : Type 0 where
  pub candidate : ArticleCandidate
  pub score : ℕ

pub record SourceCandidateBucket : Type 0 where
  pub source : String
  pub scored_candidates : List ScoredCandidate

abbrev pub ranks_before : ScoredCandidate → ScoredCandidate → Bool
ranks_before left right =
    if eqb left.score right.score
    then after left.candidate.published_at right.candidate.published_at
    else ltb right.score left.score

unfoldable pub sort_scored_candidates : List ScoredCandidate → List ScoredCandidate
sort_scored_candidates scored = sort_stable ranks_before scored

-- The state of the loop over the candidates of a source.
pub record Pass : Type 0 where
  pub seen : Set
  pub filtered : ℕ
  pub scored : List ScoredCandidate
  pub zero_score : List ScoredCandidate

module _ (urls : UrlPackage) (digest : String → String) (is_word : Char → Bool)
    (query : SearchQuery) where
  -- The loop's body, once the candidate is normalised.
  unfoldable pub place_candidate : Pass → ArticleCandidate → Pass
  place_candidate pass candidate =
      let filtered : Pass = record pass { filtered = suc pass.filtered } in
      let keys = candidate_dedup_keys is_word candidate in
      let marked : Pass = record pass { seen = mark_seen_candidate pass.seen keys } in
      let score = candidate_relevance_score is_word candidate query.text in
      let item = record { candidate = candidate; score = score } ∷ [] in
      if is_empty candidate.url || is_empty candidate.title
      then filtered
      else if not (candidate_within_date_range candidate query)
      then filtered
      else if has_seen_candidate pass.seen keys
      then filtered
      else if eqb score 0
      then record marked { zero_score = marked.zero_score ++ item }
      else record marked { scored = marked.scored ++ item }

  unfoldable pub pass_over : String → Pass → List ArticleCandidate → Pass
  unfolding place_candidate
  pass_over source pass [] = pass
  pass_over source pass (candidate ∷ candidates) =
      pass_over source
        (place_candidate pass (normalize_candidate urls digest candidate source query)) candidates

-- The candidates of zero score count only where there are no others.
unfoldable pub accepted : Pass → List ScoredCandidate
unfolding sort_scored_candidates
accepted pass =
    sort_scored_candidates (elim pass.scored [ [] ↦ pass.zero_score | item ∷ items ↦ item ∷ items ])

unfoldable pub all_filtered : Pass → ℕ
all_filtered pass = elim pass.scored [
  | [] ↦ pass.filtered
  | item ∷ items ↦ pass.filtered + length pass.zero_score
]

abbrev stats_of : String → Parser → ℕ → SourceStats
stats_of source parser elapsed = record {
  source_name = source;
  strategy = source_strategy parser;
  status = source_ok;
  found_count = 0;
  accepted_count = 0;
  returned_count = 0;
  published_count = 0;
  filtered_count = 0;
  error = "";
  duration_ms = elapsed;
}

unfoldable pub failed_stats : String → Parser → ℕ → String → SourceStats
unfolding source_strategy
failed_stats source parser elapsed message = record (stats_of source parser elapsed) {
  status = source_failed;
  error = message;
}

-- The statistics of a source that found `found` candidates.
unfoldable pub found_stats : String → Parser → ℕ → ℕ → Pass → SourceStats
unfolding source_strategy accepted
found_stats source parser elapsed found pass =
    let count = length (accepted pass) in
    record (stats_of source parser elapsed) {
      status = if eqb found 0 || eqb count 0 then source_empty else source_ok;
      found_count = found;
      accepted_count = count;
      filtered_count = all_filtered pass;
    }

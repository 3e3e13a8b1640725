-- ===== src/ParserService/Search/Tests.antt =====
-- Runs of SearchAndPublish, and its theorems at concrete inputs.
use articleflow.ParserService.Search.Selection.{IsSearchable, selected_sources-IsSearchable}
use articleflow.ParserService.Search.Fresh.{apart}
use articleflow.ParserService.Search.Distinct.{search_and_publish-apart}
use articleflow.Prelude.{
  all_pairs, ◌+◌, ℕ, ◌≡◌, refl, min, [], ◌∷◌, some, none, String, Option, length, map, All, Bool,
  true,
}
use Prim.Native.Char.{Char}
use articleflow.Prelude.Int.{pos, pos_part}
use articleflow.Go.Text.{trim_space, cat, fields_func, to_lower, rune_count, contains, join}
use articleflow.Go.Map.{lookup, insert, member}
use articleflow.Go.Sort.{sort_stable}
use articleflow.Contracts.Query.{at_least_one, clamp_limit, clamp_offset}
use articleflow.Contracts.Events.{validate_discovered}
use articleflow.Dedup.{dedup}
use articleflow.ParserService.Search.Candidates.{
  mark_seen_candidate, normalize_candidate, candidate_within_date_range, has_seen_candidate,
  candidate_dedup_keys, candidate_relevance_score,
}
use articleflow.Contracts.Parser.{validate}
use articleflow.RoundRobin.{pick_limited}
use articleflow.Go.Time.{Time}
use articleflow.Go.Result.{ok, err}
use articleflow.Contracts.Parser.{ArticleCandidate, SearchQuery, SourceStats, normalize}
use articleflow.ParserService.Search.Candidates.{UrlPackage}
use articleflow.ParserService.Search.Sources.{Parser, Usecase, new_usecase, selected_sources}
use articleflow.ParserService.Search.{Event, Searched, search_and_publish}
use articleflow.ParserService.Search.Stats.{IsBalanced, search_and_publish-IsBalanced}
use articleflow.ParserService.Search.Counts.{total_accepted, length-search_and_publish}
use articleflow.ParserService.Search.Quality.{IsAcceptable, search_and_publish-IsAcceptable}

abbrev urls : UrlPackage
urls = record {
  parse = λ raw. err "not parsed";
  print = λ url. url.host;
  values = λ raw. [];
  encode = λ values. "";
}

abbrev digest : String → String
digest text = text

abbrev is_word : Char → Bool
is_word c = true

abbrev publish : Event → Option String
publish event = none

abbrev clock : ℕ → Time
clock tick = 100 + tick

abbrev elapsed : ℕ → ℕ
elapsed index = 3

abbrev candidate : String → String → Time → ArticleCandidate
candidate url title published = record {
  source_name = "";
  external_id = "";
  url = url;
  title = title;
  summary = "";
  content = "";
  author = "";
  tags = [];
  language = "";
  published_at = published;
}

abbrev habr : Parser
habr = record {
  source_name = "habr";
  strategy = some " rss ";
  search = λ query. ok (
      candidate "u1" "go" 5
      ∷ candidate "u2" "" 6
      ∷ candidate "u3" "about go" 7
      ∷ candidate " u1" "go" 8
      ∷ []);
}

abbrev vc : Parser
vc = record { source_name = " vc"; strategy = none; search = λ query. err "timeout" }

abbrev usecase : Usecase
usecase = new_usecase (habr ∷ vc ∷ []) (λ source. true)

abbrev query : SearchQuery
query = record {
  text = " go ";
  sources = [];
  tags = [];
  limit = pos 0;
  offset = pos 0;
  language = "";
  from_date = none;
  to_date = none;
}

abbrev searched : SearchQuery → Searched
searched q = search_and_publish urls digest is_word publish clock elapsed usecase q

urls_test :
    map (λ (c : ArticleCandidate). c.url) (searched query).result.candidates ≡ "u3" ∷ "u1" ∷ []
unfolding search_and_publish validate normalize trim_space new_usecase lookup insert sort_stable
    normalize_candidate candidate_within_date_range has_seen_candidate candidate_dedup_keys member
    cat fields_func to_lower rune_count candidate_relevance_score validate_discovered at_least_one
    clamp_limit clamp_offset contains dedup join mark_seen_candidate pick_limited
urls_test = refl

stats_test :
    map (λ (s : SourceStats). s.found_count) (searched query).result.source_stats ≡ 4 ∷ 0 ∷ []
unfolding search_and_publish validate normalize trim_space new_usecase lookup insert sort_stable
    normalize_candidate candidate_within_date_range has_seen_candidate candidate_dedup_keys member
    cat fields_func to_lower rune_count candidate_relevance_score validate_discovered at_least_one
    clamp_limit clamp_offset contains dedup join mark_seen_candidate pick_limited
stats_test = refl

search_and_publish-IsBalanced_example : All IsBalanced (searched query).result.source_stats
search_and_publish-IsBalanced_example =
    search_and_publish-IsBalanced urls digest is_word publish clock elapsed usecase query

length-search_and_publish_example :
    length (searched query).result.candidates
    ≡ min (pos_part (normalize query).limit) (total_accepted (searched query).result.source_stats)
length-search_and_publish_example =
    length-search_and_publish urls digest is_word publish clock elapsed usecase query

search_and_publish-IsAcceptable_example :
    All (IsAcceptable (normalize query)) (searched query).result.candidates
search_and_publish-IsAcceptable_example =
    search_and_publish-IsAcceptable urls digest is_word publish clock elapsed usecase query

search_and_publish-apart_example :
    all_pairs (apart is_word) (searched query).result.candidates ≡ true
search_and_publish-apart_example =
    search_and_publish-apart urls digest is_word publish clock elapsed usecase query

selected_sources-IsSearchable_example : All (IsSearchable usecase) (selected_sources usecase query)
selected_sources-IsSearchable_example =
    selected_sources-IsSearchable (habr ∷ vc ∷ []) (λ source. true) query

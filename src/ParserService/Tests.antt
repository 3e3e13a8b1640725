-- ===== src/ParserService/Tests.antt =====
-- The theorems on the registry, the scheduler and RSS, at concrete inputs.
use articleflow.Prelude.{◌≡◌, refl, [], ◌∷◌, some, none, String, Option, true, map, keep_if, suc, ℕ}
use articleflow.Prelude.Int.{pos}
use articleflow.Go.Text.{trim_space}
use articleflow.Go.Map.{lookup, insert}
use articleflow.Go.Result.{Result, ok, err}
use articleflow.Contracts.Parser.{ParserSource, ParserJob, SearchQuery}
use articleflow.Contracts.Events.{ArticleDiscoveredEvent}
use articleflow.ParserService.Registry.{RuntimeRegistry, new_runtime_registry, no_source}
use articleflow.ParserService.Scheduler.{
  Config, run_once, search_query, is_valid, start_each, run_once-start_each,
}
use articleflow.ParserService.Rss.{publish_from_rss, IsPublished, publish_from_rss-IsPublished}

abbrev habr : ParserSource
habr = record {
  name = "habr";
  display_name = "Habr";
  kind = "rss";
  enabled = true;
  searchable = true;
  notes = "";
}

abbrev registry : RuntimeRegistry
registry = new_runtime_registry (habr ∷ no_source ∷ [])

habr_is_registered : lookup (trim_space " habr") registry.sources ≡ some habr
unfolding new_runtime_registry trim_space lookup insert
habr_is_registered = refl

abbrev starter : ℕ → SearchQuery → ℕ × Result ParserJob
starter n query = (suc n, err "busy")

abbrev config : Config
config = record {
  enabled = true;
  queries =
      record { text = " "; sources = []; limit = pos 1 }
      ∷ record { text = "go"; sources = "habr" ∷ "habr " ∷ []; limit = pos 0 }
      ∷ [];
}

run_once-start_each_example :
    run_once starter config 0
    ≡ start_each starter 0 (keep_if is_valid (map search_query config.queries))
run_once-start_each_example = run_once-start_each starter config 0 refl

abbrev event : ArticleDiscoveredEvent
event = record {
  source_name = "habr";
  external_id = "1";
  url = "u";
  title = "t";
  summary = "";
  content = "";
  author = "";
  tags = [];
  language = "ru";
  published_at = 1;
  discovered_at = 2;
}

abbrev take_all : ArticleDiscoveredEvent → Option String
take_all taken = none

publish_from_rss-IsPublished_example :
    IsPublished take_all [] (event ∷ []) (publish_from_rss take_all (ok (event ∷ [])))
publish_from_rss-IsPublished_example = publish_from_rss-IsPublished take_all (event ∷ [])

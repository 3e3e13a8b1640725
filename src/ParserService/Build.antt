-- ===== src/ParserService/Build.antt =====
-- services/parser-service/internal/sources/registry.go: the parsers that the settings ask for. The
-- parsers are those that `make` gives for a source, its feed and the searcher of URLs.
use articleflow.Go.Text.{is_empty}
use articleflow.Go.Map.{member, Set}
use articleflow.Prelude.{
  true, ◌++◌, ◌∷◌, not, some, ◌||◌, ◌==◌, none, if◌then◌else◌, [], false, List, Option, String,
}
use articleflow.ParserService.Config.{Settings, RssSource, rss_source_list, disabled_source_set}
use articleflow.ParserService.Search.Sources.{Parser}
use articleflow.Contracts.Parser.{ParserSource}

pub record Registry : Type 0 where
  pub parsers : List Parser
  pub all_parsers : List Parser
  pub sources : List ParserSource

abbrev pub no_registry : Registry
no_registry = record { parsers = []; all_parsers = []; sources = [] }

abbrev pub source_info : String → String → String → ParserSource
source_info name display_name kind = record {
  name = name;
  display_name = display_name;
  kind = kind;
  enabled = false;
  searchable = false;
  notes = "";
}

-- The function `add` of BuildRegistry, whose parser is never nil.
unfoldable pub add_source : Set → Registry → ParserSource → Parser → Registry
add_source disabled registry info parser =
    let enabled = not (member info.name disabled) in
    record {
      parsers = if enabled then registry.parsers ++ parser ∷ [] else registry.parsers;
      all_parsers = registry.all_parsers ++ parser ∷ [];
      sources = registry.sources ++ record info { enabled = enabled; searchable = true } ∷ [];
    }

-- Which searcher of URLs the parser of vc.ru gets.
pub data UrlSearcher : Type 0 where
  discovery : UrlSearcher
  google : String → String → String → UrlSearcher
  bing : String → String → UrlSearcher

unfoldable pub build_vc_url_searcher : Settings → Option UrlSearcher
build_vc_url_searcher cfg =
    let provider = cfg.vc_search_provider in
    if provider == "" || provider == "discovery" || provider == "vc_discovery"
    then some discovery
    else if provider == "google" || provider == "google_cse"
    then if is_empty cfg.google_search_api_key || is_empty cfg.google_search_cx
      then none
      else some (google cfg.google_search_api_key cfg.google_search_cx "vc.ru")
    else if provider == "bing"
    then if is_empty cfg.bing_search_api_key
      then none
      else some (bing cfg.bing_search_api_key "vc.ru")
    else none

module _ (site : String → Option UrlSearcher → Parser) (feed : String → String → Parser) where
  unfoldable pub add_feed : Set → Registry → RssSource → Registry
  unfolding add_source
  add_feed disabled registry source =
      let display_name =
        if is_empty source.display_name then source.name else source.display_name in
      add_source disabled registry (source_info source.name display_name "rss")
        (feed source.name source.url)

  unfoldable pub add_feeds : Set → Registry → List RssSource → Registry
  unfolding add_feed
  add_feeds disabled registry [] = registry
  add_feeds disabled registry (source ∷ sources) =
      add_feeds disabled (add_feed disabled registry source) sources

  unfoldable pub build_registry : Settings → Registry
  unfolding add_source add_feeds build_vc_url_searcher rss_source_list disabled_source_set
  build_registry cfg =
      let disabled = disabled_source_set cfg in
      let habr =
        add_source disabled no_registry (source_info "habr" "Habr" "html_rss") (site "habr" none) in
      let vc =
        add_source disabled habr (source_info "vc" "vc.ru" "html")
          (site "vc" (build_vc_url_searcher cfg)) in
      let dzen =
        add_source disabled vc (source_info "dzen" "Яндекс Дзен" "html") (site "dzen" none) in
      let vc_rss =
        if is_empty cfg.vc_rss_feed_url
        then dzen
        else add_source disabled dzen (source_info "vc_rss" "vc.ru RSS" "rss")
            (feed "vc_rss" cfg.vc_rss_feed_url) in
      add_feeds disabled vc_rss (rss_source_list cfg)

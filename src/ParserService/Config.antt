-- ===== src/ParserService/Config.antt =====
-- services/parser-service/internal/config/config.go: what the texts of the environment stand for.
use articleflow.Go.Map.{insert, Set}
use articleflow.Dedup.{dedup}
use articleflow.Prelude.{
  true, some, none, ◌||◌, ◌==◌, ◌++◌, [], ◌∷◌, if◌then◌else◌, List, Bool, String,
}
use articleflow.Prelude.Int.{leb_ℤ, ℤ, pos}
use articleflow.Go.Text.{trim_space, to_lower, is_empty}
use articleflow.Go.Text.Split.{split, cut}
use articleflow.ParserService.Scheduler
use articleflow.ParserService.Scheduler.{Query}

-- The fields that decide something; Load reads them from the environment.
pub record Settings : Type 0 where
  pub kafka_brokers : String
  pub vc_rss_feed_url : String
  pub vc_search_provider : String
  pub google_search_api_key : String
  pub google_search_cx : String
  pub bing_search_api_key : String
  pub dzen_rss_feed_url : String
  pub yandex_rss_feed_url : String
  pub custom_rss_sources : String
  pub disabled_sources : String
  pub scheduler_enabled : Bool
  pub scheduler_queries : String
  pub scheduler_sources : String
  pub scheduler_limit : ℤ
  pub scheduler_interval_ms : ℤ

pub record RssSource : Type 0 where
  pub name : String
  pub display_name : String
  pub url : String

-- The parts that are not blank, trimmed.
unfoldable pub filled_parts : List String → List String
filled_parts [] = []
filled_parts (part ∷ parts) =
    let later = filled_parts parts in
    if is_empty (trim_space part) then later else trim_space part ∷ later

unfoldable pub broker_list : Settings → List String
unfolding filled_parts split
broker_list cfg = filled_parts (split cfg.kafka_brokers ",")

-- The loop of RSSSourceList over the custom sources.
unfoldable pub custom_sources : List String → List RssSource
unfolding cut
custom_sources [] = []
custom_sources (part ∷ parts) =
    let later = custom_sources parts in
    elim (cut part "=") [
      | none ↦ later
      | some (name, url) ↦
          if is_empty (trim_space name) || is_empty (trim_space url)
          then later
          else record {
            name = trim_space name;
            display_name = trim_space name;
            url = trim_space url;
          }
            ∷ later
    ]

abbrev named_feed : String → String → String → List RssSource
named_feed name display_name url =
    if is_empty (trim_space url)
    then []
    else record { name = name; display_name = display_name; url = trim_space url } ∷ []

unfoldable pub rss_source_list : Settings → List RssSource
unfolding custom_sources split
rss_source_list cfg =
    named_feed "dzen_rss" "Dzen RSS" cfg.dzen_rss_feed_url
    ++ named_feed "yandex" "Yandex" cfg.yandex_rss_feed_url
    ++ custom_sources (split cfg.custom_rss_sources ",")

unfoldable pub disable_all : Set → List String → Set
disable_all disabled [] = disabled
disable_all disabled (part ∷ parts) =
    disable_all
      (if is_empty (trim_space part) then disabled else insert (trim_space part) true disabled)
      parts

unfoldable pub disabled_source_set : Settings → Set
unfolding disable_all split
disabled_source_set cfg = disable_all [] (split cfg.disabled_sources ",")

unfoldable pub split_csv : String → List String
unfolding dedup split
split_csv value = dedup trim_space (λ part. part) is_empty (split value ",")

-- The loop of SchedulerConfig.
unfoldable pub scheduled_queries : List String → ℤ → List String → List Query
scheduled_queries sources limit [] = []
scheduled_queries sources limit (query_text ∷ query_texts) =
    let later = scheduled_queries sources limit query_texts in
    if is_empty (trim_space query_text)
    then later
    else record { text = trim_space query_text; sources = sources; limit = limit } ∷ later

-- The interval in milliseconds: half an hour where it is not positive.
unfoldable pub scheduler_interval : ℤ → ℤ
scheduler_interval interval_ms = if leb_ℤ interval_ms (pos 0) then pos 1_800_000 else interval_ms

unfoldable pub scheduler_config : Settings → Scheduler.Config × ℤ
unfolding scheduled_queries split_csv split scheduler_interval
scheduler_config cfg = (
  record {
    enabled = cfg.scheduler_enabled;
    queries =
        scheduled_queries (split_csv cfg.scheduler_sources) cfg.scheduler_limit
          (split cfg.scheduler_queries ";");
  },
  scheduler_interval cfg.scheduler_interval_ms,
)

unfoldable pub parse_bool : String → Bool
unfolding to_lower trim_space
parse_bool value =
    let word = to_lower (trim_space value) in
    word == "1" || word == "true" || word == "yes" || word == "y" || word == "on"

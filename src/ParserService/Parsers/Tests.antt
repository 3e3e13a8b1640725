-- ===== src/ParserService/Parsers/Tests.antt =====
-- Pages and feeds as the parsers read them.
use articleflow.Prelude.{refl, ◌∷◌, List, none, some, ℕ, [], Option, ◌≡◌, String}
use articleflow.Prelude.Int.{pos}
use articleflow.Go.Map.{member, lookup}
use articleflow.Go.Text.{join}
use articleflow.Contracts.Query.{clamp_limit}
use articleflow.Go.Time.{Time}
use articleflow.Go.Text.{trim_space, to_lower}
use articleflow.Go.Result.{Result, ok}
use articleflow.Contracts.Parser.{SearchQuery, normalize}
use articleflow.ParserService.Parsers.State.{extract_initial_state}
use articleflow.ParserService.Parsers.Json.{
  number, text, array, object, no_items, item, no_fields, field, Fields,
}
use articleflow.ParserService.Parsers.Dzen.{find_dzen_node}
use articleflow.ParserService.Parsers.RssFeed.{
  FeedClient, RssItem, AtomEntry, search_feed, candidate_of_item,
}
use articleflow.ParserService.Parsers.RssFeed.Laws.{IsAnswer, search_feed_lem}

-- A brace in a text does not end the object.
state_test :
    extract_initial_state "var a; window.__INITIAL_STATE__ = {\"t\":\"}\\\"}\",\"u\":{}};run()"
    ≡ some "{\"t\":\"}\\\"}\",\"u\":{}}"
unfolding extract_initial_state trim_space
state_test = refl

abbrev article : Fields ℕ
article = field "@type" (text "NewsArticle") no_fields

graph_test :
    find_dzen_node
      (object (field "@graph" (array (item (number 1) (item (object article) no_items))) no_fields))
    ≡ some article
unfolding find_dzen_node
graph_test = refl

abbrev news : String → RssItem
news title = record {
  title = title;
  link = "https://example.org/1";
  guid = "1";
  description = "";
  author = "";
  categories = [];
  pub_date = "";
}

abbrev client : FeedClient
client = record { source_name = "lenta"; feed_url = "https://example.org/rss"; language = "ru" }

abbrev query : SearchQuery
query = record {
  text = "the Rust";
  sources = [];
  tags = [];
  limit = pos 1;
  offset = pos 0;
  language = "ru";
  from_date = none;
  to_date = none;
}

abbrev parse_time : String → Option Time
parse_time value = none

abbrev fetch : String → Result (ℕ × Result (List RssItem) × Result (List AtomEntry))
fetch url = ok (200, ok (news "Go" ∷ news "Rust 2" ∷ news "More rust" ∷ []), ok [])

search_feed_lem_example :
    IsAnswer parse_time client fetch
      (normalize query)
      (candidate_of_item parse_time client (news "Rust 2") ∷ [])
unfolding search_feed trim_space to_lower member lookup join clamp_limit
search_feed_lem_example =
    search_feed_lem parse_time client fetch query
      (candidate_of_item parse_time client (news "Rust 2") ∷ []) refl

-- ===== src/ArticleIds/Tests.antt =====
-- The ids of one article.
use articleflow.Prelude.Int.{pos_part, pos}
use articleflow.Go.Float.{Float64}
use articleflow.Gateway.FeedHandler.{feed_item_from_candidate}
use articleflow.ArticleService.Ingest.{ingest_discovered, memory_store}
use articleflow.ArticleService.Store.{new_store, find_by_url}
use articleflow.Ranking.Rank.{rank_discovered}
use articleflow.Go.Map.{lookup}
use articleflow.Prelude.{eqb, ltb, ◌/◌, ◌+◌, ℕ, none}
use articleflow.Prelude.{refl, ◌≡◌, []}
use articleflow.Go.Text.{trim_space}
use articleflow.Contracts.Parser.{ArticleCandidate}
use articleflow.Contracts.Events.{validate_discovered}
use articleflow.ParserService.Search.{discovered_event}
use articleflow.ArticleIds.{feed_item_from_candidate-Opens, Opens}

abbrev candidate : ArticleCandidate
candidate = record {
  source_name = "habr";
  external_id = "77";
  url = "https://habr.com/77";
  title = "Go";
  summary = "";
  content = "";
  author = "";
  tags = [];
  language = "ru";
  published_at = 1;
}

abbrev whole_numbers : Float64
whole_numbers = record {
  Float = ℕ;
  of_int = pos_part;
  add = ◌+◌;
  div = ◌/◌;
  less = ltb;
  equal = eqb;
}

feed_item_from_candidate-Opens_example :
    let event = discovered_event 5 candidate in
    let item = feed_item_from_candidate (whole_numbers.of_int (pos 0)) candidate in
    Opens (ingest_discovered memory_store (λ url. url) none 6 new_store event).0 item
    × ((rank_discovered whole_numbers 7 none event).1.article_id ≡ item.article_id)
unfolding validate_discovered discovered_event trim_space find_by_url lookup
feed_item_from_candidate-Opens_example =
    feed_item_from_candidate-Opens whole_numbers (λ url. url) 5 6 7 none new_store candidate refl
      refl

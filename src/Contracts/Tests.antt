-- ===== src/Contracts/Tests.antt =====
-- The theorems on the contracts at concrete inputs.
use articleflow.Prelude.{[], none}
use articleflow.Prelude.Int.{pos, negsuc}
use articleflow.Contracts.Parser.{SearchQuery}
use articleflow.Contracts.Events.{ArticleDiscoveredEvent}

abbrev query : SearchQuery
query = record {
  text = " go ";
  sources = [];
  tags = [];
  limit = pos 500;
  offset = negsuc 2;
  language = "";
  from_date = none;
  to_date = none;
}

abbrev event : ArticleDiscoveredEvent
event = record {
  source_name = "habr";
  external_id = " ";
  url = "u";
  title = "t";
  summary = "";
  content = "";
  author = "";
  tags = [];
  language = "ru";
  published_at = 1;
  discovered_at = 2;
}

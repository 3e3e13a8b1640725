-- ===== src/ParserService/Parsers/ClientTests.antt =====
-- The clients of the sites at small inputs.
use articleflow.ParserService.Parsers.RssFeed.{RssItem, AtomEntry, search_feed}
use articleflow.ParserService.Parsers.VcClient.{search_vc, search_rss, new_vc_client}
use articleflow.ParserService.Parsers.VcClient.Laws.{search_vc_lem}
use articleflow.Contracts.Parser.{ArticleCandidate, SearchQuery}
use articleflow.Go.Time.{Time}
use articleflow.Go.Text.{join}
use articleflow.Contracts.Query.{clamp_limit}
use articleflow.Prelude.Int.{ℤ}
use articleflow.ParserService.Parsers.Urls.Laws.{IsUrlList}
use articleflow.Go.Map.{insert, lookup, member}
use articleflow.ParserService.Parsers.VcDiscovery.Laws.{search_urls_lem, IsOutcome}
use articleflow.ParserService.Parsers.DzenClient.Laws.{
  collect_search_urls_lem, fetch_candidates-perm,
}
use articleflow.Go.Result.{err, ok, Result}
use articleflow.Go.Text.{trim_cutset, trim_space, to_lower}
use articleflow.ParserService.Parsers.DzenClient.{
  search_url_target, fetch_candidate, DzenResponse, new_dzen_client, keep_fresh, DzenClient,
  fetch_candidates, collect_search_urls,
}
use articleflow.ParserService.Parsers.VcDiscovery.{
  normalize_discovery_limit, DiscoveryResponse, search_urls,
}
use articleflow.Go.Text.Replacer.{replace_each}
use articleflow.Prelude.{
  Option, ◌≤◌, refl, arith, true, map, ◌∷◌, [], none, ◌≡◌, ℕ, some, List, String,
}
use articleflow.Prelude.Int.{pos}
use articleflow.Contracts.Article.{Article}
use articleflow.ParserService.Parsers.Http.{check_status, SiteResponse}
use articleflow.ParserService.Parsers.DzenSearch.{SearchTools, SearchDocument, is_dzen_article_path}
use articleflow.ParserService.Parsers.HabrClient.{HabrClient, Attempt, get_habr}
use articleflow.ParserService.Parsers.HabrClient.Laws.{Gives, IsQuiet, get_habr_lem}
use mathlib.Core.List.Perm
use articleflow.Prelude.{suc, zero}
use articleflow.Go.Map.{member, lookup, insert}

dzen_path_test : is_dzen_article_path "/A/abc/" ≡ true
unfolding is_dzen_article_path to_lower trim_cutset
dzen_path_test = refl

slash_test : replace_each (("\\/", "/") ∷ ("\\u002F", "/") ∷ []) "a\\/b\\u002Fc\\d" ≡ "a/b/c\\d"
unfolding replace_each
slash_test = refl

-- Discovery: each page has the same two entries.
abbrev clean : String → String
clean url = url

abbrev build_url : String → List (String × String) → Result String
build_url endpoint parameters = ok endpoint

abbrev fetch : ℕ → String → Result (SiteResponse DiscoveryResponse)
fetch rounds url = ok (record {
  status = 200;
  body = ok (record {
    cursor = "next";
    last_id = pos 0;
    last_sorting_value = pos 0;
    items =
        record { kind = "entry"; url = "https://vc.ru/1" }
        ∷ record { kind = "news"; url = "https://vc.ru/2" }
        ∷ [];
  });
  close = none;
})

discovery_test :
    search_urls clean build_url fetch "https://api.vc.ru" "go" (pos 2)
    ≡ some (ok ("https://vc.ru/1" ∷ []))
unfolding search_urls trim_space member lookup insert
discovery_test = refl

search_urls_lem_example :
    (result : Result (List String)) × (search_urls clean build_url fetch "https://api.vc.ru" "go"
        (pos 2)
      ≡ some result)
    × IsOutcome (normalize_discovery_limit (pos 2)) result
search_urls_lem_example = search_urls_lem clean build_url fetch "https://api.vc.ru" "go" (pos 2)

-- Dzen: URLs are their own text.
abbrev tools : SearchTools
tools = record {
  parse_url = λ text. some (record {
    scheme = "https";
    host = "dzen.ru";
    path = text;
    raw_query = "";
    fragment = "";
    rest = "";
  });
  resolve = λ base url. url;
  url_text = λ url. url.path;
  find_articles = λ payload. [];
  find_more = λ payload. none;
  unquote = λ quoted. none;
}

abbrev dzen_url : String → List (String × String) → String
dzen_url base parameters = base

abbrev found_body : {A : Type 0} → A → Result (DzenResponse A)
found_body body = ok (record {
  response = record { status = 200; body = ok body; close = none };
  request_url = none;
  location = "";
})

abbrev document : SearchDocument
document = record { links = "a/1" ∷ "a/2" ∷ "a/1" ∷ []; payload = "" }

abbrev get_search : String → Result (DzenResponse SearchDocument)
get_search url = found_body document

abbrev get_article : String → Result (DzenResponse String)
get_article url = found_body url

abbrev parse : String → String → Article × Result (Unit {0})
parse page url = (
  record {
    id = url;
    source_id = "";
    source_name = "dzen";
    external_id = url;
    url = url;
    title = page;
    summary = "";
    content = "";
    author = "";
    tags = [];
    language = "ru";
    published_at = 0;
    parsed_at = 1;
  },
  ok tt,
)

abbrev client : DzenClient
client = new_dzen_client "" "" "ru"

fetch_candidates-perm_example :
    fetch_candidates tools dzen_url get_search get_article parse client
      (1 ∷ 0 ∷ [])
      5
      ("a/1" ∷ "a/2" ∷ [])
      (pos 10)
    ≡ keep_fresh 5 (pos 10) [] (
        map
          (fetch_candidate tools dzen_url get_search get_article parse client)
          ("a/1" ∷ "a/2" ∷ []))
fetch_candidates-perm_example =
    fetch_candidates-perm tools dzen_url get_search get_article parse client (1 ∷ 0 ∷ []) 5
      ("a/1" ∷ "a/2" ∷ []) (pos 10) (Perm.swap 0 1 [])

collect_search_urls_lem_example : IsUrlList (search_url_target (pos 3)) ("a/1" ∷ "a/2" ∷ [])
unfolding collect_search_urls trim_space to_lower trim_cutset member lookup insert
collect_search_urls_lem_example =
    collect_search_urls_lem tools dzen_url get_search get_article parse client (ok document)
      "https://dzen.ru/search" (pos 3) ("a/1" ∷ "a/2" ∷ []) refl

-- Habr: the first attempt is refused.
abbrev habr : HabrClient
habr = record { base_url = "https://habr.com"; max_attempts = pos 3; retry_delay = pos 0 }

abbrev habr_url : String
habr_url = "https://habr.com/ru/articles/1/"

abbrev answer : SiteResponse String
answer = record { status = 200; body = ok "page"; close = none }

abbrev refused : Result (SiteResponse String)
refused = ok (record { status = 503; body = ok ""; close = none })

abbrev answer_to : ℕ → Result (SiteResponse String)
answer_to (suc (suc n)) = ok answer
answer_to (suc zero) = refused
answer_to zero = refused

abbrev attempts : ℕ → Attempt String
attempts n = record { wait = none; request = none; response = answer_to n; cancelled = none }

attempts-IsQuiet : (n : ℕ) → IsQuiet (attempts n)
attempts-IsQuiet n = record { wait_done = refl; request_made = refl; not_cancelled = refl }

get_habr_lem_example :
    (k : ℕ) × (first : SiteResponse String) × (k ≤ 2)
    × Gives habr habr_url attempts k first
    × (get_habr habr habr_url attempts ≡ ok first)
unfolding check_status
get_habr_lem_example =
    get_habr_lem habr habr_url attempts 1 answer (omega arith) attempts-IsQuiet refl

-- vc.ru: the searcher of URLs is out of its quota, and no page of an article can be read.
abbrev vc_feed : String → Result (ℕ × Result (List RssItem) × Result (List AtomEntry))
vc_feed url = ok (
  200,
  ok (
      record {
        title = "Go";
        link = "https://vc.ru/7";
        guid = "7";
        description = "";
        author = "";
        categories = [];
        pub_date = "";
      }
      ∷ []),
  ok [],
)

abbrev no_time : String → Option Time
no_time text = none

abbrev no_page : String → Result (SiteResponse String)
no_page url = err "timeout"

abbrev no_quota : String → ℤ → Result (List String)
no_quota text limit = err "quota exceeded"

abbrev vc_query : SearchQuery
vc_query = record {
  text = "go";
  sources = [];
  tags = [];
  limit = pos 5;
  offset = pos 0;
  language = "ru";
  from_date = none;
  to_date = none;
}

abbrev from_feed : ArticleCandidate
from_feed = record {
  source_name = "vc";
  external_id = "7";
  url = "https://vc.ru/7";
  title = "Go";
  summary = "";
  content = "";
  author = "";
  tags = [];
  language = "ru";
  published_at = 0;
}

search_vc_lem_example :
    (first : ArticleCandidate) × (rest : List ArticleCandidate) × (search_vc no_time vc_feed no_page
        parse
        (new_vc_client "" "")
        (some no_quota)
        vc_query
      ≡ ok (first ∷ rest))
unfolding search_rss search_feed new_vc_client trim_space to_lower member lookup join clamp_limit
search_vc_lem_example =
    search_vc_lem no_time vc_feed no_page parse (new_vc_client "" "") (some no_quota) vc_query
      from_feed [] refl

-- ===== src/ParserService/Parsers/Habr.antt =====
-- services/parser-service/internal/parsers/habr: rss.go and html.go. The items that encoding/xml
-- decodes, the parts of a page that goquery selects, net/url, time.Parse and SHA-1 are arguments.
use articleflow.ParserService.Parsers.RssFeed.{filled_texts}
use articleflow.Go.Time.{Time}
use articleflow.Go.Text.{cat, trim_space, is_empty}
use articleflow.Go.Result.{ok, err, Result}
use articleflow.ParserService.Parsers.Texts.{first_non_empty, clean_text}
use articleflow.Prelude.Int.{pos_part, pos, ltb_ℤ, ℤ}
use articleflow.Prelude.{
  [], take, length, ◌&&◌, map, some, ◌||◌, none, if◌then◌else◌, ◌∷◌, Option, List, String,
}
use articleflow.Contracts.Parser.{SearchQuery, ArticleCandidate, normalize}
use articleflow.Contracts.Article.{Article, validate_article}
use articleflow.Contracts.Events.{ArticleDiscoveredEvent}

pub record HabrItem : Type 0 where
  pub title : String
  pub link : String
  pub guid : String
  pub description : String
  pub author : String
  pub categories : List String
  pub pub_date : String

-- What is selected of an article of the search page, or of the page of an article: the title and the
-- href of its link, the text of the body, of the author and of the hubs, the time's attribute.
pub record Selected : Type 0 where
  pub title : String
  pub href : String
  pub body : String
  pub author : String
  pub hubs : List String
  pub datetime : String

pub record HabrTools : Type 0 where
  pub parse_rfc1123 : String → Option Time
  pub parse_rfc3339 : String → Option Time
  pub absolute : String → Option String
  pub short_digest : String → String

abbrev pub habr_source : String
habr_source = "habr"

module _ (tools : HabrTools) where
  unfoldable pub event_of_item : Time → HabrItem → ArticleDiscoveredEvent
  unfolding first_non_empty filled_texts
  event_of_item now item = record {
    source_name = habr_source;
    external_id = first_non_empty (item.guid ∷ item.link ∷ []);
    url = trim_space item.link;
    title = trim_space item.title;
    summary = trim_space item.description;
    content = "";
    author = trim_space item.author;
    tags = filled_texts item.categories;
    language = "ru";
    published_at = elim (tools.parse_rfc1123 (trim_space item.pub_date)) [ none ↦ 0 | some t ↦ t ];
    discovered_at = now;
  }

  -- ParseRSS
  unfoldable pub parse_habr_rss :
      Time → Result (List HabrItem) → Result (List ArticleDiscoveredEvent)
  unfolding event_of_item
  parse_habr_rss now (err e) = err e
  parse_habr_rss now (ok items) = ok (map (event_of_item now) items)

  -- absoluteURL; what net/url makes of a text that is not empty is `absolute`.
  unfoldable pub absolute_url : String → String
  absolute_url href =
      if is_empty (trim_space href)
      then ""
      else elim (tools.absolute (trim_space href)) [ none ↦ "" | some url ↦ url ]

  unfoldable pub collect_tags : List String → List String
  unfolding clean_text
  collect_tags [] = []
  collect_tags (hub ∷ hubs) =
      let later = collect_tags hubs in
      if is_empty (clean_text hub) then later else clean_text hub ∷ later

  unfoldable pub parse_datetime_attr : String → Time
  parse_datetime_attr value =
      if is_empty value then 0 else elim (tools.parse_rfc3339 value) [ none ↦ 0 | some t ↦ t ]

  -- The article of a search page, unless it has no title or no link.
  unfoldable pub candidate_of_selected : String → Selected → Option ArticleCandidate
  unfolding absolute_url collect_tags parse_datetime_attr clean_text
  candidate_of_selected language found =
      let title = clean_text found.title in
      let url = absolute_url found.href in
      if is_empty title || is_empty url
      then none
      else some (record {
        source_name = habr_source;
        external_id = tools.short_digest url;
        url = url;
        title = title;
        summary = clean_text found.body;
        content = "";
        author = clean_text found.author;
        tags = collect_tags found.hubs;
        language = language;
        published_at = parse_datetime_attr found.datetime;
      })

  unfoldable pub candidates_of_selected : String → List Selected → List ArticleCandidate
  unfolding candidate_of_selected
  candidates_of_selected language [] = []
  candidates_of_selected language (found ∷ later) =
      let rest = candidates_of_selected language later in
      elim (candidate_of_selected language found) [
        | none ↦ rest
        | some candidate ↦ candidate ∷ rest
      ]

  -- ParseArticleHTML; `og_title` is the title of the page's metadata.
  unfoldable pub parse_habr_article :
      Time → Selected → String → String → Article × Result (Unit {0})
  unfolding collect_tags parse_datetime_attr clean_text validate_article cat
  parse_habr_article now found og_title article_url =
      let title = clean_text found.title in
      let article : Article = record {
        id = cat "article-" (tools.short_digest article_url);
        source_id = "";
        source_name = habr_source;
        external_id = tools.short_digest article_url;
        url = article_url;
        title = if is_empty title then clean_text og_title else title;
        summary = "";
        content = clean_text found.body;
        author = clean_text found.author;
        tags = collect_tags found.hubs;
        language = "ru";
        published_at = parse_datetime_attr found.datetime;
        parsed_at = now;
      } in
      (article, validate_article article)

-- `candidates[:query.Limit]` where there are more
unfoldable pub limit_candidates : ℤ → List ArticleCandidate → List ArticleCandidate
limit_candidates limit candidates =
    if ltb_ℤ (pos 0) limit && ltb_ℤ limit (pos (length candidates))
    then take (pos_part limit) candidates
    else candidates

-- ParseSearchHTML
unfoldable pub parse_habr_search :
    HabrTools → Result (List Selected) → SearchQuery → Result (List ArticleCandidate)
unfolding candidates_of_selected limit_candidates normalize
parse_habr_search tools (err e) query = err e
parse_habr_search tools (ok found) query = ok (
    limit_candidates (normalize query).limit
      (candidates_of_selected tools (normalize query).language found))

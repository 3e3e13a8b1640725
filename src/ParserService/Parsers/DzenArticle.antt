-- ===== src/ParserService/Parsers/DzenArticle.antt =====
-- services/parser-service/internal/parsers/dzen/html.go: ParseArticleHTML. `matches` is as in Dzen.
use articleflow.Prelude.{some, none, [], if◌then◌else◌, Option, ◌∷◌, List, String}
use articleflow.Go.Time.{Time, is_zero}
use articleflow.Go.Text.{is_empty, trim_space, cat, trim_cutset}
use articleflow.Go.Result.{Result}
use articleflow.Contracts.Article.{Article, validate_article}
use articleflow.ParserService.Parsers.Json.{get_field}
use articleflow.ParserService.Parsers.Page.{
  Page, StructuredArticle, Tools, attr, meta, first_parsed,
}
use articleflow.ParserService.Parsers.Texts.{first_non_empty}
use articleflow.ParserService.Parsers.Dzen.{
  clean_page_text, clean_tags, trimmed_string, find_dzen_node, dzen_author, dzen_keywords,
  parse_dzen_time, parse_embedded_published_at,
}

module _ {Number : Type 0} (tools : Tools Number) (matches : String → String → List String) where
  unfoldable pub parse_dzen_json_ld : String → Option StructuredArticle
  unfolding find_dzen_node trimmed_string dzen_author dzen_keywords parse_dzen_time get_field
      first_non_empty
  parse_dzen_json_ld payload = elim (tools.decode payload) [
    | none ↦ none
    | some document ↦ elim (find_dzen_node document) [
      | none ↦ none
      | some node ↦ some (record {
        title = first_non_empty (
            trimmed_string (get_field "headline" node)
            ∷ trimmed_string (get_field "name" node)
            ∷ []);
        summary = trimmed_string (get_field "description" node);
        content = trimmed_string (get_field "articleBody" node);
        url = trimmed_string (get_field "url" node);
        author = dzen_author (get_field "author" node);
        tags = dzen_keywords (get_field "keywords" node);
        published_at =
            parse_dzen_time tools matches (trimmed_string (get_field "datePublished" node));
      })
    ]
  ]

  unfoldable pub parse_dzen_structured : Page → StructuredArticle
  unfolding first_parsed parse_dzen_json_ld parse_embedded_published_at
  parse_dzen_structured page =
      let article = first_parsed parse_dzen_json_ld page.linked_data in
      if is_zero article.published_at
      then record article { published_at = parse_embedded_published_at tools matches page.scripts }
      else article

  unfoldable pub clean_dzen_url : String → String
  clean_dzen_url value = elim (tools.without_query (trim_space value)) [
    | none ↦ trim_space value
    | some cleaned ↦ cleaned
  ]

  -- The path of the URL, or its SHA-1 where there is no path.
  unfoldable pub stable_external_id : String → String
  unfolding trim_cutset
  stable_external_id value = elim (tools.url_path value) [
    | none ↦ tools.digest value
    | some path ↦
        if is_empty (trim_cutset path "/") then tools.digest value else trim_cutset path "/"
  ]

  unfoldable pub dzen_article : Time → Page → String → StructuredArticle → Article
  unfolding first_non_empty clean_page_text clean_tags attr meta clean_dzen_url stable_external_id
      cat
  dzen_article now page article_url structured =
      let canonical = clean_dzen_url (
        first_non_empty
          (structured.url ∷ attr page "link[rel=\"canonical\"]" "href" ∷ article_url ∷ [])) in
      let summary = clean_page_text (
        first_non_empty (
          structured.summary
          ∷ meta page "meta[name=\"description\"]"
          ∷ meta page "meta[property=\"og:description\"]"
          ∷ [])) in
      record {
        id = cat "dzen:" (stable_external_id canonical);
        source_id = "";
        source_name = "dzen";
        external_id = stable_external_id canonical;
        url = canonical;
        title = clean_page_text (
            first_non_empty (
              structured.title
              ∷ meta page "meta[property=\"og:title\"]"
              ∷ clean_page_text (page.text_at "title")
              ∷ []));
        summary = summary;
        content = clean_page_text (
            first_non_empty
              (structured.content ∷ clean_page_text (page.text_at "article") ∷ summary ∷ []));
        author =
            clean_page_text
              (first_non_empty (structured.author ∷ meta page "meta[name=\"author\"]" ∷ []));
        tags = clean_tags structured.tags;
        language = "ru";
        published_at = structured.published_at;
        parsed_at = now;
      }

  unfoldable pub parse_dzen_article : Time → Page → String → Article × Result (Unit {0})
  unfolding dzen_article parse_dzen_structured validate_article
  parse_dzen_article now page article_url =
      let article = dzen_article now page article_url (parse_dzen_structured page) in
      (article, validate_article article)

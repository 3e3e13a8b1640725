-- ===== src/ParserService/Parsers/VcArticle.antt =====
-- services/parser-service/internal/parsers/vc/html.go: ParseArticleHTML. SHA-1 is `digest` of the
-- tools.
use articleflow.Go.Text.{cat}
use articleflow.ParserService.Parsers.Vc.{
  clean_url, parse_json_ld_article, parse_initial_state_article,
}
use articleflow.ParserService.Parsers.Texts.{
  first_non_empty_strings, clean_strings, clean_text, first_non_empty,
}
use articleflow.Prelude.{if◌then◌else◌, [], ◌∷◌, String}
use articleflow.Go.Time.{Time, is_zero}
use articleflow.Go.Result.{Result}
use articleflow.Contracts.Article.{Article, validate_article}
use articleflow.ParserService.Parsers.Json.{Fields}
use articleflow.ParserService.Parsers.Page.{
  meta, attr, first_parsed, Page, StructuredArticle, Tools,
}

module _ {Number : Type 0} (tools : Tools Number) where
  unfoldable pub vc_article : Time → Page → String → StructuredArticle → StructuredArticle → Article
  unfolding first_non_empty clean_text clean_strings first_non_empty_strings attr meta clean_url cat
  vc_article now page article_url state structured =
      let canonical = first_non_empty (
        state.url
        ∷ structured.url
        ∷ attr page "link[rel=\"canonical\"]" "href"
        ∷ article_url
        ∷ []) in
      let title = first_non_empty (
        state.title
        ∷ structured.title
        ∷ meta page "meta[property=\"og:title\"]"
        ∷ clean_text (page.text_at "title")
        ∷ []) in
      let summary =
        first_non_empty (structured.summary ∷ meta page "meta[name=\"description\"]" ∷ []) in
      let content = first_non_empty (
        state.content
        ∷ structured.content
        ∷ clean_text (page.text_at ".content .l-island-a, .content, article")
        ∷ summary
        ∷ []) in
      let author =
        first_non_empty
          (state.author ∷ structured.author ∷ meta page "meta[name=\"author\"]" ∷ []) in
      record {
        id = cat "vc:" (tools.digest canonical);
        source_id = "";
        source_name = "vc";
        external_id = tools.digest canonical;
        url = clean_url tools canonical;
        title = clean_text title;
        summary = clean_text summary;
        content = clean_text content;
        author = clean_text author;
        tags = clean_strings (first_non_empty_strings (state.tags ∷ structured.tags ∷ []));
        language = "ru";
        published_at =
            if is_zero state.published_at then structured.published_at else state.published_at;
        parsed_at = now;
      }

  unfoldable pub parse_vc_article :
      (Fields Number → Fields Number) → Time → Page → String → Article × Result (Unit {0})
  unfolding vc_article parse_initial_state_article parse_json_ld_article first_parsed
      validate_article
  parse_vc_article order now page article_url =
      let structured = first_parsed (parse_json_ld_article tools) page.linked_data in
      let state = parse_initial_state_article tools order page in
      let article = vc_article now page article_url state structured in
      (article, validate_article article)

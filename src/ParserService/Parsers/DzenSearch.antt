-- ===== src/ParserService/Parsers/DzenSearch.antt =====
-- services/parser-service/internal/parsers/dzen/search.go. What goquery and the two regular
-- expressions find in a page, the decoder of a text in JSON and net/url are arguments.
use articleflow.Dedup.{Kept}
use articleflow.Prelude.Int.{leb_ℤ, pos, ltb_ℤ, ℤ}
use articleflow.Go.Result.{ok, err, Result}
use articleflow.Go.Text.Replacer.{replace_each}
use articleflow.ParserService.Parsers.Urls.{keep_up_to, nothing_kept}
use articleflow.Go.Text.{has_prefix, to_lower, trim_space, is_empty, trim_cutset}
use articleflow.ParserService.Parsers.Texts.{first_non_empty}
use articleflow.Prelude.{
  false, length, ◌&&◌, not, [], ◌||◌, Bool, some, ◌∷◌, none, if◌then◌else◌, Option, List, String,
}

-- The href of each link, and the text of the page.
pub record SearchDocument : Type 0 where
  pub links : List String
  pub payload : String

pub record SearchPage : Type 0 where
  pub urls : List String
  pub more_url : String

-- url.URL, with the parts that the code does not touch in `rest`.
pub record LinkUrl : Type 0 where
  pub scheme : String
  pub host : String
  pub path : String
  pub raw_query : String
  pub fragment : String
  pub rest : String

-- Parse, ResolveReference and String of net/url; FindAllString of the first expression, the submatch
-- of the second one, and Unmarshal of a text.
pub record SearchTools : Type 0 where
  pub parse_url : String → Option LinkUrl
  pub resolve : LinkUrl → LinkUrl → LinkUrl
  pub url_text : LinkUrl → String
  pub find_articles : String → List String
  pub find_more : String → Option String
  pub unquote : String → Option String

unfoldable pub is_dzen_article_path : String → Bool
unfolding trim_cutset to_lower has_prefix
is_dzen_article_path path =
    let cleaned = trim_cutset (to_lower path) "/" in
    not (has_prefix cleaned "media/zen/login")
    && (has_prefix cleaned "a/" || has_prefix cleaned "media/")

module _ (tools : SearchTools) where
  -- The URL that a text stands for on a page.
  unfoldable pub resolved : String → String → Option LinkUrl
  resolved raw_url base_url = elim (tools.parse_url base_url) [
    | none ↦ none
    | some base ↦ elim (tools.parse_url raw_url) [
      | none ↦ none
      | some parsed ↦ some (tools.resolve base parsed)
    ]
  ]

  unfoldable pub with_scheme : LinkUrl → LinkUrl
  with_scheme url = record url { scheme = if is_empty url.scheme then "https" else url.scheme }

  unfoldable pub normalize_dzen_article_url : String → String → String
  unfolding resolved with_scheme is_dzen_article_path trim_space has_prefix
  normalize_dzen_article_url raw_url base_url =
      let raw = trim_space raw_url in
      if is_empty raw || has_prefix raw "#" || has_prefix raw "javascript:"
      then ""
      else elim (resolved raw base_url) [
        | none ↦ ""
        | some url ↦
            if is_dzen_article_path url.path
            then tools.url_text (with_scheme (record url { raw_query = ""; fragment = "" }))
            else ""
      ]

  unfoldable pub normalize_any_dzen_url : String → String → String
  unfolding resolved with_scheme trim_space
  normalize_any_dzen_url raw_url base_url =
      if is_empty (trim_space raw_url) then "" else elim (resolved (trim_space raw_url) base_url) [
        | none ↦ ""
        | some url ↦ tools.url_text (with_scheme url)
      ]

  unfoldable pub embedded_dzen_article_urls : String → List String
  unfolding replace_each
  embedded_dzen_article_urls payload =
      tools.find_articles
        (replace_each (("\\/", "/") ∷ ("\\u002F", "/") ∷ ("\\u002f", "/") ∷ []) payload)

  unfoldable pub embedded_dzen_more_url : String → String → String
  unfolding normalize_any_dzen_url
  embedded_dzen_more_url payload base_url = elim (tools.find_more payload) [
    | none ↦ ""
    | some quoted ↦ elim (tools.unquote quoted) [
      | none ↦ ""
      | some link ↦ normalize_any_dzen_url link base_url
    ]
  ]

  -- The two loops that call addURL, which ends them once the limit is reached.
  unfoldable pub add_page_urls : String → ℤ → Kept → List String → Kept
  unfolding normalize_dzen_article_url keep_up_to
  add_page_urls base limit kept raw_urls =
      keep_up_to (λ raw_url. normalize_dzen_article_url raw_url base) (λ _. false) limit kept
        raw_urls

  unfoldable pub parse_search_page : Result SearchDocument → String → String → ℤ → Result SearchPage
  unfolding add_page_urls embedded_dzen_article_urls embedded_dzen_more_url first_non_empty
  parse_search_page (err e) search_url public_base_url limit = err e
  parse_search_page (ok document) search_url public_base_url limit =
      let base = first_non_empty (public_base_url ∷ search_url ∷ "https://dzen.ru" ∷ []) in
      let linked = add_page_urls base limit nothing_kept document.links in
      let embedded =
        add_page_urls base limit linked (embedded_dzen_article_urls document.payload) in
      let full = ltb_ℤ (pos 0) limit && leb_ℤ limit (pos (length linked.values)) in
      ok (record {
        urls = (if full then linked else embedded).values;
        more_url = embedded_dzen_more_url document.payload base;
      })

-- ===== src/ParserService/Parsers/VcClient.antt =====
-- services/parser-service/internal/parsers/vc/client.go. The searcher of URLs, the responses and the
-- items of the feed are arguments; `parse` is ParseArticleHTML of a page and its URL.
pub mod Laws
use articleflow.Contracts.Article.{Article}
use articleflow.Contracts.Parser.{ArticleCandidate, normalize, SearchQuery}
use articleflow.Go.Result.{ok, err, Result}
use articleflow.Prelude.Int.{leb_ℤ, pos, ltb_ℤ, ℤ}
use articleflow.ParserService.Parsers.Texts.{first_non_empty}
use articleflow.Go.Text.{is_empty, trim_space, cat, trim_right_cutset}
use articleflow.Go.Time.{is_zero, Time}
use articleflow.Prelude.{
  length, ◌&&◌, ◌++◌, none, some, ℕ, [], ◌∷◌, if◌then◌else◌, Option, List, String,
}
use articleflow.ParserService.Parsers.Http.{
  read_article, candidate_of_article, check_status, SiteResponse,
}
use articleflow.ParserService.Parsers.RssFeed.{
  search_feed, new_feed_client, FeedClient, RssItem, AtomEntry,
}

pub record VcClient : Type 0 where
  pub base_url : String
  pub language : String
  pub fallback : FeedClient

unfoldable pub new_vc_client : String → String → VcClient
unfolding trim_right_cutset first_non_empty new_feed_client cat
new_vc_client base_url language =
    let trimmed = trim_right_cutset (trim_space base_url) "/" in
    let base = if is_empty trimmed then "https://vc.ru" else trimmed in
    let language = first_non_empty (language ∷ "ru" ∷ []) in
    record {
      base_url = base;
      language = language;
      fallback = new_feed_client "vc" (cat base "/rss") language;
    }

-- What an article adds to the candidate of the feed: the texts that are there, and the tags and the
-- time where it has them.
unfoldable pub enrich_vc : ArticleCandidate → Article → ArticleCandidate
unfolding first_non_empty
enrich_vc candidate article = record candidate {
  url = first_non_empty (article.url ∷ candidate.url ∷ []);
  title = first_non_empty (article.title ∷ candidate.title ∷ []);
  summary = first_non_empty (article.summary ∷ candidate.summary ∷ []);
  content = first_non_empty (article.content ∷ candidate.content ∷ []);
  author = first_non_empty (article.author ∷ candidate.author ∷ []);
  tags = elim article.tags [ [] ↦ candidate.tags | _ ∷ _ ↦ article.tags ];
  published_at =
      if is_zero article.published_at then candidate.published_at else article.published_at;
}

module _ {A : Type 0} (parse_time : String → Option Time)
    (feed : String → Result (ℕ × Result (List RssItem) × Result (List AtomEntry)))
    (fetch : String → Result (SiteResponse A)) (parse : A → String → Article × Result (Unit {0}))
    (client : VcClient) where
  -- get and ParseArticleHTML: the article at a URL.
  unfoldable pub vc_article_at : String → Result Article
  unfolding check_status read_article
  vc_article_at url = elim (check_status url (fetch url)) [
    | err e ↦ err e
    | ok response ↦ read_article (λ page. parse page url) response
  ]

  unfoldable pub enrich_vc_all : List ArticleCandidate → List ArticleCandidate
  unfolding vc_article_at enrich_vc
  enrich_vc_all [] = []
  enrich_vc_all (candidate ∷ candidates) =
      elim (vc_article_at candidate.url) [
        | err _ ↦ candidate
        | ok article ↦ enrich_vc candidate article
      ]
      ∷ enrich_vc_all candidates

  unfoldable pub search_rss : SearchQuery → Result (List ArticleCandidate)
  unfolding search_feed enrich_vc_all
  search_rss query = elim (search_feed parse_time client.fallback feed query) [
    | err e ↦ err e
    | ok candidates ↦ ok (enrich_vc_all candidates)
  ]

  -- The loop of searchURLs, with the candidates it has so far.
  unfoldable pub fetch_urls : ℤ → List ArticleCandidate → List String → List ArticleCandidate
  unfolding vc_article_at candidate_of_article
  fetch_urls limit candidates [] = candidates
  fetch_urls limit candidates (url ∷ urls) = elim (vc_article_at url) [
    | err _ ↦ fetch_urls limit candidates urls
    | ok article ↦
        let taken = candidates ++ candidate_of_article "vc" client.language article ∷ [] in
        let rest = fetch_urls limit taken urls in
        if ltb_ℤ (pos 0) limit && leb_ℤ limit (pos (length taken)) then taken else rest
  ]

  unfoldable pub search_by_urls :
      (String → ℤ → Result (List String)) → SearchQuery → Result (List ArticleCandidate)
  unfolding fetch_urls
  search_by_urls searcher query = elim (searcher query.text query.limit) [
    | err e ↦ err e
    | ok urls ↦ ok (fetch_urls query.limit [] urls)
  ]

  -- Search once the searcher of URLs has given `found`: the feed is the fallback.
  unfoldable pub or_search_rss :
      Result (List ArticleCandidate) → SearchQuery → Result (List ArticleCandidate)
  unfolding search_rss
  or_search_rss (ok (candidate ∷ candidates)) query = ok (candidate ∷ candidates)
  or_search_rss (ok []) query = search_rss query
  or_search_rss (err e) query = elim (search_rss query) [
    | err _ ↦ err e
    | ok [] ↦ err e
    | ok (candidate ∷ candidates) ↦ ok (candidate ∷ candidates)
  ]

  unfoldable pub search_vc :
      Option (String → ℤ → Result (List String)) → SearchQuery → Result (List ArticleCandidate)
  unfolding search_rss search_by_urls or_search_rss normalize
  search_vc none query = search_rss query
  search_vc (some searcher) query = or_search_rss (search_by_urls searcher (normalize query)) query

unfoldable pub vc_strategy : Option (String → ℤ → Result (List String)) → String
vc_strategy none = "rss_fallback"
vc_strategy (some _) = "html_search_with_rss_fallback"

-- ===== src/ParserService/Parsers/VcClient/Laws.antt =====
-- The fallback of the search of vc.ru.
use articleflow.ParserService.Parsers.VcClient.{
  search_by_urls, ℤ, search_rss, search_vc, or_search_rss, VcClient,
}
use articleflow.Go.Result.{err, ok, Result}
use articleflow.Go.Time.{Time}
use articleflow.Prelude.{refl, none, [], some, ◌∷◌, ◌≡◌, ℕ, Option, List, String}
use articleflow.Contracts.Parser.{SearchQuery, ArticleCandidate, normalize}
use articleflow.ParserService.Parsers.Http.{SiteResponse}
use articleflow.ParserService.Parsers.RssFeed.{RssItem, AtomEntry}
use articleflow.Contracts.Article.{Article}

module _ {A : Type 0} (parse_time : String → Option Time)
    (feed : String → Result (ℕ × Result (List RssItem) × Result (List AtomEntry)))
    (fetch : String → Result (SiteResponse A)) (parse : A → String → Article × Result (Unit {0}))
    (client : VcClient) where
  or_search_rss_lem :
      (found : Result (List ArticleCandidate)) (query : SearchQuery) (candidate : ArticleCandidate)
      (candidates : List ArticleCandidate)
      → search_rss parse_time feed fetch parse client query ≡ ok (candidate ∷ candidates)
      → (first : ArticleCandidate) × (rest : List ArticleCandidate) × (or_search_rss parse_time feed
            fetch parse client found query
          ≡ ok (first ∷ rest))
  unfolding or_search_rss
  or_search_rss_lem (ok (first ∷ rest)) query candidate candidates h = (first, rest, refl)
  or_search_rss_lem (ok []) query candidate candidates h = (candidate, candidates, h)
  or_search_rss_lem (err e) query candidate candidates h =
      (candidate, candidates, rw (or_search_rss, h) refl)

  -- Where the feed has candidates, the search of vc.ru has some: it reports no error, and it is not
  -- empty, whatever the searcher of URLs gives.
  pub search_vc_lem :
      (searcher : Option (String → ℤ → Result (List String))) (query : SearchQuery)
      (candidate : ArticleCandidate) (candidates : List ArticleCandidate)
      → search_rss parse_time feed fetch parse client query ≡ ok (candidate ∷ candidates)
      → (first : ArticleCandidate) × (rest : List ArticleCandidate) × (search_vc parse_time feed
            fetch parse client searcher query
          ≡ ok (first ∷ rest))
  unfolding search_vc
  search_vc_lem none query candidate candidates h = (candidate, candidates, h)
  search_vc_lem (some searcher) query candidate candidates h =
      or_search_rss_lem
        (search_by_urls parse_time feed fetch parse client searcher (normalize query)) query
        candidate candidates h

-- ===== src/ArticleIds.antt =====
-- The id of an article, which three services make by themselves: articleID of
-- services/article-service/internal/usecase/ingest.go, that of
-- services/ranking-service/internal/usecase/rank.go, and feedArticleID of
-- services/gateway-api/internal/transport/http/feed_handler.go.
mod Tests
use articleflow.Ranking.Signals.{SignalStore}
use articleflow.Go.Float.{Float64}
use articleflow.Contracts.Article.{Article}
use articleflow.Contracts.Feed.{FeedItem}
use articleflow.Prelude.Int.{pos}
use articleflow.ArticleService.Ingest.{ingest_discovered, memory_store, article_of}
use articleflow.ArticleService.Store.{MemoryArticleStore, get_by_id, find_by_url, save}
use articleflow.ArticleService.Store.Laws.{get_by_id-save_new}
use articleflow.Ranking.Rank.{rank_discovered}
use articleflow.Gateway.FeedHandler.{feed_item_from_candidate}
use articleflow.Contracts.Events.Laws.{not_empty, validate_discovered_sound}
use Prim.Native.String.{[], ◌∷◌}
use articleflow.Prelude.{subst, eq_refl, none, Option, some, refl, false, ◌≡◌, String}
use articleflow.Go.Time.{Time}
use articleflow.Go.Text.{cat, is_empty, trim_space}
use articleflow.Go.Result.{ok}
use articleflow.Contracts.Parser.{ArticleCandidate}
use articleflow.Contracts.Events.{validate_discovered}
use articleflow.ParserService.Search.{discovered_event}
use articleflow.ArticleService.Ingest
use articleflow.Ranking.Rank
use articleflow.Gateway.FeedHandler.{feed_article_id}

filled_raw : (s : String) → is_empty (trim_space s) ≡ false → is_empty s ≡ false
unfolding trim_space
filled_raw [] h = cc
filled_raw (c ∷ s) h = refl

-- The id that the gateway shows for a candidate is the one that the article service files the event of
-- the candidate under, if that passes its validation.
article_id-feed_article_id :
    (digest : String → String) (now : Time) (candidate : ArticleCandidate)
    → validate_discovered (discovered_event now candidate) ≡ ok tt
    → Ingest.article_id digest (discovered_event now candidate) ≡ feed_article_id candidate
unfolding Ingest.article_id feed_article_id discovered_event cat
article_id-feed_article_id digest now candidate valid =
    let whole = validate_discovered_sound (discovered_event now candidate) valid in
    let source = filled_raw candidate.source_name (not_empty candidate.source_name whole.0) in
    let id = filled_raw candidate.external_id (not_empty candidate.external_id whole.1) in
    rw (Ingest.article_id, feed_article_id, source, id) refl

-- The stored article that an item of the feed opens by its id.
abbrev pub Opens : {Score : Type 0} → MemoryArticleStore → FeedItem Score → Type 0
Opens store item =
    (article : Article) × (get_by_id store item.article_id ≡ some article)
    × (article.url ≡ item.url)
    × (article.title ≡ item.title)

-- Once the store has taken in the event of a candidate, which is valid and whose URL is new, the item
-- that the gateway makes of the candidate opens its article by its id, and the ranking scores the
-- article of the event under that id.
pub feed_item_from_candidate-Opens :
    (f : Float64) (digest : String → String) (published parsed ranked : Time)
    (signals : Option (SignalStore f)) (store : MemoryArticleStore) (candidate : ArticleCandidate)
    → validate_discovered (discovered_event published candidate) ≡ ok tt
    → find_by_url store candidate.url ≡ none
    → let event = discovered_event published candidate in
      let item = feed_item_from_candidate (f.of_int (pos 0)) candidate in
      Opens (ingest_discovered memory_store digest none parsed store event).0 item
      × ((rank_discovered f ranked signals event).1.article_id ≡ item.article_id)
unfolding ingest_discovered discovered_event feed_item_from_candidate rank_discovered
    Rank.article_id feed_article_id cat article_of
feed_item_from_candidate-Opens f digest published parsed ranked signals store candidate valid new =
    let event = discovered_event published candidate in
    let article = article_of digest parsed event in
    let same = article_id-feed_article_id digest published candidate valid in
    let filed : get_by_id (save store article).0 article.id ≡ some article =
      rw (get_by_id-save_new store article article.id new, eq_refl article.id) refl in
    (
      (
        article,
        rw (ingest_discovered, valid)
            (subst (λ id. get_by_id (save store article).0 id ≡ some article) same filed),
        refl,
        refl,
      ),
      refl,
    )

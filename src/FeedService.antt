-- ===== src/FeedService.antt =====
-- services/feed-service/internal/usecase/feed.go: the feed in memory. `F` stands for float64.
pub mod Laws
mod Tests
use articleflow.Prelude.{
  ◌||◌, take, length, map, ◌∷◌, ◌/◌, if◌then◌else◌, ◌++◌, false, String, [], Bool, List, ℕ,
}
use articleflow.Prelude.Int.{ℤ, pos, pos_part, leb_ℤ, ltb_ℤ, sub_ℕ}
use articleflow.Go.Time.{Time, after, is_zero}
use articleflow.Go.Float.{Float64}
use articleflow.Go.Text.{to_lower, trim_space, is_empty}
use articleflow.Go.Map.{Map, insert}
use articleflow.Go.Sort.{sort_stable}
use articleflow.Go.Result.{Result, ok, err}
use articleflow.Contracts.Article.{ArticlePreview}
use articleflow.Contracts.Feed.{FeedItem}
use articleflow.Contracts.Events.{FeedItemScoredEvent}
use articleflow.RoundRobin.{interleave}

pub record MemoryFeed (Score : Type 0) : Type 0 where
  pub articles : List ArticlePreview
  pub scored : Map (FeedItem Score)

-- The limit that is applied: all items where none, or too high a one, is asked for.
unfoldable pub effective_limit : ℤ → ℕ → ℕ
effective_limit limit count =
    if leb_ℤ limit (pos 0) || ltb_ℤ (pos count) limit then count else pos_part limit

-- t.Unix(): seconds since 1970.
unfoldable pub unix : Time → ℤ
unix t = sub_ℕ (t / 1_000_000_000) 62_135_596_800

abbrev pub newer : ArticlePreview → ArticlePreview → Bool
newer a b = after a.published_at b.published_at

module _ {Score : Type 0} where
  abbrev pub new_feed : MemoryFeed Score
  new_feed = record { articles = []; scored = [] }

  unfoldable pub add_article : MemoryFeed Score → ArticlePreview → MemoryFeed Score
  add_article feed article = record feed { articles = feed.articles ++ article ∷ [] }

  -- The feed item of a scored event.
  unfoldable pub item_of_event : FeedItemScoredEvent Score → FeedItem Score
  item_of_event event = record {
    article_id = event.article_id;
    title = event.title;
    summary = event.summary;
    source_name = event.source_name;
    url = event.url;
    tags = event.tags;
    score = event.score;
    score_reasons = event.score_reasons;
    reaction = "";
    saved = false;
    published_at = event.published_at;
  }

  unfoldable pub upsert_scored_item :
      MemoryFeed Score → FeedItemScoredEvent Score → MemoryFeed Score × Result (Unit {0})
  unfolding item_of_event
  upsert_scored_item feed event =
      if is_empty event.article_id then (feed, err "article id is required") else (
        record feed { scored = insert event.article_id (item_of_event event) feed.scored },
        ok tt,
      )

  unfoldable pub feed_source : FeedItem Score → String
  feed_source item =
      let source = to_lower (trim_space item.source_name) in
      if is_empty source then "_unknown" else source

  unfoldable pub interleave_feed_items_by_source : List (FeedItem Score) → List (FeedItem Score)
  unfolding feed_source
  interleave_feed_items_by_source items = interleave feed_source [] [] items

  unfoldable pub limit_feed_items : List (FeedItem Score) → ℤ → List (FeedItem Score)
  unfolding effective_limit
  limit_feed_items items limit = take (effective_limit limit (length items)) items

module _ (f : Float64) where
  -- The order of listScored: the higher score first, and of equal ones the newer item.
  unfoldable pub scored_before : FeedItem f.Float → FeedItem f.Float → Bool
  scored_before a b =
      if f.equal a.score b.score
      then after a.published_at b.published_at
      else f.less b.score a.score

  -- `visited` is the items of the map in the order in which Go ranges over them.
  unfoldable pub list_scored : List (FeedItem f.Float) → ℤ → List (FeedItem f.Float)
  unfolding scored_before interleave_feed_items_by_source limit_feed_items
  list_scored visited limit =
      let items = sort_stable scored_before visited in
      limit_feed_items (interleave_feed_items_by_source items)
        (pos (effective_limit limit (length items)))

  unfoldable pub score_by_freshness : Time → f.Float
  unfolding unix
  score_by_freshness published_at =
      if is_zero published_at then f.of_int (pos 0) else f.of_int (unix published_at)

  unfoldable pub item_of_article : ArticlePreview → FeedItem f.Float
  unfolding score_by_freshness
  item_of_article article = record {
    article_id = article.id;
    title = article.title;
    summary = article.summary;
    source_name = article.source_name;
    url = article.url;
    tags = article.tags;
    score = score_by_freshness article.published_at;
    score_reasons = [];
    reaction = "";
    saved = false;
    published_at = article.published_at;
  }

  -- List without scored items.
  unfoldable pub list_articles : List ArticlePreview → ℤ → List (FeedItem f.Float)
  unfolding item_of_article interleave_feed_items_by_source limit_feed_items
  list_articles articles limit =
      let sorted = sort_stable newer articles in
      limit_feed_items (interleave_feed_items_by_source (map item_of_article sorted))
        (pos (effective_limit limit (length sorted)))

  unfoldable pub list : MemoryFeed f.Float → List (FeedItem f.Float) → ℤ → List (FeedItem f.Float)
  unfolding list_scored list_articles
  list feed visited limit = elim feed.scored [
    | [] ↦ list_articles feed.articles limit
    | _ ∷ _ ↦ list_scored visited limit
  ]

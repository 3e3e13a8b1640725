-- ===== src/ArticleService/Ingest.antt =====
-- IngestUsecase of services/article-service/internal/usecase/ingest.go, over any ArticleStore. SHA-1
-- is the argument `digest`: the hexadecimal digits of the first eight bytes of the sum of a text.
pub mod Laws
use articleflow.Prelude.{◌≡◌, none, ◌&&◌, some, not, Option, if◌then◌else◌, String}
use Prim.Native.String
use articleflow.Go.Time.{Time}
use articleflow.Go.Text.{is_empty}
use articleflow.Go.Result.{Result, ok, err, ◌>>=◌}
use articleflow.Contracts.Article.{Article, SearchQuery}
use articleflow.Contracts.Events.{ArticleDiscoveredEvent, ArticleCreatedEvent, validate_discovered}
use articleflow.ArticleService.Store.{MemoryArticleStore, save}

-- What the use case needs of its store, whose state is `S`.
pub record ArticleStore (S : Type 0) : Type 0 where
  pub save_article : S → Article → S × Result Article

-- A store that keeps the first article of each URL, where a save may also fail. What `find` gives for
-- a URL stays; a save that succeeds returns what its URL finds, and changes nothing where that was known.
pub record KeepsFirst {S : Type 0} (store : ArticleStore S) (find : S → String → Option Article)
    : Type 0 where
  pub stays :
      (s : S) (a b : Article) (url : String)
      → find s url ≡ some b
      → find (store.save_article s a).0 url ≡ some b
  pub returned :
      (s : S) (a b : Article)
      → (store.save_article s a).1 ≡ ok b
      → find (store.save_article s a).0 a.url ≡ some b
  pub known : (s : S) (a b : Article) → find s a.url ≡ some b → (store.save_article s a).0 ≡ s

-- The store in memory, which never fails.
abbrev pub memory_store : ArticleStore MemoryArticleStore
memory_store = record {
  save_article = λ store article. let (store', saved) = save store article in (store', ok saved);
}

unfoldable pub stable_article_id : (String → String) → String → String
stable_article_id digest value = String.◌++◌ "article-" (digest value)

unfoldable pub article_id : (String → String) → ArticleDiscoveredEvent → String
unfolding stable_article_id
article_id digest event =
    if not (is_empty event.source_name) && not (is_empty event.external_id)
    then String.◌++◌ event.source_name (String.◌++◌ ":" event.external_id)
    else stable_article_id digest event.url

-- The article of an event, parsed now.
unfoldable pub article_of : (String → String) → Time → ArticleDiscoveredEvent → Article
unfolding article_id
article_of digest now event = record {
  id = article_id digest event;
  source_id = "";
  source_name = event.source_name;
  external_id = event.external_id;
  url = event.url;
  title = event.title;
  summary = event.summary;
  content = event.content;
  author = event.author;
  tags = event.tags;
  language = event.language;
  published_at = event.published_at;
  parsed_at = now;
}

unfoldable pub created_event : Article → ArticleCreatedEvent
created_event article = record {
  article_id = article.id;
  source_name = article.source_name;
  external_id = article.external_id;
  url = article.url;
  title = article.title;
  created_at = article.parsed_at;
  published_at = article.published_at;
}

-- `cancelled` is `ctx.Err()` once the context is done.
module _ {S : Type 0} (store : ArticleStore S) (digest : String → String) where
  unfoldable pub ingest_discovered :
      Option String → Time → S → ArticleDiscoveredEvent → S × Result ArticleCreatedEvent
  unfolding article_of created_event
  ingest_discovered cancelled now s event = elim (validate_discovered event) [
    | err e ↦ (s, err e)
    | ok _ ↦ elim cancelled [
      | some e ↦ (s, err e)
      | none ↦
          let (s', saved) = store.save_article s (article_of digest now event) in
          (s', saved >>= λ article. ok (created_event article))
    ]
  ]

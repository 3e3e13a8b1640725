-- ===== src/ArticleService/Store.antt =====
-- MemoryArticleStore of services/article-service/internal/usecase/ingest.go.
pub mod Laws
pub mod Search
use articleflow.Prelude.{
  none, take, ltb, drop, not, length, ◌&&◌, leb, false, true, Option, if◌then◌else◌, keep_if, ◌∷◌,
  ◌||◌, List, ℕ, [], Bool, String, some,
}
use articleflow.Prelude.Int.{ℤ, pos_part}
use articleflow.Go.Time.{Time, after, before_bound, after_bound}
use articleflow.Go.Text.{to_lower, trim_space, is_empty, join}
use articleflow.Go.Map.{Map, Set, lookup, insert, member}
use articleflow.Go.Sort.{sort_stable}
use articleflow.Contracts.Article.{Article, SearchQuery, normalize}
use articleflow.RoundRobin.{interleave}
use articleflow.ArticleService.Text.{
  clean_source, clean_source_order, search_terms, matches_all_terms, source_set, tag_set, set_of,
  article_has_any_tag,
}

pub record MemoryArticleStore : Type 0 where
  pub by_url : Map Article
  pub by_id : Map Article

abbrev pub new_store : MemoryArticleStore
new_store = record { by_url = []; by_id = [] }

unfoldable pub save : MemoryArticleStore → Article → MemoryArticleStore × Article
save store article = elim (lookup article.url store.by_url) [
  | some existing ↦ (store, existing)
  | none ↦ (
    record {
      by_url = insert article.url article store.by_url;
      by_id = insert article.id article store.by_id;
    },
    article,
  )
]

unfoldable pub find_by_url : MemoryArticleStore → String → Option Article
find_by_url store url = lookup url store.by_url

unfoldable pub get_by_id : MemoryArticleStore → String → Option Article
get_by_id store id = lookup id store.by_id

-- The text in which the terms of a query are looked for.
unfoldable pub search_text : Article → String
search_text article = to_lower (
    join
      (article.title
        ∷ article.summary
        ∷ article.content
        ∷ article.url
        ∷ article.author
        ∷ join article.tags " "
        ∷ [])
      " ")

abbrev pub is_nil {ℓ} : {A : Type ℓ} → List A → Bool
is_nil [] = true
is_nil (_ ∷ _) = false

-- The tests of the loop of Search: an article that fails one of them is passed over.
unfoldable pub matches : SearchQuery → Article → Bool
unfolding search_text
matches query article =
    let sources = source_set query.sources in
    let tags = tag_set query.tags in
    (is_nil sources || member (to_lower article.source_name) sources)
    && (is_nil tags || article_has_any_tag article tags)
    && not (before_bound article.published_at query.from_date)
    && not (after_bound article.published_at query.to_date)
    && matches_all_terms (search_text article) (search_terms query.text)

-- The source under which an article is filed.
unfoldable pub bucket_key : Article → String
unfolding clean_source
bucket_key article =
    let source = clean_source article.source_name in if is_empty source then "_unknown" else source

abbrev known_sources : List String → Set
known_sources [] = []
known_sources (source ∷ order) = insert source true (known_sources order)

unfoldable pub interleave_articles_by_source : List Article → List String → List Article
unfolding bucket_key
interleave_articles_by_source articles source_order =
    let order = clean_source_order source_order in
    interleave bucket_key order (known_sources order) articles

abbrev pub newer : Article → Article → Bool
newer a b = after a.published_at b.published_at

-- All that a query finds, in the order of the pages; `visited` is the store's articles in the order
-- in which Go ranges over them.
unfoldable pub found : List Article → SearchQuery → List Article
unfolding matches
found visited query =
    interleave_articles_by_source (sort_stable newer (keep_if (matches query) visited))
      query.sources

-- The page that the offset and the limit select.
unfoldable pub page : ℕ → ℕ → List Article → List Article
page offset limit articles =
    if leb (length articles) offset
    then []
    else let rest = drop offset articles in
      if ltb limit (length rest) then take limit rest else rest

unfoldable pub search : List Article → SearchQuery → List Article
unfolding found page
search visited query =
    let normal = normalize query in
    page (pos_part normal.offset) (pos_part normal.limit) (found visited normal)

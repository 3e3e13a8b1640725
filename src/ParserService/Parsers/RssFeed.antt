-- ===== src/ParserService/Parsers/RssFeed.antt =====
-- services/parser-service/internal/parsers/rssfeed/client.go: the search of an RSS or Atom feed.
-- `fetch` is the GET of the feed with its status and the items that encoding/xml reads, `parse_time`
-- the first layout of time.Parse that fits.
pub mod Laws
use articleflow.Go.Decimal.{itoa}
use articleflow.ParserService.Parsers.Texts.{first_non_empty}
use articleflow.Dedup.{dedup}
use articleflow.Prelude.{
  length, ◌&&◌, not, ◌==◌, leb, ◌||◌, [], map, any, ◌++◌, ltb, ℕ, ◌∷◌, none, true, some, Option,
  if◌then◌else◌, Bool, List, String,
}
use articleflow.Prelude.Int.{leb_ℤ, ltb_ℤ, ℤ, pos}
use articleflow.Go.Time.{Time}
use articleflow.Go.Text.{
  is_empty, trim_space, to_lower, fields, join, contains, cat, trim_cutset, rune_count,
}
use articleflow.Go.Result.{Result, ok, err}
use articleflow.Contracts.Parser.{ArticleCandidate, SearchQuery, normalize, validate}

pub record RssItem : Type 0 where
  pub title : String
  pub link : String
  pub guid : String
  pub description : String
  pub author : String
  pub categories : List String
  pub pub_date : String

pub record AtomLink : Type 0 where
  pub href : String
  pub rel : String

pub record AtomEntry : Type 0 where
  pub title : String
  pub id : String
  pub summary : String
  pub content : String
  pub updated : String
  pub published : String
  pub author_name : String
  pub links : List AtomLink
  pub tags : List String

-- The first link to the entry itself, if there is one.
unfoldable pub alternate_link : List AtomLink → Option String
alternate_link [] = none
alternate_link (link ∷ links) =
    let later = alternate_link links in
    if is_empty (trim_space link.rel) || link.rel == "alternate"
    then some (trim_space link.href)
    else later

unfoldable pub link_url : AtomEntry → String
unfolding alternate_link
link_url entry = elim (alternate_link entry.links) [
  | some href ↦ href
  | none ↦ elim entry.links [ [] ↦ "" | link ∷ _ ↦ trim_space link.href ]
]

-- The texts that are not blank, trimmed: Categories and cleanStrings.
unfoldable pub filled_texts : List String → List String
filled_texts [] = []
filled_texts (value ∷ values) =
    let later = filled_texts values in
    if is_empty (trim_space value) then later else trim_space value ∷ later

unfoldable pub item_of_entry : AtomEntry → RssItem
unfolding link_url filled_texts first_non_empty
item_of_entry entry = record {
  title = entry.title;
  link = link_url entry;
  guid = entry.id;
  description = first_non_empty (entry.summary ∷ entry.content ∷ []);
  author = entry.author_name;
  categories = filled_texts entry.tags;
  pub_date = first_non_empty (entry.published ∷ entry.updated ∷ []);
}

-- parseRSS once the XML is read as RSS and, where that has no items, as Atom.
unfoldable pub parse_rss : Result (List RssItem) → Result (List AtomEntry) → Result (List RssItem)
unfolding item_of_entry
parse_rss (err e) atom = err e
parse_rss (ok (item ∷ items)) atom = ok (item ∷ items)
parse_rss (ok []) (err e) = err e
parse_rss (ok []) (ok entries) = ok (map item_of_entry entries)

abbrev pub rss_stop_words : List String
rss_stop_words =
    "and" ∷ "for" ∷ "the" ∷ "with" ∷ "или" ∷ "как" ∷ "что" ∷ "для" ∷ "это" ∷ "про" ∷ "при" ∷ "без"
    ∷ "под" ∷ "над" ∷ "его" ∷ "её" ∷ "она" ∷ "они" ∷ "оно" ∷ "там" ∷ "тут" ∷ "все" ∷ "всё" ∷ []

-- Whether a term is left out: it is shorter than 3 characters, or a stop word.
unfoldable pub skips_term : String → Bool
unfolding rune_count
skips_term term = ltb (rune_count term) 3 || any (λ word. word == term) rss_stop_words

unfoldable pub meaningful_terms : String → List String
unfolding dedup fields to_lower trim_cutset skips_term
meaningful_terms text =
    dedup (λ term. trim_cutset term " \t\n\r.,!?;:()[]{}\"'`«»") (λ term. term) skips_term
      (fields (to_lower text))

abbrev pub item_text : RssItem → String
item_text item =
    to_lower (cat item.title (cat " " (cat item.description (cat " " (join item.categories " ")))))

unfoldable pub matches_terms : RssItem → List String → Bool
unfolding contains
matches_terms item [] = true
matches_terms item (term ∷ terms) = any (λ t. contains (item_text item) t) (term ∷ terms)

pub record FeedClient : Type 0 where
  pub source_name : String
  pub feed_url : String
  pub language : String

unfoldable pub new_feed_client : String → String → String → FeedClient
new_feed_client source_name feed_url language = record {
  source_name = trim_space source_name;
  feed_url = trim_space feed_url;
  language = if is_empty (trim_space language) then "ru" else trim_space language;
}

module _ (parse_time : String → Option Time) (client : FeedClient) where
  unfoldable pub candidate_of_item : RssItem → ArticleCandidate
  unfolding first_non_empty filled_texts
  candidate_of_item item = record {
    source_name = client.source_name;
    external_id = first_non_empty (item.guid ∷ item.link ∷ []);
    url = trim_space item.link;
    title = trim_space item.title;
    summary = trim_space item.description;
    content = trim_space item.description;
    author = trim_space item.author;
    tags = filled_texts item.categories;
    language = client.language;
    published_at = elim (parse_time (trim_space item.pub_date)) [ none ↦ 0 | some time ↦ time ];
  }

  -- The loop of Search, with the candidates it has so far.
  unfoldable pub collect_items :
      ℤ → List String → List ArticleCandidate → List RssItem → List ArticleCandidate
  unfolding matches_terms candidate_of_item
  collect_items limit terms candidates [] = candidates
  collect_items limit terms candidates (item ∷ items) =
      let taken = candidates ++ candidate_of_item item ∷ [] in
      let matched = matches_terms item terms in
      let rest = collect_items limit terms (if matched then taken else candidates) items in
      if matched && ltb_ℤ (pos 0) limit && leb_ℤ limit (pos (length taken)) then taken else rest

  -- Search from the response on.
  unfoldable pub read_items :
      SearchQuery → ℕ → Result (List RssItem) → Result (List ArticleCandidate)
  unfolding collect_items meaningful_terms cat itoa
  read_items query status items =
      if ltb status 200 || leb 300 status
      then err (cat "GET " (cat client.feed_url (cat " returned status " (itoa (pos status)))))
      else elim items [
        | err e ↦ err e
        | ok found ↦ ok (collect_items query.limit (meaningful_terms query.text) [] found)
      ]

  unfoldable pub search_feed :
      (String → Result (ℕ × Result (List RssItem) × Result (List AtomEntry)))
      → SearchQuery
      → Result (List ArticleCandidate)
  unfolding normalize validate read_items parse_rss
  search_feed fetch query =
      let asked = normalize query in
      elim (validate asked) [
        | err e ↦ err e
        | ok _ ↦
            if is_empty client.source_name
            then err "rss source name is required"
            else if is_empty client.feed_url
            then err "rss feed url is required"
            else elim (fetch client.feed_url) [
              | err e ↦ err e
              | ok (status, rss, atom) ↦ read_items asked status (parse_rss rss atom)
            ]
      ]

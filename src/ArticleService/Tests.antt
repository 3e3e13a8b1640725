-- ===== src/ArticleService/Tests.antt =====
-- Runs of the article service, and its theorems at concrete inputs.
use mathlib.Core.List.Perm
use articleflow.Prelude.{zero, suc, ℕ}
use articleflow.ArticleService.Consumer.Laws.{IsOrderly, messages, consume-IsOrderly}
use articleflow.ArticleService.Consumer.{closed, message, Message, consume, Fetched}
use articleflow.Contracts.Query.{clamp_limit, clamp_offset}
use articleflow.RoundRobin.{interleave}
use articleflow.Go.Sort.{sort_stable}
use articleflow.Dedup.{dedup}
use articleflow.Go.Map.{lookup, member, insert}
use articleflow.Contracts.Query.{clamp_limit}
use articleflow.Go.Text.{
  join, contains, trim_suffix, trim_space, trim_cutset, rune_count, to_lower, fields,
}
use articleflow.Prelude.{
  ◌==◌, if◌then◌else◌, suc, ℕ, refl, Option, arith, keep_if, ◌∷◌, Perm, ◌≡◌, [], none, map, List,
  some, String,
}
use articleflow.Prelude.Int.{pos}
use articleflow.Go.Time.{Time}
use articleflow.Go.Result.{ok, err}
use articleflow.Contracts.Article.{Article, SearchQuery, normalize}
use articleflow.Contracts.Events.{ArticleDiscoveredEvent, validate_discovered}
use articleflow.ArticleService.Text.{
  clean_source_order, matches_all_terms, tag_set, source_set, search_terms, normalize_tag,
}
use articleflow.ArticleService.Store.{
  new_store, save, find_by_url, matches, interleave_articles_by_source, search,
}
use articleflow.ArticleService.Store.Laws.{
  IsConsistent, new_store-IsConsistent, save-IsConsistent, save_first_wins, save_all,
}
use articleflow.ArticleService.Store.Search.{walk, walk-perm}
use articleflow.ArticleService.Ingest.{
  article_of, created_event, ArticleStore, KeepsFirst, memory_store, ingest_discovered,
}
use articleflow.ArticleService.Store.{MemoryArticleStore}
use articleflow.Go.Result.{Result}
use articleflow.Contracts.Events.{ArticleCreatedEvent}
use articleflow.Prelude.{Bool, true, false}
use articleflow.ArticleService.Ingest.Laws.{
  Call, ingest_call, ingest_all, ingest_again, memory_store-KeepsFirst,
}

abbrev event : String → String → String → Time → ArticleDiscoveredEvent
event source id url published = record {
  source_name = source;
  external_id = id;
  url = url;
  title = "Go и Postgres";
  summary = "";
  content = "";
  author = "";
  tags = "go" ∷ [];
  language = "ru";
  published_at = published;
  discovered_at = 9;
}

abbrev digest : String → String
digest url = "0123456789abcdef"

abbrev article : String → String → String → Time → Article
article source id url published = article_of digest 10 (event source id url published)

abbrev articles : List Article
articles =
    article "habr" "1" "https://habr.com/1" 5
    ∷ article "vc" "2" "https://vc.ru/2" 6
    ∷ article " Habr" "3" "https://habr.com/3" 7
    ∷ []

abbrev query : SearchQuery
query = record {
  text = " (go) and  Postgres ";
  sources = [];
  tags = [];
  from_date = none;
  to_date = none;
  limit = pos 0;
  offset = pos 0;
}

terms_test : search_terms "The «Go», и Postgres! x" ≡ "«go»" ∷ "postgres" ∷ []
unfolding search_terms fields to_lower rune_count trim_cutset
terms_test = refl

tag_test : normalize_tag " Golang* " ≡ "golang"
unfolding normalize_tag trim_space trim_suffix to_lower
tag_test = refl

search_test :
    map (λ (a : Article). a.url) (search articles query)
    ≡ "https://habr.com/3" ∷ "https://vc.ru/2" ∷ "https://habr.com/1" ∷ []
unfolding search normalize clamp_limit clamp_offset interleave_articles_by_source clean_source_order
    dedup article_of insert member lookup interleave sort_stable source_set tag_set
    matches_all_terms search_terms fields to_lower trim_space rune_count trim_cutset contains join
search_test = refl

save-IsConsistent_example : IsConsistent (save new_store (article "habr" "1" "u" 5)).0
save-IsConsistent_example =
    save-IsConsistent new_store (article "habr" "1" "u" 5) new_store-IsConsistent

save_first_wins_example :
    let saved = save new_store (article "habr" "1" "u" 5) in
    let later = save_all saved.0 (article "vc" "2" "v" 6 ∷ []) in
    (find_by_url later "u" ≡ some saved.1)
    × (save later (article "vc" "3" "u" 7) ≡ (later, saved.1))
unfolding article_of
save_first_wins_example =
    save_first_wins new_store (article "habr" "1" "u" 5) (article "vc" "2" "v" 6 ∷ [])
      (article "vc" "3" "u" 7) refl

-- The first request visits the articles in one order, all others in another one.
abbrev visits : ℕ → List Article
visits zero = articles
visits (suc n) =
    article "vc" "2" "https://vc.ru/2" 6
    ∷ article "habr" "1" "https://habr.com/1" 5
    ∷ article " Habr" "3" "https://habr.com/3" 7
    ∷ []

any_order : (offset : ℕ) → Perm articles (visits offset)
any_order zero = Perm.refl articles
any_order (suc n) = Perm.swap _ _ _

walk-perm_example : Perm (walk visits query 2 2 0) (keep_if (matches (normalize query)) articles)
unfolding matches normalize article_of source_set tag_set matches_all_terms search_terms fields
    to_lower trim_space rune_count trim_cutset contains join
walk-perm_example =
    walk-perm visits articles query 2 2 (omega arith) (omega arith) any_order refl (omega arith)

-- Two articles of one date: the second page has the article of the first one again.
abbrev tied : ℕ → List Article
tied zero = article "habr" "1" "u" 5 ∷ article "habr" "2" "v" 5 ∷ []
tied (suc n) = article "habr" "2" "v" 5 ∷ article "habr" "1" "u" 5 ∷ []

tied_test : map (λ (a : Article). a.url) (walk tied query 1 2 0) ≡ "u" ∷ "u" ∷ []
unfolding walk search normalize clamp_limit clamp_offset interleave_articles_by_source
    clean_source_order dedup article_of insert member lookup interleave sort_stable source_set
    tag_set matches_all_terms search_terms fields to_lower trim_space rune_count trim_cutset
    contains join
tied_test = refl

-- A store whose database is down for the articles of "vc".
abbrev is_down : Article → Bool
is_down a = a.source_name == "vc"

abbrev save_or_fail : Bool → MemoryArticleStore → Article → MemoryArticleStore × Result Article
save_or_fail true s a = (s, err "no connection")
save_or_fail false s a = memory_store.save_article s a

abbrev flaky_store : ArticleStore MemoryArticleStore
flaky_store = record { save_article = λ s a. save_or_fail (is_down a) s a }

stays :
    (down : Bool) (s : MemoryArticleStore) (a b : Article) (url : String)
    → find_by_url s url ≡ some b
    → find_by_url (save_or_fail down s a).0 url ≡ some b
stays true s a b url h = h
stays false s a b url h = memory_store-KeepsFirst.stays s a b url h

returned :
    (down : Bool) (s : MemoryArticleStore) (a b : Article)
    → (save_or_fail down s a).1 ≡ ok b
    → find_by_url (save_or_fail down s a).0 a.url ≡ some b
returned true s a b e = absurd (ground (arith, e))
returned false s a b e = memory_store-KeepsFirst.returned s a b e

known :
    (down : Bool) (s : MemoryArticleStore) (a b : Article)
    → find_by_url s a.url ≡ some b
    → (save_or_fail down s a).0 ≡ s
known true s a b e = refl
known false s a b e = memory_store-KeepsFirst.known s a b e

flaky_store-KeepsFirst : KeepsFirst flaky_store find_by_url
flaky_store-KeepsFirst = record {
  stays = λ s a b url h. stays (is_down a) s a b url h;
  returned = λ s a b e. returned (is_down a) s a b e;
  known = λ s a b e. known (is_down a) s a b e;
}

abbrev call : String → String → String → Call
call source id url = record { cancelled = none; now = 10; event = event source id url 5 }

abbrev after_first : MemoryArticleStore
after_first = (ingest_call flaky_store digest new_store (call "habr" "1" "u")).0

abbrev calls : List Call
calls = call "vc" "2" "u" ∷ call "habr" "3" "v" ∷ []

abbrev created : ArticleCreatedEvent
created = created_event (article "habr" "1" "u" 5)

ingest_again_example :
    let later = ingest_all flaky_store digest after_first calls in
    (created ≡ created) × ((ingest_call flaky_store digest later (call "lenta" "4" "u")).0 ≡ later)
unfolding ingest_discovered validate_discovered trim_space save insert lookup find_by_url
ingest_again_example =
    ingest_again flaky_store digest find_by_url flaky_store-KeepsFirst new_store
      (call "habr" "1" "u") calls (call "lenta" "4" "u") created created refl refl refl

abbrev packet : String → Message
packet value = record { topic = "article.discovered.v1"; key = ""; value = value }

abbrev counts : ℕ → Message → ℕ × Option String
counts n m = (suc n, none)

abbrev no_third : Message → Option String
no_third m = if m.value == "c" then some "broker is gone" else none

abbrev packets : List Fetched
packets = message (packet "a") ∷ message (packet "b") ∷ message (packet "c") ∷ closed ∷ []

handled_test :
    map (λ (m : Message). m.value) (consume counts no_third (pos 0) 0 packets).handled
    ≡ "a" ∷ "b" ∷ "c" ∷ []
unfolding consume
handled_test = refl

consume-IsOrderly_example :
    IsOrderly (pos 0) [] (messages packets) (consume counts no_third (pos 0) 0 packets)
consume-IsOrderly_example = consume-IsOrderly counts no_third (pos 0) 0 packets

-- ===== src/ParserService/Parsers/HabrClient.antt =====
-- services/parser-service/internal/parsers/habr/client.go. A request waits, is sent, and waits before
-- the next attempt; what each attempt meets is an argument, and so are net/url and ParseArticleHTML.
pub mod Laws
use articleflow.Prelude.Int.{pos, pos_part, ltb_ℤ, leb_ℤ, ℤ}
use articleflow.Go.Time.{is_zero}
use articleflow.ParserService.Parsers.Texts.{first_non_empty}
use articleflow.ParserService.Parsers.Habr.{limit_candidates}
use articleflow.Go.Text.{cat, trim_right_cutset, is_empty}
use articleflow.Go.Result.{ok, err, Result}
use articleflow.Prelude.Int.{leb_ℤ, ℤ}
use articleflow.Prelude.{
  true, false, ◌&&◌, none, some, map, suc, zero, [], if◌then◌else◌, ◌∷◌, Option, ℕ, List, String,
}
use articleflow.Contracts.Parser.{SearchQuery, ArticleCandidate, normalize, validate}
use articleflow.Contracts.Article.{Article}
use articleflow.Contracts.Events.{ArticleDiscoveredEvent}
use articleflow.ParserService.Parsers.Http.{SiteResponse, check_status, read_article}

pub record HabrClient : Type 0 where
  pub base_url : String
  pub max_attempts : ℤ
  pub retry_delay : ℤ

-- NewClient; the waiter and the client of HTTP are part of what an attempt meets.
unfoldable pub new_habr_client : String → ℤ → ℤ → HabrClient
unfolding trim_right_cutset
new_habr_client base_url max_attempts retry_delay =
    let base = trim_right_cutset base_url "/" in
    record {
      base_url = if is_empty base then "https://habr.com" else base;
      max_attempts = if leb_ℤ max_attempts (pos 0) then pos 3 else max_attempts;
      retry_delay = retry_delay;
    }

-- One attempt: the error of the wait before it, of making the request, and of the context while it
-- waits for the next attempt; and what the request gives.
pub record Attempt (A : Type 0) : Type 0 where
  pub wait : Option String
  pub request : Option String
  pub response : Result (SiteResponse A)
  pub cancelled : Option String

-- The loop of get from an attempt on, with `left` attempts, and the error of the one before.
unfoldable pub get_from :
    {A : Type 0}
    → HabrClient
    → String
    → (ℕ → Attempt A)
    → ℕ
    → ℕ
    → Result (SiteResponse A)
    → Result (SiteResponse A)
unfolding check_status
get_from client url attempts attempt zero last = last
get_from client url attempts attempt (suc left) last =
    let now = attempts attempt in
    elim now.wait [
      | some e ↦ err e
      | none ↦ elim now.request [
        | some e ↦ err e
        | none ↦ elim (check_status url now.response) [
          | ok response ↦ ok response
          | err e ↦
              elim (ltb_ℤ (pos attempt) client.max_attempts && ltb_ℤ (pos 0) client.retry_delay) [
                | false ↦ get_from client url attempts (suc attempt) left (err e)
                | true ↦ elim now.cancelled [
                  | some c ↦ err c
                  | none ↦ get_from client url attempts (suc attempt) left (err e)
                ]
              ]
        ]
      ]
    ]

-- get, where there is an attempt at least, as NewClient has it.
unfoldable pub get_habr :
    {A : Type 0} → HabrClient → String → (ℕ → Attempt A) → Result (SiteResponse A)
unfolding get_from
get_habr client url attempts =
    get_from client url attempts 1 (pos_part client.max_attempts) (err "no attempt")

unfoldable pub candidate_of_event : SearchQuery → ArticleDiscoveredEvent → ArticleCandidate
candidate_of_event query event = record {
  source_name = event.source_name;
  external_id = event.external_id;
  url = event.url;
  title = event.title;
  summary = event.summary;
  content = "";
  author = event.author;
  tags = event.tags;
  language = if is_empty event.language then query.language else event.language;
  published_at = event.published_at;
}

unfoldable pub candidates_from_events :
    List ArticleDiscoveredEvent → SearchQuery → List ArticleCandidate
unfolding candidate_of_event limit_candidates
candidates_from_events events query =
    limit_candidates query.limit (map (candidate_of_event query) events)

-- What the page of an article adds to its candidate.
unfoldable pub enrich_habr : ArticleCandidate → Article → ArticleCandidate
unfolding first_non_empty
enrich_habr candidate article = record candidate {
  title = first_non_empty (article.title ∷ candidate.title ∷ []);
  summary = first_non_empty (candidate.summary ∷ article.content ∷ []);
  content = article.content;
  author = first_non_empty (article.author ∷ candidate.author ∷ []);
  tags = elim article.tags [ [] ↦ candidate.tags | _ ∷ _ ↦ article.tags ];
  published_at =
      if is_zero article.published_at then candidate.published_at else article.published_at;
}

-- The parameters of the search, in the order of the calls that set them.
unfoldable pub search_parameters : SearchQuery → List (String × String)
search_parameters query =
    ("q", query.text)
    ∷ ("target_type", "posts")
    ∷ ("order_by", "relevance")
    ∷ ("hl", query.language)
    ∷ ("fl", query.language)
    ∷ []

module _ {A : Type 0} (encode : List (String × String) → String)
    (request_uri : String → Option String)
    (get_feed : String → Result (SiteResponse (List ArticleDiscoveredEvent)))
    (get_page : String → Result (SiteResponse A)) (parse : A → String → Article × Result (Unit {0}))
    (client : HabrClient) where
  unfoldable pub habr_search_url : SearchQuery → String
  unfolding search_parameters cat
  habr_search_url query =
      cat client.base_url (cat "/ru/rss/search/?" (encode (search_parameters query)))

  -- sourceURL; `request_uri` gives nothing for a URL that is not valid or has no path.
  unfoldable pub source_url : String → String
  unfolding cat
  source_url article_url = elim (request_uri article_url) [
    | none ↦ article_url
    | some uri ↦ cat client.base_url uri
  ]

  -- The loop over the candidates: the first error ends it.
  unfoldable pub enrich_habr_all : List ArticleCandidate → Result (List ArticleCandidate)
  unfolding source_url read_article enrich_habr
  enrich_habr_all [] = ok []
  enrich_habr_all (candidate ∷ candidates) = elim (get_page (source_url candidate.url)) [
    | err e ↦ err e
    | ok response ↦ elim (read_article (λ page. parse page candidate.url) response) [
      | err e ↦ err e
      | ok article ↦ elim (enrich_habr_all candidates) [
        | err e ↦ err e
        | ok rest ↦ ok (enrich_habr candidate article ∷ rest)
      ]
    ]
  ]

  unfoldable pub search_habr : SearchQuery → Result (List ArticleCandidate)
  unfolding normalize validate habr_search_url candidates_from_events enrich_habr_all
  search_habr query =
      let asked = normalize query in
      elim (validate asked) [
        | err e ↦ err e
        | ok _ ↦ elim (get_feed (habr_search_url asked)) [
          | err e ↦ err e
          | ok response ↦ elim response.body [
            | err e ↦ err e
            | ok events ↦ enrich_habr_all (candidates_from_events events asked)
          ]
        ]
      ]

-- ===== src/ParserService/Parsers/DzenClient.antt =====
-- services/parser-service/internal/parsers/dzen/client.go. The responses, net/url's encoding of a
-- query and ParseArticleHTML (`parse`) are arguments, and so are the order in which the workers have
-- their results ready and the clock once they have.
pub mod Laws
use articleflow.ParserService.Parsers.Workers.{collect_results, no_results}
use articleflow.Go.Map.{member}
use articleflow.Contracts.Article.{Article}
use articleflow.Dedup.{Kept}
use articleflow.Go.Decimal.{itoa}
use articleflow.Go.Result.{ok, err, Result}
use articleflow.ParserService.Parsers.Texts.{first_non_empty}
use articleflow.Prelude.Int.{pos_part, sub_ℕ, leb_ℤ, ltb_ℤ, pos, negsuc, ℤ}
use articleflow.ParserService.Parsers.DzenSearch.{
  SearchPage, parse_search_page, SearchDocument, SearchTools,
}
use articleflow.Go.Time.{is_zero, Time}
use articleflow.ParserService.Parsers.Urls.{keep_up_to, nothing_kept}
use articleflow.Go.Text.{trim_space, is_empty, contains, cat, trim_right_cutset, to_lower}
use articleflow.Prelude.{
  true, get_elem?, ◌==◌, leb, zero, length, ◌*◌, ◌+◌, ◌-◌, ◌||◌, ◌&&◌, ltb, if◌then◌else◌, false,
  not, ◌++◌, Bool, [], some, suc, none, ◌∷◌, ℕ, Option, List, String,
}
use articleflow.Contracts.Parser.{SearchQuery, normalize, ArticleCandidate}
use articleflow.ParserService.Parsers.Http.{candidate_of_article, SiteResponse, read_article}

pub record DzenClient : Type 0 where
  pub base_url : String
  pub public_base_url : String
  pub language : String

unfoldable pub new_dzen_client : String → String → String → DzenClient
unfolding trim_right_cutset first_non_empty
new_dzen_client base_url public_base_url language =
    let trimmed = trim_right_cutset (trim_space base_url) "/" in
    let base = if is_empty trimmed then "https://dzen.ru" else trimmed in
    let public_base = trim_right_cutset (trim_space public_base_url) "/" in
    record {
      base_url = base;
      public_base_url = if is_empty public_base then base else public_base;
      language = first_non_empty (language ∷ "ru" ∷ []);
    }

abbrev pub max_search_pages : ℕ
max_search_pages = 4

-- Five years of 365 days
abbrev pub max_dzen_article_age : ℕ
max_dzen_article_age = 157680000000000000

unfoldable pub search_url_target : ℤ → ℤ
search_url_target (negsuc n) = pos 50
search_url_target (pos zero) = pos 50
search_url_target (pos (suc n)) =
    pos (if ltb (suc n + 10) (suc n * 2) then suc n * 2 else suc n + 10)

-- An article that is older than the limit; one without a time is not. Sub is at most 0 for a time
-- to come, and as large as its type allows for one far back.
unfoldable pub is_stale_article : Time → Time → Bool
is_stale_article now published_at =
    not (is_zero published_at) && ltb max_dzen_article_age (now - published_at)

unfoldable pub is_auth_redirect : SearchTools → String → Bool
unfolding to_lower contains
is_auth_redirect tools final_url = elim (tools.parse_url final_url) [
  | none ↦ false
  | some url ↦
      contains (to_lower url.host) "passport.yandex." || contains (to_lower url.host) "login.vk.com"
]

-- A response of the site: where it came from, and where it leads.
pub record DzenResponse (A : Type 0) : Type 0 where
  pub response : SiteResponse A
  pub request_url : Option String
  pub location : String

unfoldable pub final_url : {A : Type 0} → String → DzenResponse A → String
final_url asked found = elim found.request_url [ none ↦ asked | some url ↦ url ]

-- get: the response and the URL it came from.
unfoldable pub check_dzen :
    {A : Type 0} → String → Result (DzenResponse A) → Result (SiteResponse A × String)
unfolding final_url cat itoa
check_dzen asked (err e) = err e
check_dzen asked (ok found) =
    let status = found.response.status in
    let message = cat "GET " (cat asked (cat " returned status " (itoa (pos status)))) in
    if ltb status 200 || leb 300 status
    then if is_empty found.location
      then err message
      else err (cat message (cat " redirecting to " found.location))
    else ok (found.response, final_url asked found)

-- The closure addURLs of collectSearchURLs.
unfoldable pub add_urls : ℤ → Kept → List String → Kept
unfolding keep_up_to
add_urls target kept urls = keep_up_to (λ url. url) (λ _. false) target kept urls

-- The candidates of the results in the order of the URLs, without stale ones, up to the limit.
unfoldable pub keep_fresh :
    Time → ℤ → List ArticleCandidate → List (Option ArticleCandidate) → List ArticleCandidate
unfolding is_stale_article
keep_fresh now limit candidates [] = candidates
keep_fresh now limit candidates (none ∷ results) = keep_fresh now limit candidates results
keep_fresh now limit candidates (some candidate ∷ results) =
    let taken = candidates ++ candidate ∷ [] in
    let stale = is_stale_article now candidate.published_at in
    let rest = keep_fresh now limit (if stale then candidates else taken) results in
    if not stale && ltb_ℤ (pos 0) limit && leb_ℤ limit (pos (length taken)) then taken else rest

module _ {A : Type 0} (tools : SearchTools) (build_url : String → List (String × String) → String)
    (get_search : String → Result (DzenResponse SearchDocument))
    (get_article : String → Result (DzenResponse A))
    (parse : A → String → Article × Result (Unit {0})) (client : DzenClient) where
  unfoldable pub fetch_url : String → String
  fetch_url article_url = elim (tools.parse_url client.base_url) [
    | none ↦ article_url
    | some base ↦ elim (tools.parse_url client.public_base_url) [
      | none ↦ article_url
      | some public_base ↦ elim (tools.parse_url article_url) [
        | none ↦ article_url
        | some parsed ↦
            if parsed.host == public_base.host
            then tools.url_text (record parsed { scheme = base.scheme; host = base.host })
            else article_url
      ]
    ]
  ]

  unfoldable pub dzen_search_url : String → String
  unfolding cat trim_space
  dzen_search_url query =
      build_url (cat client.base_url "/search")
        (("query", trim_space query) ∷ ("type_filter", "article,brief") ∷ [])

  unfoldable pub fetch_candidate : String → Option ArticleCandidate
  unfolding fetch_url check_dzen read_article candidate_of_article
  fetch_candidate article_url =
      elim (check_dzen (fetch_url article_url) (get_article (fetch_url article_url))) [
        | err _ ↦ none
        | ok (response, _) ↦ elim (read_article (λ page. parse page article_url) response) [
          | err _ ↦ none
          | ok article ↦ some (candidate_of_article "dzen" client.language article)
        ]
      ]

  -- What the worker of a job has for its index.
  unfoldable pub fetched_at : List String → ℕ → Option ArticleCandidate
  unfolding fetch_candidate
  fetched_at urls index = elim (get_elem? urls index) [
    | none ↦ none
    | some url ↦ fetch_candidate url
  ]

  unfoldable pub fetch_candidates : List ℕ → Time → List String → ℤ → List ArticleCandidate
  unfolding keep_fresh collect_results fetched_at
  fetch_candidates arrivals now urls limit =
      keep_fresh now limit [] (collect_results (fetched_at urls) arrivals (no_results urls))

  -- The page behind a link, where its request, its body and its Close have no error.
  unfoldable pub next_search_page : String → ℤ → Option SearchPage
  unfolding fetch_url check_dzen parse_search_page
  next_search_page more_url left =
      elim (check_dzen (fetch_url more_url) (get_search (fetch_url more_url))) [
        | err _ ↦ none
        | ok (response, found_at) ↦
            elim (parse_search_page tools response.body found_at client.public_base_url left) [
              | err _ ↦ none
              | ok page ↦ elim response.close [ some _ ↦ none | none ↦ some page ]
            ]
      ]

  -- The loop over the further pages, with the number of pages it may still read.
  unfoldable pub more_pages : ℕ → ℤ → String → Kept → Kept
  unfolding next_search_page add_urls
  more_pages zero target more_url kept = kept
  more_pages (suc pages) target more_url kept =
      elim (not (is_empty more_url)
        && (leb_ℤ target (pos 0) || ltb_ℤ (pos (length kept.values)) target)) [
          | false ↦ kept
          | true ↦ elim (next_search_page more_url (sub_ℕ (pos_part target) (length kept.values))) [
            | none ↦ kept
            | some page ↦ more_pages pages target page.more_url (add_urls target kept page.urls)
          ]
        ]

  unfoldable pub collect_search_urls : Result SearchDocument → String → ℤ → Result (List String)
  unfolding parse_search_page more_pages add_urls search_url_target
  collect_search_urls body found_at limit =
      let target = search_url_target limit in
      elim (parse_search_page tools body found_at client.public_base_url target) [
        | err e ↦ err e
        | ok page ↦
            ok
              (more_pages (max_search_pages - 1) target page.more_url
                (add_urls target nothing_kept page.urls)).values
      ]

  unfoldable pub search_dzen : (ℕ → List ℕ) → Time → SearchQuery → Result (List ArticleCandidate)
  unfolding normalize dzen_search_url check_dzen is_auth_redirect collect_search_urls
      fetch_candidates cat
  search_dzen arrivals now query =
      let asked = normalize query in
      let url = dzen_search_url asked.text in
      elim (check_dzen url (get_search url)) [
        | err e ↦ err e
        | ok (response, found_at) ↦
            if is_auth_redirect tools found_at
            then err (cat "dzen search redirected to auth: " found_at)
            else elim (collect_search_urls response.body found_at asked.limit) [
              | err e ↦ err e
              | ok urls ↦ ok (fetch_candidates (arrivals (length urls)) now urls asked.limit)
            ]
      ]

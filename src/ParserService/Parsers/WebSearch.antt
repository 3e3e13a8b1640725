-- ===== src/ParserService/Parsers/WebSearch.antt =====
-- services/parser-service/internal/parsers/websearch/searcher.go: the URLs of one site that a search
-- engine finds. `fetch` is the GET of a URL's parameters, with its status and the links that are
-- decoded; `parse_url` is net/url's parse.
use articleflow.ParserService.Parsers.Texts.{first_non_empty}
use articleflow.Dedup.{dedup}
use articleflow.Prelude.{
  ◌==◌, not, some, none, leb, ◌||◌, [], ◌∷◌, ltb, ℕ, List, if◌then◌else◌, Option, String,
}
use articleflow.Prelude.Int.{ltb_ℤ, leb_ℤ, ℤ, pos}
use articleflow.Go.Text.{trim_space, to_lower, cat, trim_prefix, is_empty}
use articleflow.Go.Result.{Result, ok, err}
use articleflow.Go.Decimal.{itoa}

-- What the code reads of a parsed URL: `cleaned` is its text without query and fragment.
pub record ParsedUrl : Type 0 where
  pub scheme : String
  pub host : String
  pub cleaned : String

pub record GoogleSearcher : Type 0 where
  pub endpoint : String
  pub api_key : String
  pub cx : String
  pub site : String

pub record BingSearcher : Type 0 where
  pub endpoint : String
  pub api_key : String
  pub site : String

abbrev pub default_google_endpoint : String
default_google_endpoint = "https://www.googleapis.com/customsearch/v1"

abbrev pub default_bing_endpoint : String
default_bing_endpoint = "https://api.bing.microsoft.com/v7.0/search"

unfoldable pub new_google_searcher : String → String → String → String → GoogleSearcher
unfolding first_non_empty
new_google_searcher endpoint api_key cx site = record {
  endpoint = first_non_empty (endpoint ∷ default_google_endpoint ∷ []);
  api_key = trim_space api_key;
  cx = trim_space cx;
  site = first_non_empty (site ∷ "vc.ru" ∷ []);
}

unfoldable pub new_bing_searcher : String → String → String → BingSearcher
unfolding first_non_empty
new_bing_searcher endpoint api_key site = record {
  endpoint = first_non_empty (endpoint ∷ default_bing_endpoint ∷ []);
  api_key = trim_space api_key;
  site = first_non_empty (site ∷ "vc.ru" ∷ []);
}

unfoldable pub site_query : String → String → String
unfolding cat
site_query site query = cat "site:" (cat (trim_space site) (cat " " (trim_space query)))

unfoldable pub normalize_limit : ℤ → ℤ
normalize_limit limit =
    if leb_ℤ limit (pos 0) then pos 10 else if ltb_ℤ (pos 10) limit then pos 10 else limit

-- A host without "www."
unfoldable pub bare_host : String → String
unfolding to_lower trim_prefix
bare_host host = trim_prefix (to_lower host) "www."

module _ (parse_url : String → Option ParsedUrl) where
  -- The cleaned URL, empty where the URL is none or of another site.
  unfoldable pub site_url : String → String → String
  unfolding bare_host
  site_url site value = elim (parse_url (trim_space value)) [
    | none ↦ ""
    | some parsed ↦
        if is_empty parsed.scheme || is_empty parsed.host || not (bare_host parsed.host == site)
        then ""
        else parsed.cleaned
  ]

  unfoldable pub filter_site_urls : List String → String → List String
  unfolding site_url dedup
  filter_site_urls values site =
      dedup (site_url (bare_host (trim_space site))) (λ url. url) is_empty values

  -- getJSON, which fails where the status is not one of success.
  unfoldable pub checked_links : String → Result (ℕ × Result (List String)) → Result (List String)
  unfolding cat itoa
  checked_links request_url (err e) = err e
  checked_links request_url (ok (status, links)) =
      if ltb status 200 || leb 300 status
      then err (cat "GET " (cat request_url (cat " returned status " (itoa (pos status)))))
      else links

  unfoldable pub google_search_urls :
      (String → List (String × String) → String)
      → (String → Result (ℕ × Result (List String)))
      → GoogleSearcher
      → String
      → ℤ
      → Result (List String)
  unfolding site_query normalize_limit checked_links filter_site_urls
  google_search_urls encode fetch searcher query limit =
      let request_url = encode searcher.endpoint (
        ("key", searcher.api_key)
        ∷ ("cx", searcher.cx)
        ∷ ("q", site_query searcher.site query)
        ∷ ("num", itoa (normalize_limit limit))
        ∷ []) in
      if is_empty searcher.api_key || is_empty searcher.cx
      then err "google search api key and cx are required"
      else elim (checked_links request_url (fetch request_url)) [
        | err e ↦ err e
        | ok links ↦ ok (filter_site_urls links searcher.site)
      ]

  -- The key goes into a header, which `fetch` gets first.
  unfoldable pub bing_search_urls :
      (String → List (String × String) → String)
      → (String → String → Result (ℕ × Result (List String)))
      → BingSearcher
      → String
      → ℤ
      → Result (List String)
  unfolding site_query normalize_limit checked_links filter_site_urls
  bing_search_urls encode fetch searcher query limit =
      let request_url = encode searcher.endpoint (
        ("q", site_query searcher.site query)
        ∷ ("count", itoa (normalize_limit limit))
        ∷ ("responseFilter", "Webpages")
        ∷ []) in
      if is_empty searcher.api_key
      then err "bing search api key is required"
      else elim (checked_links request_url (fetch searcher.api_key request_url)) [
        | err e ↦ err e
        | ok links ↦ ok (filter_site_urls links searcher.site)
      ]

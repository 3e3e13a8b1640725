-- ===== src/ParserService/Parsers/VcDiscovery.antt =====
-- services/parser-service/internal/parsers/vc/discovery.go: the search for URLs page by page.
-- `build_url` is net/url's Parse and Encode, `fetch` the GET of a URL with the answer that is decoded.
pub mod Laws
use articleflow.Go.Map.{insert, member}
use articleflow.Go.Decimal.{itoa}
use articleflow.Prelude.Int.{pos_part, ltb_ℤ, leb_ℤ, pos, ℤ}
use articleflow.Go.Result.{ok, err, Result}
use articleflow.Dedup.{Kept}
use articleflow.Go.Text.{is_empty, trim_space}
use articleflow.Prelude.{
  zero, eqb, false, true, none, suc, length, ◌||◌, ◌==◌, ◌++◌, ◌&&◌, some, not, ◌∷◌, Bool, ℕ, [],
  if◌then◌else◌, Option, List, String,
}
use articleflow.ParserService.Parsers.Urls.{keep_up_to, nothing_kept}
use articleflow.ParserService.Parsers.Http.{check_status, SiteResponse}

pub record DiscoveryItem : Type 0 where
  pub kind : String
  pub url : String

pub record DiscoveryResponse : Type 0 where
  pub cursor : String
  pub last_id : ℤ
  pub last_sorting_value : ℤ
  pub items : List DiscoveryItem

pub record DiscoveryPage : Type 0 where
  pub cursor : String
  pub last_id : ℤ
  pub last_sorting_value : ℤ

abbrev pub first_page : DiscoveryPage
first_page = record { cursor = ""; last_id = pos 0; last_sorting_value = pos 0 }

unfoldable pub normalize_discovery_limit : ℤ → ℤ
normalize_discovery_limit limit =
    if leb_ℤ limit (pos 0) then pos 20 else if ltb_ℤ (pos 100) limit then pos 100 else limit

unfoldable pub next_discovery_page : DiscoveryResponse → Option DiscoveryPage
next_discovery_page payload =
    let cursor = trim_space payload.cursor in
    if is_empty cursor
      && (leb_ℤ payload.last_id (pos 0) || leb_ℤ payload.last_sorting_value (pos 0))
    then none
    else some (record {
      cursor = cursor;
      last_id = payload.last_id;
      last_sorting_value = payload.last_sorting_value;
    })

-- The parameters that searchURL sets, in the order of its calls.
unfoldable pub page_parameters : String → DiscoveryPage → List (String × String)
unfolding itoa
page_parameters query page =
    ("markdown", "false")
      ∷ ("q", query)
      ∷ (if ltb_ℤ (pos 0) page.last_id then ("lastId", itoa page.last_id) ∷ [] else [])
    ++ (if ltb_ℤ (pos 0) page.last_sorting_value
        then ("lastSortingValue", itoa page.last_sorting_value) ∷ []
        else [])
    ++ (if is_empty page.cursor then [] else ("cursor", page.cursor) ∷ [])

-- An item that is no entry.
unfoldable pub is_other_item : DiscoveryItem → Bool
is_other_item item = not (is_empty item.kind) && not (item.kind == "entry")

-- appendDiscoveryURLs; `clean` is cleanURL.
unfoldable pub append_discovery_urls : (String → String) → ℤ → Kept → List DiscoveryItem → Kept
unfolding keep_up_to is_other_item
append_discovery_urls clean limit kept items =
    keep_up_to (λ item. clean item.url) is_other_item limit kept items

-- searchPage, with the answer of its request.
unfoldable pub search_page :
    (String → List (String × String) → Result String)
    → String
    → (String → Result (SiteResponse DiscoveryResponse))
    → String
    → DiscoveryPage
    → Result DiscoveryResponse
unfolding page_parameters check_status
search_page build_url endpoint fetch query page =
    elim (build_url endpoint (page_parameters query page)) [
      | err e ↦ err e
      | ok url ↦ elim (check_status url (fetch url)) [ err e ↦ err e | ok response ↦ response.body ]
    ]

-- `fetch` gives the answer to a URL in each round, which is named by the rounds that are left: the site
-- may answer one URL with different pages.
module _ (clean : String → String) (build_url : String → List (String × String) → Result String)
    (fetch : ℕ → String → Result (SiteResponse DiscoveryResponse)) (endpoint : String) where
  -- The loop of SearchURLs; it gives nothing where `rounds` are too few.
  unfoldable pub discover : ℕ → ℤ → String → DiscoveryPage → Kept → Option (Result (List String))
  unfolding search_page append_discovery_urls next_discovery_page
  discover zero limit query page kept = none
  discover (suc rounds) limit query page kept = elim (ltb_ℤ (pos (length kept.values)) limit) [
    | false ↦ some (ok kept.values)
    | true ↦ elim (search_page build_url endpoint (fetch rounds) query page) [
      | err e ↦ some (err e)
      | ok payload ↦
          let added = append_discovery_urls clean limit kept payload.items in
          elim (eqb (length added.values) (length kept.values)) [
            | true ↦ some (ok added.values)
            | false ↦ elim (next_discovery_page payload) [
              | none ↦ some (ok added.values)
              | some next ↦ discover rounds limit query next added
            ]
          ]
    ]
  ]

  -- SearchURLs: one round more than URLs are asked for.
  unfoldable pub search_urls : String → ℤ → Option (Result (List String))
  unfolding discover normalize_discovery_limit
  search_urls query limit =
      let asked = trim_space query in
      let most = normalize_discovery_limit limit in
      if is_empty asked
      then some (ok [])
      else discover (suc (pos_part most)) most asked first_page nothing_kept

-- ===== src/ParserService/Parsers/VcDiscovery/Laws.antt =====
-- The search page by page ends, within its limit.
use articleflow.Go.Result.{Result-cases, ok, err, Result}
use articleflow.Prelude.Int.{◌≤ℤ◌, ℤ}
use articleflow.ParserService.Parsers.VcDiscovery.{
  next_discovery_page, is_other_item, search_page, first_page, ltb_ℤ, trim_space, pos_part,
  is_empty, DiscoveryPage, append_discovery_urls, search_urls, discover, DiscoveryResponse, pos,
  SiteResponse, normalize_discovery_limit,
}
use articleflow.Prelude.{
  refl, zero, Option-cases, eqb, suc, inr, [], ◌+◌, ◌<◌, inl, length, Bool-cases, some, ℕ, ◌≡◌,
  arith, List, String,
}
use articleflow.ParserService.Parsers.Urls.{nothing_kept}
use articleflow.ParserService.Parsers.Urls.Laws.{
  keep_up_to_lem, nothing_kept-IsUrls, IsUrlList, IsUrls,
}
use articleflow.Dedup.{Kept}

normalize_discovery_limit-positive : (limit : ℤ) → pos 1 ≤ℤ normalize_discovery_limit limit
unfolding normalize_discovery_limit
normalize_discovery_limit-positive limit = ground arith

-- At most `limit` URLs, none of them empty, each once, or an error.
abbrev pub IsOutcome : ℤ → Result (List String) → Type 0
IsOutcome limit (err e) = Unit
IsOutcome limit (ok urls) = IsUrlList limit urls

module _ (clean : String → String) (build_url : String → List (String × String) → Result String)
    (fetch : ℕ → String → Result (SiteResponse DiscoveryResponse)) (endpoint : String) where
  discover_lem :
      (rounds : ℕ) (limit : ℤ) (query : String) (page : DiscoveryPage) (kept : Kept)
      → IsUrls kept
      → pos (length kept.values) ≤ℤ limit
      → pos_part limit < rounds + length kept.values
      → (result : Result (List String)) × (discover clean build_url fetch endpoint rounds limit
            query page kept
          ≡ some result)
        × IsOutcome limit result
  unfolding discover append_discovery_urls
  discover_lem zero limit query page kept h within enough = absurd (omega (arith, within, enough))
  discover_lem (suc rounds) limit query page kept h within enough =
      elim (Bool-cases (ltb_ℤ (pos (length kept.values)) limit)) [
        | inr full ↦ rw (discover, full) (ok kept.values, refl, (within, h.distinct, h.filled))
        | inl room ↦
            elim (Result-cases (search_page build_url endpoint (fetch rounds) query page)) [
              | inr (e, failed) ↦ rw (discover, room, failed) (err e, refl, tt)
              | inl (payload, found) ↦
                  let added = append_discovery_urls clean limit kept payload.items in
                  let (fine, short, longer) =
                    keep_up_to_lem (λ item. clean item.url) is_other_item limit kept payload.items h
                      (ground (arith, room)) in
                  elim (Bool-cases (eqb (length added.values) (length kept.values))) [
                    | inl same ↦
                        rw (discover, room, found, same)
                          (ok added.values, refl, (short, fine.distinct, fine.filled))
                    | inr grown ↦ elim (Option-cases (next_discovery_page payload)) [
                      | inl last ↦
                          rw (discover, room, found, grown, last)
                            (ok added.values, refl, (short, fine.distinct, fine.filled))
                      | inr (next, more) ↦
                          rw (discover, room, found, grown, more)
                            (discover_lem rounds limit query next added fine short
                              (ground (arith, enough, grown, longer)))
                    ]
                  ]
            ]
      ]

  -- SearchURLs ends: the rounds of its loop are enough, whatever the pages say. If it reports no error,
  -- it gives at most as many URLs as its limit allows, none of them empty, each once.
  pub search_urls_lem :
      (query : String) (limit : ℤ)
      → (result : Result (List String)) × (search_urls clean build_url fetch endpoint query limit
          ≡ some result)
        × IsOutcome (normalize_discovery_limit limit) result
  unfolding search_urls
  search_urls_lem query limit =
      let most = normalize_discovery_limit limit in
      let some_room = normalize_discovery_limit-positive limit in
      elim (Bool-cases (is_empty (trim_space query))) [
        | inl blank ↦ rw (search_urls, blank) (ok [], refl, (omega (arith, some_room), tt, tt))
        | inr asked ↦
            rw (search_urls, asked)
              (discover_lem (suc (pos_part most)) most (trim_space query) first_page nothing_kept
                nothing_kept-IsUrls (omega (arith, some_room)) (omega arith))
      ]

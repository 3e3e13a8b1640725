-- ===== src/ParserService/Parsers/DzenClient/Laws.antt =====
-- The results of the workers, in whatever order they come, and the URLs of the pages.
use articleflow.ParserService.Parsers.Workers.{no_results}
use articleflow.ParserService.Parsers.Workers.Laws.{
  indexes_from, get_elem?-append, collect_results-perm, collect_results-in_order,
}
use articleflow.Go.Result.{Result-cases}
use articleflow.ParserService.Parsers.Urls.Laws.{
  nothing_kept-IsUrls, keep_up_to_lem, IsUrlList, IsUrls,
}
use articleflow.ParserService.Parsers.DzenClient.{
  max_search_pages, nothing_kept, parse_search_page, fetch_candidate, keep_fresh, pos, Kept, Time,
  ok, fetched_at, add_urls, ℤ, collect_search_urls, more_pages, search_url_target, fetch_candidates,
  DzenClient, Article, SearchDocument, DzenResponse, Result, SearchTools,
}
use articleflow.Prelude.{
  subst, ◌-◌, false, inl, inr, sym, ◌∙◌, map, refl, zero, ap, arith, Perm, [], suc, length, ◌≡◌, ℕ,
  List, String,
}
use mathlib.Core.Logic.{∥∥₁_elim}
use text.Mathlib.TextEquality.{IsScalar-prop}
use articleflow.Prelude.Int.{◌≤ℤ◌, negsuc, pos_part, sub_ℕ, leb_ℤ, ltb_ℤ}
use articleflow.Prelude.{Bool-cases, Option-cases, not, ◌&&◌, ◌||◌}
use articleflow.Go.Text.{is_empty}
use articleflow.Contracts.Parser.{ArticleCandidate}
use articleflow.ParserService.Parsers.DzenClient.{next_search_page}

candidates_set : IsSet (List ArticleCandidate)
candidates_set = hlevel IsScalar-prop

module _ {A : Type 0} (tools : SearchTools) (build_url : String → List (String × String) → String)
    (get_search : String → Result (DzenResponse SearchDocument))
    (get_article : String → Result (DzenResponse A))
    (parse : A → String → Article × Result (Unit {0})) (client : DzenClient) where
  -- The four workers of fetchCandidates may have their results ready in any order: the candidates are
  -- those of the URLs one by one, in the order of the URLs.
  pub fetch_candidates-perm :
      (arrivals : List ℕ) (now : Time) (urls : List String) (limit : ℤ)
      → Perm arrivals (indexes_from 0 urls)
      → fetch_candidates tools build_url get_search get_article parse client arrivals now urls limit
        ≡ keep_fresh now limit []
            (map (fetch_candidate tools build_url get_search get_article parse client) urls)
  unfolding fetch_candidates fetched_at
  fetch_candidates-perm arrivals now urls limit any_order =
      ∥∥₁_elim any_order (candidates_set _ _) (λ d. ap (keep_fresh now limit []) (
        collect_results-perm (fetched_at tools build_url get_search get_article parse client urls)
          arrivals (indexes_from 0 urls) (no_results urls) d
        ∙ collect_results-in_order
            (fetched_at tools build_url get_search get_article parse client urls)
            (fetch_candidate tools build_url get_search get_article parse client) [] urls [] refl
            (λ after x pre same. rw (fetched_at, sym same, get_elem?-append pre after x) refl)))

  search_url_target-positive : (limit : ℤ) → pos 1 ≤ℤ search_url_target limit
  unfolding search_url_target
  search_url_target-positive (negsuc n) = omega arith
  search_url_target-positive (pos zero) = omega arith
  search_url_target-positive (pos (suc n)) = ground arith

  more_pages_lem :
      (pages : ℕ) (target : ℤ) (more_url : String) (kept : Kept)
      → IsUrls kept
      → pos (length kept.values) ≤ℤ target
      → pos 1 ≤ℤ target
      → IsUrlList target
          (more_pages tools build_url get_search get_article parse client pages target more_url
            kept).values
  unfolding more_pages add_urls
  more_pages_lem zero target more_url kept h within positive = (within, h.distinct, h.filled)
  more_pages_lem (suc pages) target more_url kept h within positive =
      elim (Bool-cases (
        not (is_empty more_url)
        && (leb_ℤ target (pos 0) || ltb_ℤ (pos (length kept.values)) target))) [
          | inr done ↦ rw (more_pages, done) (within, h.distinct, h.filled)
          | inl wanted ↦
              elim (Option-cases (
                next_search_page tools build_url get_search get_article parse client more_url
                  (sub_ℕ (pos_part target) (length kept.values)))) [
                    | inl failed ↦ rw (more_pages, wanted, failed) (within, h.distinct, h.filled)
                    | inr (page, found) ↦
                        let (fine, short, longer) =
                          keep_up_to_lem (λ url. url) (λ _. false) target kept page.urls h
                            (ground (arith, wanted, positive)) in
                        rw (more_pages, wanted, found)
                          (more_pages_lem pages target page.more_url
                            (add_urls target kept page.urls) fine short positive)
                  ]
        ]

  -- collectSearchURLs gives at most as many URLs as it aims for, none of them empty, each once, over
  -- all the pages it reads.
  pub collect_search_urls_lem :
      (body : Result SearchDocument) (found_at : String) (limit : ℤ) (urls : List String)
      → collect_search_urls tools build_url get_search get_article parse client body found_at limit
        ≡ ok urls
      → IsUrlList (search_url_target limit) urls
  unfolding collect_search_urls add_urls
  collect_search_urls_lem body found_at limit urls h =
      let target = search_url_target limit in
      let positive = search_url_target-positive limit in
      elim (Result-cases (parse_search_page tools body found_at client.public_base_url target)) [
        | inr (e, failed) ↦ absurd cc
        | inl (page, found) ↦
            let (fine, short, longer) =
              keep_up_to_lem (λ url. url) (λ _. false) target nothing_kept page.urls
                nothing_kept-IsUrls positive in
            let all_pages =
              more_pages_lem (max_search_pages - 1) target page.more_url
                (add_urls target nothing_kept page.urls) fine short positive in
            let pages =
              more_pages tools build_url get_search get_article parse client (max_search_pages - 1)
                target page.more_url (add_urls target nothing_kept page.urls) in
            let reads : collect_search_urls tools build_url get_search get_article parse client body
                  found_at limit
                ≡ ok pages.values =
              rw (collect_search_urls, found) refl in
            let same : pages.values ≡ urls = cc in subst (IsUrlList target) same all_pages
      ]

-- ===== src/ParserService/Parsers/RssFeed/Laws.antt =====
-- What the search of a feed returns.
use mathlib.Core.List.{append-nil, append_assoc}
use articleflow.Prelude.{
  false, zero, take, keep_if, keep_if_pos, keep_if_neg, map, sym, ◌⊎◌, ◌∙◌, ◌+◌,
}
use articleflow.Prelude.Int.{negsuc, pos_part}
use articleflow.Contracts.Parser.Laws.{normalize-IsNormal}
use articleflow.Prelude.{
  ap, leb, ◌||◌, ltb, refl, ℕ, length-append, [], ◌++◌, inl, inr, Bool-cases, ◌∷◌, arith, true,
  length, suc, ◌≡◌, List, Option, String,
}
use articleflow.Prelude.Int.{ℤ, pos, ltb_ℤ, leb_ℤ, ◌≤ℤ◌}
use articleflow.Go.Time.{Time}
use articleflow.Go.Result.{Result-cases, Result, ok, err}
use articleflow.Contracts.Parser.{ArticleCandidate, SearchQuery, normalize, validate}
use articleflow.ParserService.Parsers.RssFeed.{
  is_empty, read_items, FeedClient, RssItem, AtomEntry, collect_items, candidate_of_item,
  search_feed, matches_terms, meaningful_terms, parse_rss,
}

zero-or-suc : (n : ℕ) → (n ≡ 0) ⊎ ((m : ℕ) × (n ≡ suc m))
zero-or-suc zero = inl refl
zero-or-suc (suc m) = inr (m, refl)

positive_lem : (z : ℤ) → pos 1 ≤ℤ z → (n : ℕ) × (z ≡ pos (suc n))
positive_lem (pos zero) h = absurd (omega arith)
positive_lem (pos (suc n)) h = (n, refl)
positive_lem (negsuc n) h = absurd (omega arith)

module _ (parse_time : String → Option Time) (client : FeedClient) where
  -- The candidates of the first items, up to a number, that have one of the terms, where there are terms.
  abbrev pub first_matches : List String → ℕ → List RssItem → List ArticleCandidate
  first_matches terms most items =
      map (candidate_of_item parse_time client)
        (take most (keep_if (λ item. matches_terms item terms) items))

  collect_items_lem :
      (n most : ℕ) (terms : List String) (candidates : List ArticleCandidate) (items : List RssItem)
      → most ≡ length candidates + suc n
      → collect_items parse_time client (pos most) terms candidates items
        ≡ candidates ++ first_matches terms (suc n) items
  unfolding collect_items
  collect_items_lem n most terms candidates [] room = sym (append-nil candidates)
  collect_items_lem n most terms candidates (item ∷ items) room =
      let p = λ (i : RssItem). matches_terms i terms in
      let one = candidate_of_item parse_time client item ∷ [] in
      let longer = length-append candidates one in
      elim (Bool-cases (matches_terms item terms)) [
        | inr skipped ↦
            rw (collect_items, skipped, keep_if_neg p item items skipped)
              (collect_items_lem n most terms candidates items room)
        | inl hit ↦
            let positive : ltb_ℤ (pos 0) (pos most) ≡ true = ground (arith, room) in
            elim (zero-or-suc n) [
              | inl last ↦
                  let full : leb_ℤ (pos most) (pos (length (candidates ++ one))) ≡ true =
                    ground (arith, room, longer, last) in
                  rw (collect_items, hit, positive, full, keep_if_pos p item items hit, last) refl
              | inr (m, more) ↦
                  let open_end : leb_ℤ (pos most) (pos (length (candidates ++ one))) ≡ false =
                    ground (arith, room, longer, more) in
                  let rest =
                    collect_items_lem m most terms (candidates ++ one) items
                      (omega (arith, room, longer, more)) in
                  rw (collect_items, hit, positive, open_end, keep_if_pos p item items hit, more)
                    (rest ∙ append_assoc candidates one (first_matches terms (suc m) items))
            ]
      ]

  -- What a search that succeeds has read and returns.
  abbrev pub IsAnswer :
      (String → Result (ℕ × Result (List RssItem) × Result (List AtomEntry)))
      → SearchQuery
      → List ArticleCandidate
      → Type 0
  IsAnswer fetch query candidates =
      (status : ℕ) × (rss : Result (List RssItem)) × (atom : Result (List AtomEntry))
      × (items : List RssItem) × (fetch client.feed_url ≡ ok (status, rss, atom))
      × (parse_rss rss atom ≡ ok items)
      × (candidates ≡ first_matches (meaningful_terms query.text) (pos_part query.limit) items)

  read_items_lem :
      (query : SearchQuery) (status : ℕ) (items : Result (List RssItem))
      (candidates : List ArticleCandidate)
      → read_items parse_time client (normalize query) status items ≡ ok candidates
      → (found : List RssItem) × (items ≡ ok found)
        × (candidates
            ≡ first_matches
                (meaningful_terms (normalize query).text)
                (pos_part (normalize query).limit)
                found)
  unfolding read_items
  read_items_lem query status items candidates e =
      let terms = meaningful_terms (normalize query).text in
      elim (Bool-cases (ltb status 200 || leb 300 status)) [
        | inl bad ↦ ground (arith, rw (read_items, bad) at e)
        | inr good ↦ elim (Result-cases items) [
          | inr (message, e') ↦ ground (arith, rw (read_items, good, e') at e)
          | inl (found, e') ↦
              let (n, positive) =
                positive_lem (normalize query).limit (normalize-IsNormal query).limit_low in
              let same : ok (collect_items parse_time client (normalize query).limit terms [] found)
                  ≡ ok candidates =
                rw (read_items, good, e') at e in
              let collected : collect_items parse_time client (normalize query).limit terms [] found
                  ≡ first_matches terms (pos_part (normalize query).limit) found =
                rw positive (collect_items_lem n (suc n) terms [] found (omega arith)) in
              (
                found,
                e',
                sym (
                      ap
                        (λ (r : Result (List ArticleCandidate)). elim r [ ok cs ↦ cs | err _ ↦ [] ])
                        same)
                    ∙ collected,
              )
        ]
      ]

  -- A search of a feed that succeeds returns the items of the feed that it fetched which have one of
  -- the meaningful terms of the query, all items where the query has none, in the order of the feed:
  -- the first ones, up to the limit of the normalised query.
  pub search_feed_lem :
      (fetch : String → Result (ℕ × Result (List RssItem) × Result (List AtomEntry)))
      (query : SearchQuery) (candidates : List ArticleCandidate)
      → search_feed parse_time client fetch query ≡ ok candidates
      → IsAnswer fetch (normalize query) candidates
  unfolding search_feed
  search_feed_lem fetch query candidates e = elim (Result-cases (validate (normalize query))) [
    | inr (message, invalid) ↦ ground (arith, rw (search_feed, invalid) at e)
    | inl (done, valid) ↦ elim (Bool-cases (is_empty client.source_name)) [
      | inl nameless ↦ ground (arith, rw (search_feed, valid, nameless) at e)
      | inr named ↦ elim (Bool-cases (is_empty client.feed_url)) [
        | inl nowhere ↦ ground (arith, rw (search_feed, valid, named, nowhere) at e)
        | inr linked ↦ elim (Result-cases (fetch client.feed_url)) [
          | inr (message, failed) ↦
              ground (arith, rw (search_feed, valid, named, linked, failed) at e)
          | inl ((status, rss, atom), fetched) ↦
              let (items, read, same) =
                read_items_lem query status (parse_rss rss atom) candidates
                  (rw (search_feed, valid, named, linked, fetched) at e) in
              (status, rss, atom, items, fetched, read, same)
        ]
      ]
    ]
  ]

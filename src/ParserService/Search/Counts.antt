-- ===== src/ParserService/Search/Counts.antt =====
-- How many candidates SearchAndPublish returns.
use articleflow.ParserService.Search.Gathering.{gather_all-keeps, publish_gathered-result}
use articleflow.Go.Result.{Result-cases}
use articleflow.Prelude.{
  ◌∙◌, inl, inr, Option, Bool, String, ◌≡◌, ◌+◌, ℕ, suc, List, [], ◌∷◌, ◌++◌, refl, length, min,
  map, arith, length-append,
}
use articleflow.Prelude.Int.{ℤ, pos_part}
use articleflow.RoundRobin.Columns.{leftover}
use articleflow.RoundRobin.Limited.{length-rounds_limited}
use articleflow.Contracts.Parser.{validate, normalize, SearchQuery, ArticleCandidate, SourceStats}
use articleflow.ParserService.Search.Sources.{
  failed_stats, found_stats, ScoredCandidate, SourceCandidateBucket,
}
use articleflow.ParserService.Search.{
  accepted, pass_over, publish_gathered, count_candidates_by_source, selected_sources,
  nothing_gathered, gather_all, found_stats, failed_stats, gather_failure, gather_found,
  search_and_publish, Usecase, Time, Event, Char, Map, set_published, set_returned, UrlPackage,
  interleave_candidate_buckets, candidates_of, round_fuel,
}

abbrev pub total_accepted : List SourceStats → ℕ
total_accepted [] = 0
total_accepted (stats ∷ rest) = stats.accepted_count + total_accepted rest

total_accepted-append :
    (stats rest : List SourceStats)
    → total_accepted (stats ++ rest) ≡ total_accepted stats + total_accepted rest
total_accepted-append [] rest = omega arith
total_accepted-append (s ∷ stats) rest = omega (arith, total_accepted-append stats rest)

-- The candidates of the buckets together.
abbrev pub total_candidates : List SourceCandidateBucket → ℕ
total_candidates [] = 0
total_candidates (bucket ∷ buckets) = length bucket.scored_candidates + total_candidates buckets

total_candidates-append :
    (buckets rest : List SourceCandidateBucket)
    → total_candidates (buckets ++ rest) ≡ total_candidates buckets + total_candidates rest
total_candidates-append [] rest = omega arith
total_candidates-append (b ∷ buckets) rest = omega (arith, total_candidates-append buckets rest)

length-candidates_of :
    (scored : List ScoredCandidate)
    → length (map {B = ArticleCandidate} (λ s. s.candidate) scored) ≡ length scored
length-candidates_of [] = refl
length-candidates_of (s ∷ scored) = omega (arith, length-candidates_of scored)

length-leftover :
    (buckets : List SourceCandidateBucket)
    → length (leftover 0 (map candidates_of buckets)) ≡ total_candidates buckets
length-leftover [] = refl
length-leftover (bucket ∷ buckets) = omega (
  arith,
  length-append (candidates_of bucket) (leftover 0 (map candidates_of buckets)),
  length-candidates_of bucket.scored_candidates,
  length-leftover buckets,
)

pub round_fuel_lem :
    (lists : List (List ArticleCandidate)) → round_fuel lists ≡ suc (length (leftover 0 lists))
round_fuel_lem [] = refl
round_fuel_lem (list ∷ lists) =
    omega (arith, round_fuel_lem lists, length-append list (leftover 0 lists))

length-interleave_candidate_buckets :
    (buckets : List SourceCandidateBucket) (limit : ℤ)
    → length (interleave_candidate_buckets buckets limit)
      ≡ min (pos_part limit) (total_candidates buckets)
unfolding interleave_candidate_buckets
length-interleave_candidate_buckets [] limit = omega arith
length-interleave_candidate_buckets (bucket ∷ buckets) limit =
    let lists = map candidates_of (bucket ∷ buckets) in
    ground (
      arith,
      length-rounds_limited (round_fuel lists) (pos_part limit) lists,
      round_fuel_lem lists,
      length-leftover (bucket ∷ buckets),
    )

total_accepted-returned :
    (counts : Map ℕ) (stats : List SourceStats)
    → total_accepted (set_returned counts stats) ≡ total_accepted stats
unfolding set_returned
total_accepted-returned counts [] = refl
total_accepted-returned counts (s ∷ stats) = omega (arith, total_accepted-returned counts stats)

total_accepted-published :
    (counts : Map ℕ) (stats : List SourceStats)
    → total_accepted (set_published counts stats) ≡ total_accepted stats
unfolding set_published
total_accepted-published counts [] = refl
total_accepted-published counts (s ∷ stats) = omega (arith, total_accepted-published counts stats)

module _ (urls : UrlPackage) (digest : String → String) (is_word : Char → Bool)
    (publish : Event → Option String) (clock : ℕ → Time) (elapsed : ℕ → ℕ) (usecase : Usecase)
    (query : SearchQuery) where
  gathered-total :
      (sources : List String)
      → let s =
          gather_all urls digest is_word publish clock elapsed usecase query nothing_gathered
            sources in
        total_accepted s.stats ≡ total_candidates s.buckets
  unfolding gather_found gather_failure failed_stats found_stats
  gathered-total sources =
      gather_all-keeps urls digest is_word publish clock elapsed usecase query
        (λ s. total_accepted s.stats ≡ total_candidates s.buckets)
        (λ s source parser message h. omega (
          arith,
          total_accepted-append s.stats
              (failed_stats source parser (elapsed (length s.stats)) message ∷ []),
        ))
        (λ s source parser candidates h.
          let pass =
            pass_over urls digest is_word query source
              (record { seen = s.seen_candidates; filtered = 0; scored = []; zero_score = [] })
              candidates in
          let stats =
            found_stats source parser (elapsed (length s.stats)) (length candidates) pass in
          let bucket : SourceCandidateBucket = record {
            source = source;
            scored_candidates = accepted pass;
          } in
          ground (
            arith,
            total_accepted-append s.stats (stats ∷ []),
            total_candidates-append s.buckets (bucket ∷ []),
          ))
        nothing_gathered sources refl

module _ (urls : UrlPackage) (digest : String → String) (is_word : Char → Bool)
    (publish : Event → Option String) (clock : ℕ → Time) (elapsed : ℕ → ℕ) (usecase : Usecase)
    (query : SearchQuery) where
  -- For every query and whatever the sources and the producer do, the result has as many candidates as
  -- the sources have accepted together, up to the limit of the normalised query.
  pub length-search_and_publish :
      let result =
        (search_and_publish urls digest is_word publish clock elapsed usecase query).result in
      length result.candidates
      ≡ min (pos_part (normalize query).limit) (total_accepted result.source_stats)
  unfolding search_and_publish
  length-search_and_publish = elim (Result-cases (validate (normalize query))) [
    | inr (e, invalid) ↦ rw (search_and_publish, invalid) (omega arith)
    | inl (done, valid) ↦
        let normal = normalize query in
        let s =
          gather_all urls digest is_word publish clock elapsed usecase normal nothing_gathered
            (selected_sources usecase normal) in
        let counts =
          count_candidates_by_source (interleave_candidate_buckets s.buckets normal.limit) in
        let (same, stats) =
          publish_gathered-result urls digest is_word publish clock elapsed usecase normal s in
        let gathered =
          gathered-total urls digest is_word publish clock elapsed usecase normal
            (selected_sources usecase normal) in
        let searched = publish_gathered urls digest is_word publish clock elapsed normal s in
        let returned = total_accepted-returned counts s.stats ∙ gathered in
        let total : total_accepted searched.result.source_stats ≡ total_candidates s.buckets =
          elim stats [
            | inl e ↦ rw e returned
            | inr e ↦
                rw e (total_accepted-published counts (set_returned counts s.stats) ∙ returned)
          ] in
        rw (search_and_publish, valid, total, same)
          (length-interleave_candidate_buckets s.buckets normal.limit)
  ]

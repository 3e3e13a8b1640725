-- ===== src/ParserService/Search/Stats.antt =====
-- The counts that SearchAndPublish reports of each source.
use articleflow.ParserService.Search.Gathering.{publish_gathered-result, gather_all-keeps}
use articleflow.Go.Result.{Result-cases}
use articleflow.ParserService.Search.{
  interleave_candidate_buckets, count_candidates_by_source, selected_sources, Map, set_published,
  set_returned, search_and_publish, nothing_gathered, gather_all, gather_failure, gather_found,
  Event,
}
use articleflow.Prelude.{
  ◌||◌, eqb, Bool-cases, refl, inr, length-perm, eq_iff, inl, List-cases, length-append, ◌+◌, ◌≤◌,
  ◌≡◌, ◌≢◌, ℕ, suc, List, [], ◌∷◌, length, arith, String, All, All-append, Option, Bool,
}
use Prim.Native.Char.{Char}
use articleflow.Go.Time.{Time}
use articleflow.Go.Sort.{sort_stable-perm}
use articleflow.Contracts.Parser.{
  normalize, validate, source_ok, source_empty, source_failed, ArticleCandidate, SearchQuery,
  SourceStats,
}
use articleflow.ParserService.Search.Candidates.{
  normalize_candidate, candidate_relevance_score, UrlPackage,
}
use articleflow.ParserService.Search.Sources.{
  ranks_before, ScoredCandidate, sort_scored_candidates, Parser, Usecase, Pass, place_candidate,
  pass_over, accepted, all_filtered, failed_stats, found_stats,
}

-- The candidates that a pass has taken.
abbrev pub taken : Pass → ℕ
taken pass = pass.filtered + length pass.scored + length pass.zero_score

module _ (urls : UrlPackage) (digest : String → String) (is_word : Char → Bool)
    (query : SearchQuery) where
  place_candidate-taken :
      (pass : Pass) (candidate : ArticleCandidate)
      → taken (place_candidate urls digest is_word query pass candidate) ≡ suc (taken pass)
  unfolding place_candidate
  place_candidate-taken pass candidate =
      let score = candidate_relevance_score is_word candidate query.text in
      let item : List ScoredCandidate = record { candidate = candidate; score = score } ∷ [] in
      ground (arith, length-append pass.scored item, length-append pass.zero_score item)

  pub pass_over-taken :
      (source : String) (pass : Pass) (candidates : List ArticleCandidate)
      → taken (pass_over urls digest is_word query source pass candidates)
        ≡ taken pass + length candidates
  unfolding pass_over
  pass_over-taken source pass [] = omega arith
  pass_over-taken source pass (candidate ∷ candidates) =
      let candidate' = normalize_candidate urls digest candidate source query in
      let pass' = place_candidate urls digest is_word query pass candidate' in
      omega (arith, pass_over-taken source pass' candidates, place_candidate-taken pass candidate')

failed_ne_ok : source_failed ≢ source_ok
failed_ne_ok = ground (arith, eq_iff source_failed source_ok)

empty_ne_ok : source_empty ≢ source_ok
empty_ne_ok = ground (arith, eq_iff source_empty source_ok)

pub length-accepted : (pass : Pass) → all_filtered pass + length (accepted pass) ≡ taken pass
unfolding accepted all_filtered sort_scored_candidates
length-accepted pass = elim (List-cases pass.scored) [
  | inl e ↦
      let same : length (accepted pass) ≡ length pass.zero_score =
        rw (accepted, e) (length-perm (sort_stable-perm ranks_before pass.zero_score)) in
      rw (all_filtered, same, e) (omega arith)
  | inr (item, items, e) ↦
      let same : length (accepted pass) ≡ length (item ∷ items) =
        rw (accepted, e) (length-perm (sort_stable-perm ranks_before (item ∷ items))) in
      rw (all_filtered, same, e) (omega arith)
]

-- What the statistics of a source say of its counts: each candidate is accepted or filtered, none of
-- a source that failed is counted, and only a source that is ok has accepted ones.
pub record IsBalanced (stats : SourceStats) : Type 0 where
  pub all_counted : stats.found_count ≡ stats.accepted_count + stats.filtered_count
  pub ok_accepts : stats.status ≡ source_ok → 1 ≤ stats.accepted_count
  pub accepts_ok : 1 ≤ stats.accepted_count → stats.status ≡ source_ok
  pub failed_says : stats.status ≢ source_failed → stats.error ≡ ""

failed_stats-IsBalanced :
    (source : String) (parser : Parser) (elapsed : ℕ) (message : String)
    → IsBalanced (failed_stats source parser elapsed message)
unfolding failed_stats
failed_stats-IsBalanced source parser elapsed message = record {
  all_counted = refl;
  ok_accepts = λ e. absurd (failed_ne_ok e);
  accepts_ok = λ h. absurd (omega arith);
  failed_says = λ h. absurd (h refl);
}

found_stats-IsBalanced :
    (source : String) (parser : Parser) (elapsed found : ℕ) (pass : Pass)
    → found ≡ taken pass
    → IsBalanced (found_stats source parser elapsed found pass)
unfolding found_stats
found_stats-IsBalanced source parser elapsed found pass h = record {
  all_counted = omega (arith, length-accepted pass);
  ok_accepts = λ e. elim (Bool-cases (eqb found 0 || eqb (length (accepted pass)) 0)) [
    | inl none_left ↦ absurd (empty_ne_ok (rw none_left at e))
    | inr some_left ↦ ground arith
  ];
  accepts_ok = λ e. ground (arith, length-accepted pass);
  failed_says = λ e. refl;
}

module _ (urls : UrlPackage) (digest : String → String) (is_word : Char → Bool)
    (publish : Event → Option String) (clock : ℕ → Time) (elapsed : ℕ → ℕ) (usecase : Usecase)
    (query : SearchQuery) where
  gathered-IsBalanced :
      (sources : List String)
      → All IsBalanced
          (gather_all urls digest is_word publish clock elapsed usecase query nothing_gathered
            sources).stats
  unfolding gather_found gather_failure
  gathered-IsBalanced sources =
      gather_all-keeps urls digest is_word publish clock elapsed usecase query
        (λ s. All IsBalanced s.stats)
        (λ s source parser message h.
          All-append IsBalanced s.stats _ h
            (failed_stats-IsBalanced source parser (elapsed (length s.stats)) message, tt))
        (λ s source parser candidates h.
          let start : Pass = record {
            seen = s.seen_candidates;
            filtered = 0;
            scored = [];
            zero_score = [];
          } in
          let pass = pass_over urls digest is_word query source start candidates in
          let counted : length candidates ≡ taken pass =
            omega (arith, pass_over-taken urls digest is_word query source start candidates) in
          let found = length candidates in
          let balanced =
            found_stats-IsBalanced source parser (elapsed (length s.stats)) found pass counted in
          All-append IsBalanced s.stats _ h (balanced, tt))
        nothing_gathered sources tt

IsBalanced-returned :
    (counts : Map ℕ) (stats : List SourceStats)
    → All IsBalanced stats
    → All IsBalanced (set_returned counts stats)
unfolding set_returned
IsBalanced-returned counts [] h = tt
IsBalanced-returned counts (s ∷ stats) (p, h) = (
  record {
    all_counted = p.all_counted;
    ok_accepts = p.ok_accepts;
    accepts_ok = p.accepts_ok;
    failed_says = p.failed_says;
  },
  IsBalanced-returned counts stats h,
)

IsBalanced-published :
    (counts : Map ℕ) (stats : List SourceStats)
    → All IsBalanced stats
    → All IsBalanced (set_published counts stats)
unfolding set_published
IsBalanced-published counts [] h = tt
IsBalanced-published counts (s ∷ stats) (p, h) = (
  record {
    all_counted = p.all_counted;
    ok_accepts = p.ok_accepts;
    accepts_ok = p.accepts_ok;
    failed_says = p.failed_says;
  },
  IsBalanced-published counts stats h,
)

module _ (urls : UrlPackage) (digest : String → String) (is_word : Char → Bool)
    (publish : Event → Option String) (clock : ℕ → Time) (elapsed : ℕ → ℕ) (usecase : Usecase)
    (query : SearchQuery) where
  -- For every query and whatever the sources and the producer do, each reported source has as many
  -- candidates found as accepted and filtered together, it is ok exactly if some are accepted, and it
  -- has no error unless it failed.
  pub search_and_publish-IsBalanced :
      All IsBalanced
        (search_and_publish urls digest is_word publish clock elapsed usecase
          query).result.source_stats
  unfolding search_and_publish
  search_and_publish-IsBalanced = elim (Result-cases (validate (normalize query))) [
    | inr (e, invalid) ↦ rw (search_and_publish, invalid) tt
    | inl (done, valid) ↦
        let s =
          gather_all urls digest is_word publish clock elapsed usecase (normalize query)
            nothing_gathered (selected_sources usecase (normalize query)) in
        let counts =
          count_candidates_by_source
            (interleave_candidate_buckets s.buckets (normalize query).limit) in
        let gathered =
          gathered-IsBalanced urls digest is_word publish clock elapsed usecase (normalize query)
            (selected_sources usecase (normalize query)) in
        let returned = IsBalanced-returned counts s.stats gathered in
        let (same, stats) =
          publish_gathered-result urls digest is_word publish clock elapsed usecase
            (normalize query) s in
        rw (search_and_publish, valid)
          (elim stats [
            | inl e ↦ rw e returned
            | inr e ↦ rw e (IsBalanced-published counts _ returned)
          ])
  ]

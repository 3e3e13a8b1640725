-- ===== src/ParserService/Search/Quality.antt =====
-- Which candidates SearchAndPublish returns.
use articleflow.RoundRobin.Members.{All-rounds_limited}
use articleflow.Prelude.{
  ◌||◌, eqb, Bool-cases, subst, List-cases, ◌≡◌, ℕ, List, [], ◌∷◌, String, Option, Bool, inl, inr,
  length, map, All, All-append, arith, true, false,
}
use Prim.Native.Char.{Char}
use articleflow.Prelude.Int.{ℤ, pos, pos_part, leb_ℤ}
use articleflow.Go.Text.{is_empty}
use articleflow.Go.Time.{Time, is_zero, before_bound, after_bound}
use articleflow.Prelude.{◌⊎◌, ◌≤◌, some, none}
use articleflow.Go.Sort.{sort_stable-All}
use articleflow.Go.Result.{Result-cases}
use articleflow.Contracts.Parser.{ArticleCandidate, SearchQuery, normalize, validate}
use articleflow.ParserService.Search.Candidates.{
  has_seen_candidate, candidate_relevance_score, candidate_dedup_keys, normalize_candidate,
  UrlPackage, candidate_within_date_range,
}
use articleflow.ParserService.Search.Sources.{
  ranks_before, sort_scored_candidates, Usecase, ScoredCandidate, SourceCandidateBucket, Pass,
  place_candidate, pass_over, accepted,
}
use articleflow.ParserService.Search.{
  gather_failure, gather_found, selected_sources, Event, gather_all, nothing_gathered,
  interleave_candidate_buckets, candidates_of, round_fuel, search_and_publish,
}
use articleflow.ParserService.Search.Gathering.{gather_all-keeps, publish_gathered-result}

-- Not before, and not after, a bound that is set.
abbrev pub NotBefore : Time → Option Time → Type 0
NotBefore t none = Unit
NotBefore t (some bound) = bound ≤ t

abbrev pub NotAfter : Time → Option Time → Type 0
NotAfter t none = Unit
NotAfter t (some bound) = t ≤ bound

-- What a candidate needs to be published.
pub record IsAcceptable (query : SearchQuery) (candidate : ArticleCandidate) : Type 0 where
  pub has_url : is_empty candidate.url ≡ false
  pub has_title : is_empty candidate.title ≡ false
  pub in_range :
      (candidate.published_at ≡ 0)
      ⊎ (NotBefore candidate.published_at query.from_date
          × NotAfter candidate.published_at query.to_date)

not_before : (t : Time) (bound : Option Time) → before_bound t bound ≡ false → NotBefore t bound
not_before t none h = tt
not_before t (some bound) h = ground (arith, h)

not_after : (t : Time) (bound : Option Time) → after_bound t bound ≡ false → NotAfter t bound
not_after t none h = tt
not_after t (some bound) h = ground (arith, h)

candidate_within_date_range_lem :
    (candidate : ArticleCandidate) (query : SearchQuery)
    → candidate_within_date_range candidate query ≡ true
    → (candidate.published_at ≡ 0)
      ⊎ (NotBefore candidate.published_at query.from_date
          × NotAfter candidate.published_at query.to_date)
unfolding candidate_within_date_range
candidate_within_date_range_lem candidate query h =
    elim (Bool-cases (is_zero candidate.published_at)) [
      | inl dateless ↦ inl (ground (arith, dateless))
      | inr dated ↦ inr (
        not_before candidate.published_at query.from_date (ground (arith, h, dated)),
        not_after candidate.published_at query.to_date (ground (arith, h, dated)),
      )
    ]

abbrev IsAcceptableScored : SearchQuery → ScoredCandidate → Type 0
IsAcceptableScored query scored = IsAcceptable query scored.candidate

abbrev IsAcceptablePass : SearchQuery → Pass → Type 0
IsAcceptablePass query pass =
    All (IsAcceptableScored query) pass.scored × All (IsAcceptableScored query) pass.zero_score

module _ (urls : UrlPackage) (digest : String → String) (is_word : Char → Bool)
    (query : SearchQuery) where
  place_candidate-IsAcceptable :
      (pass : Pass) (candidate : ArticleCandidate)
      → IsAcceptablePass query pass
      → IsAcceptablePass query (place_candidate urls digest is_word query pass candidate)
  unfolding place_candidate
  place_candidate-IsAcceptable pass candidate (h, k) =
      let keys = candidate_dedup_keys is_word candidate in
      let score = candidate_relevance_score is_word candidate query.text in
      elim (Bool-cases (is_empty candidate.url || is_empty candidate.title)) [
        | inl bare ↦ rw (place_candidate, bare) (h, k)
        | inr named ↦ elim (Bool-cases (candidate_within_date_range candidate query)) [
          | inr outside ↦ rw (place_candidate, named, outside) (h, k)
          | inl inside ↦ elim (Bool-cases (has_seen_candidate pass.seen keys)) [
            | inl repeated ↦ rw (place_candidate, named, inside, repeated) (h, k)
            | inr fresh ↦
                let good : IsAcceptable query candidate = record {
                  has_url = ground arith;
                  has_title = ground arith;
                  in_range = candidate_within_date_range_lem candidate query inside;
                } in
                elim (Bool-cases (eqb score 0)) [
                  | inl nothing ↦
                      rw (place_candidate, named, inside, fresh, nothing)
                        (h, All-append (IsAcceptableScored query) pass.zero_score _ k (good, tt))
                  | inr some_score ↦
                      rw (place_candidate, named, inside, fresh, some_score)
                        (All-append (IsAcceptableScored query) pass.scored _ h (good, tt), k)
                ]
          ]
        ]
      ]

  pass_over-IsAcceptable :
      (source : String) (pass : Pass) (candidates : List ArticleCandidate)
      → IsAcceptablePass query pass
      → IsAcceptablePass query (pass_over urls digest is_word query source pass candidates)
  unfolding pass_over
  pass_over-IsAcceptable source pass [] h = h
  pass_over-IsAcceptable source pass (candidate ∷ candidates) h =
      let candidate' = normalize_candidate urls digest candidate source query in
      pass_over-IsAcceptable source (place_candidate urls digest is_word query pass candidate')
        candidates (place_candidate-IsAcceptable pass candidate' h)

accepted-IsAcceptable :
    (query : SearchQuery) (pass : Pass)
    → IsAcceptablePass query pass
    → All (IsAcceptableScored query) (accepted pass)
unfolding accepted sort_scored_candidates
accepted-IsAcceptable query pass (h, k) = elim (List-cases pass.scored) [
  | inl e ↦
      rw (accepted, e) (sort_stable-All ranks_before (IsAcceptableScored query) pass.zero_score k)
  | inr (item, items, e) ↦
      let all : All (IsAcceptableScored query) (item ∷ items) =
        subst (All (IsAcceptableScored query)) e h in
      rw (accepted, e) (sort_stable-All ranks_before (IsAcceptableScored query) (item ∷ items) all)
]

abbrev IsAcceptableBucket : SearchQuery → SourceCandidateBucket → Type 0
IsAcceptableBucket query bucket = All (IsAcceptableScored query) bucket.scored_candidates

candidates_of-IsAcceptable :
    (query : SearchQuery) (scored : List ScoredCandidate)
    → All (IsAcceptableScored query) scored
    → All (IsAcceptable query) (map (λ s. s.candidate) scored)
candidates_of-IsAcceptable query [] h = tt
candidates_of-IsAcceptable query (s ∷ scored) (p, h) =
    (p, candidates_of-IsAcceptable query scored h)

lists-IsAcceptable :
    (query : SearchQuery) (buckets : List SourceCandidateBucket)
    → All (IsAcceptableBucket query) buckets
    → All (All (IsAcceptable query)) (map candidates_of buckets)
lists-IsAcceptable query [] h = tt
lists-IsAcceptable query (bucket ∷ buckets) (p, h) = (
  candidates_of-IsAcceptable query bucket.scored_candidates p,
  lists-IsAcceptable query buckets h,
)

interleave_candidate_buckets-IsAcceptable :
    (query : SearchQuery) (buckets : List SourceCandidateBucket) (limit : ℤ)
    → All (IsAcceptableBucket query) buckets
    → All (IsAcceptable query) (interleave_candidate_buckets buckets limit)
unfolding interleave_candidate_buckets
interleave_candidate_buckets-IsAcceptable query [] limit h = tt
interleave_candidate_buckets-IsAcceptable query (bucket ∷ buckets) limit h =
    let lists = map candidates_of (bucket ∷ buckets) in
    elim (Bool-cases (leb_ℤ limit (pos 0))) [
      | inl no_limit ↦ rw (interleave_candidate_buckets, no_limit) tt
      | inr some_limit ↦
          rw (interleave_candidate_buckets, some_limit)
            (All-rounds_limited (IsAcceptable query) (round_fuel lists) (pos_part limit) lists
              (lists-IsAcceptable query (bucket ∷ buckets) h))
    ]

module _ (urls : UrlPackage) (digest : String → String) (is_word : Char → Bool)
    (publish : Event → Option String) (clock : ℕ → Time) (elapsed : ℕ → ℕ) (usecase : Usecase)
    (query : SearchQuery) where
  gathered-IsAcceptable :
      (sources : List String)
      → All
          (IsAcceptableBucket query)
          (gather_all urls digest is_word publish clock elapsed usecase query nothing_gathered
            sources).buckets
  unfolding gather_found gather_failure
  gathered-IsAcceptable sources =
      gather_all-keeps urls digest is_word publish clock elapsed usecase query
        (λ s. All (IsAcceptableBucket query) s.buckets) (λ s source parser message h. h)
        (λ s source parser candidates h.
          let start : Pass = record {
            seen = s.seen_candidates;
            filtered = 0;
            scored = [];
            zero_score = [];
          } in
          let pass = pass_over urls digest is_word query source start candidates in
          let good =
            accepted-IsAcceptable query pass
              (pass_over-IsAcceptable urls digest is_word query source start candidates (tt, tt)) in
          elim (Bool-cases (eqb (length (accepted pass)) 0)) [
            | inl nothing ↦ rw nothing h
            | inr something ↦
                rw something (All-append (IsAcceptableBucket query) s.buckets _ h (good, tt))
          ])
        nothing_gathered sources tt

module _ (urls : UrlPackage) (digest : String → String) (is_word : Char → Bool)
    (publish : Event → Option String) (clock : ℕ → Time) (elapsed : ℕ → ℕ) (usecase : Usecase)
    (query : SearchQuery) where
  -- Every candidate that SearchAndPublish returns has a URL and a title, and if it has a date, that is
  -- not before the first and not after the last date of the query, whatever the sources give.
  pub search_and_publish-IsAcceptable :
      All
        (IsAcceptable (normalize query))
        (search_and_publish urls digest is_word publish clock elapsed usecase
          query).result.candidates
  unfolding search_and_publish
  search_and_publish-IsAcceptable = elim (Result-cases (validate (normalize query))) [
    | inr (e, invalid) ↦ rw (search_and_publish, invalid) tt
    | inl (done, valid) ↦
        let normal = normalize query in
        let sources = selected_sources usecase normal in
        let s =
          gather_all urls digest is_word publish clock elapsed usecase normal nothing_gathered
            sources in
        let (same, stats) =
          publish_gathered-result urls digest is_word publish clock elapsed usecase normal s in
        rw (search_and_publish, valid, same)
          (interleave_candidate_buckets-IsAcceptable normal s.buckets normal.limit (
            gathered-IsAcceptable urls digest is_word publish clock elapsed usecase normal sources))
  ]

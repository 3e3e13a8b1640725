-- ===== src/ParserService/Search/Distinct.antt =====
-- No two candidates that SearchAndPublish returns have a key in common.
use articleflow.Prelude.{
  ◌&&◌, length-zero, length, eqb, all_pairs-take, Option, all_pairs-perm, ◌≡◌, ℕ, Bool, true, List,
  [], ◌∷◌, ◌++◌, String, every, all_pairs, refl, arith, map, Bool-cases, inl, inr, subst, ap,
}
use Prim.Native.Char.{Char}
use mathlib.Core.List.{append_assoc, append-nil}
use mathlib.Core.List.Perm
use articleflow.Prelude.Int.{ℤ, pos, pos_part, leb_ℤ}
use articleflow.Go.Time.{Time}
use articleflow.Go.Result.{Result-cases}
use articleflow.RoundRobin.Columns.{leftover, columns, columns-perm}
use articleflow.RoundRobin.Limited.{rounds_limited-columns}
use articleflow.Contracts.Parser.{ArticleCandidate, SearchQuery, normalize, validate}
use articleflow.ParserService.Search.Candidates.{UrlPackage}
use articleflow.ParserService.Search.Sources.{
  Usecase, ScoredCandidate, SourceCandidateBucket, Pass, pass_over, accepted,
}
use articleflow.ParserService.Search.{
  gather_failure, gather_found, selected_sources, Event, gather_all, nothing_gathered,
  search_and_publish, interleave_candidate_buckets, candidates_of, round_fuel,
}
use articleflow.ParserService.Search.Counts.{round_fuel_lem}
use articleflow.ParserService.Search.Fresh.{
  apart_comm, IsFresh, apart, apart_scored, pass_over-IsFresh, accepted-IsFresh,
}
use articleflow.ParserService.Search.Gathering.{gather_all-keeps, publish_gathered-result}

-- The candidates of the buckets, one bucket after the other.
abbrev flat : List SourceCandidateBucket → List ScoredCandidate
flat [] = []
flat (bucket ∷ buckets) = bucket.scored_candidates ++ flat buckets

flat-append :
    (buckets : List SourceCandidateBucket) (bucket : SourceCandidateBucket)
    → flat (buckets ++ bucket ∷ []) ≡ flat buckets ++ bucket.scored_candidates
flat-append [] bucket = append-nil bucket.scored_candidates
flat-append (b ∷ buckets) bucket =
    rw (append_assoc b.scored_candidates (flat buckets) bucket.scored_candidates)
      (ap (λ l. b.scored_candidates ++ l) (flat-append buckets bucket))

map-scored-append :
    (xs ys : List ScoredCandidate)
    → map {B = ArticleCandidate} (λ s. s.candidate) (xs ++ ys)
      ≡ map (λ s. s.candidate) xs ++ map (λ s. s.candidate) ys
map-scored-append [] ys = refl
map-scored-append (x ∷ xs) ys = ap (λ l. x.candidate ∷ l) (map-scored-append xs ys)

leftover-flat :
    (buckets : List SourceCandidateBucket)
    → leftover 0 (map candidates_of buckets) ≡ map (λ s. s.candidate) (flat buckets)
leftover-flat [] = refl
leftover-flat (bucket ∷ buckets) =
    rw (map-scored-append bucket.scored_candidates (flat buckets))
      (ap (λ l. candidates_of bucket ++ l) (leftover-flat buckets))

module _ (is_word : Char → Bool) where
  every-candidates :
      (a : ArticleCandidate) (xs : List ScoredCandidate)
      → every (apart is_word a) (map (λ s. s.candidate) xs)
        ≡ every (λ s. apart is_word a s.candidate) xs
  every-candidates a [] = refl
  every-candidates a (x ∷ xs) = ap (λ b. apart is_word a x.candidate && b) (every-candidates a xs)

  all_pairs-candidates :
      (xs : List ScoredCandidate)
      → all_pairs (apart is_word) (map (λ s. s.candidate) xs) ≡ all_pairs (apart_scored is_word) xs
  all_pairs-candidates [] = refl
  all_pairs-candidates (x ∷ xs) = rw (every-candidates x.candidate xs, all_pairs-candidates xs) refl

  interleave-apart :
      (buckets : List SourceCandidateBucket) (limit : ℤ)
      → all_pairs (apart_scored is_word) (flat buckets) ≡ true
      → all_pairs (apart is_word) (interleave_candidate_buckets buckets limit) ≡ true
  unfolding interleave_candidate_buckets
  interleave-apart [] limit h = refl
  interleave-apart (bucket ∷ buckets) limit h =
      let all = bucket ∷ buckets in
      let lists = map candidates_of all in
      let fuel = round_fuel lists in
      let flat_apart : all_pairs (apart is_word) (leftover 0 lists) ≡ true =
        rw (leftover-flat all, all_pairs-candidates (flat all)) h in
      let order = columns-perm fuel 0 lists (omega (arith, round_fuel_lem lists)) in
      let columns_apart =
        all_pairs-perm (apart is_word) (apart_comm is_word) (leftover 0 lists)
          (columns fuel 0 lists) (Perm.symm order) flat_apart in
      elim (Bool-cases (leb_ℤ limit (pos 0))) [
        | inl no_limit ↦ rw (interleave_candidate_buckets, no_limit) refl
        | inr some_limit ↦
            rw
              (
                interleave_candidate_buckets,
                some_limit,
                rounds_limited-columns fuel (pos_part limit) lists,
              )
              (all_pairs-take (apart is_word) (pos_part limit) (columns fuel 0 lists) columns_apart)
      ]

module _ (urls : UrlPackage) (digest : String → String) (is_word : Char → Bool)
    (publish : Event → Option String) (clock : ℕ → Time) (elapsed : ℕ → ℕ) (usecase : Usecase)
    (query : SearchQuery) where
  gathered-IsFresh :
      (sources : List String)
      → let s =
          gather_all urls digest is_word publish clock elapsed usecase query nothing_gathered
            sources in
        IsFresh is_word s.seen_candidates (flat s.buckets)
  unfolding gather_found gather_failure
  gathered-IsFresh sources =
      gather_all-keeps urls digest is_word publish clock elapsed usecase query
        (λ s. IsFresh is_word s.seen_candidates (flat s.buckets)) (λ s source parser message h. h)
        (λ s source parser candidates h.
          let start : Pass = record {
            seen = s.seen_candidates;
            filtered = 0;
            scored = [];
            zero_score = [];
          } in
          let pass = pass_over urls digest is_word query source start candidates in
          let bucket : SourceCandidateBucket = record {
            source = source;
            scored_candidates = accepted pass;
          } in
          let passed =
            pass_over-IsFresh is_word urls digest query source start (flat s.buckets) candidates
              h in
          let fresh = accepted-IsFresh is_word pass (flat s.buckets) passed in
          elim (Bool-cases (eqb (length (accepted pass)) 0)) [
            | inl nothing ↦
                let none_accepted = length-zero (accepted pass) (ground arith) in
                let same : IsFresh is_word pass.seen (flat s.buckets ++ []) =
                  subst (λ l. IsFresh is_word pass.seen (flat s.buckets ++ l)) none_accepted
                    fresh in
                rw nothing (subst (IsFresh is_word pass.seen) (append-nil (flat s.buckets)) same)
            | inr something ↦ rw (something, flat-append s.buckets bucket) fresh
          ])
        nothing_gathered sources (refl, refl)

module _ (urls : UrlPackage) (digest : String → String) (is_word : Char → Bool)
    (publish : Event → Option String) (clock : ℕ → Time) (elapsed : ℕ → ℕ) (usecase : Usecase)
    (query : SearchQuery) where
  -- No two of the candidates that SearchAndPublish returns have a key in common, whatever sources they
  -- come from: not the same URL, not the same id in the same source, not the same long title, with
  -- upper case letters read as lower case.
  pub search_and_publish-apart :
      all_pairs
        (apart is_word)
        (search_and_publish urls digest is_word publish clock elapsed usecase
          query).result.candidates
      ≡ true
  unfolding search_and_publish
  search_and_publish-apart = elim (Result-cases (validate (normalize query))) [
    | inr (e, invalid) ↦ rw (search_and_publish, invalid) refl
    | inl (done, valid) ↦
        let normal = normalize query in
        let sources = selected_sources usecase normal in
        let s =
          gather_all urls digest is_word publish clock elapsed usecase normal nothing_gathered
            sources in
        let (same, stats) =
          publish_gathered-result urls digest is_word publish clock elapsed usecase normal s in
        let fresh =
          gathered-IsFresh urls digest is_word publish clock elapsed usecase normal sources in
        rw (search_and_publish, valid, same)
          (interleave-apart is_word s.buckets normal.limit fresh.1)
  ]

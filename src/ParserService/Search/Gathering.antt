-- ===== src/ParserService/Search/Gathering.antt =====
-- What the loop over the sources keeps, and what is published of what it gathers.
use articleflow.Prelude.{
  none, some, ◌≡◌, ℕ, List, [], ◌∷◌, String, Option, Bool, inl, inr, Option-cases, ◌⊎◌, refl,
}
use Prim.Native.Char.{Char}
use articleflow.Go.Time.{Time}
use articleflow.Go.Map.{Map, lookup}
use articleflow.Go.Result.{Result-cases}
use articleflow.Contracts.Parser.{ArticleCandidate, SearchQuery, SearchResult}
use articleflow.ParserService.Search.Candidates.{UrlPackage}
use articleflow.ParserService.Search.Sources.{Parser, Usecase}
use articleflow.ParserService.Search.{
  published, conclude, Event, Gathered, Searched, gather_failure, gather_found, gather_source,
  gather_all, publish_gathered, interleave_candidate_buckets, count_candidates_by_source,
  set_returned, set_published, publish_all,
}

-- The result, with the counts of what was published or without.
abbrev pub IsReport : Map ℕ → SearchResult → Searched → Type 0
IsReport counts result searched =
    (searched.result.candidates ≡ result.candidates)
    × ((searched.result.source_stats ≡ result.source_stats)
        ⊎ (searched.result.source_stats ≡ set_published counts result.source_stats))

published-IsReport :
    (counts : Map ℕ) (result : SearchResult) (outcome : List Event × Option String)
    → IsReport counts result (published counts result outcome)
unfolding published
published-IsReport counts result (sent, some e) = (refl, inl refl)
published-IsReport counts result (sent, none) = (refl, inr refl)

conclude-IsReport :
    (counts : Map ℕ) (candidates : List ArticleCandidate) (last_error : Option String)
    (sent : List Event) (result : SearchResult) (sends : Searched)
    → IsReport counts result sends
    → IsReport counts result (conclude candidates last_error sent result sends)
unfolding conclude
conclude-IsReport counts [] (some e) sent result sends h = (refl, inl refl)
conclude-IsReport counts [] none sent result sends h = h
conclude-IsReport counts (candidate ∷ candidates) last_error sent result sends h = h

module _ (urls : UrlPackage) (digest : String → String) (is_word : Char → Bool)
    (publish : Event → Option String) (clock : ℕ → Time) (elapsed : ℕ → ℕ) (usecase : Usecase)
    (query : SearchQuery) where
  module _ {κ} (P : Gathered → Type κ)
      (on_failure : (s : Gathered) (source : String) (parser : Parser) (message : String)
        → P s
        → P (
            gather_failure urls digest is_word publish clock elapsed query s source parser message))
      (on_found : (s : Gathered) (source : String) (parser : Parser)
          (candidates : List ArticleCandidate)
        → P s
        → P (
            gather_found urls digest is_word publish clock elapsed query s source parser
              candidates)) where
    gather_source-keeps :
        (s : Gathered) (source : String)
        → P s
        → P (gather_source urls digest is_word publish clock elapsed usecase query s source)
    unfolding gather_source
    gather_source-keeps s source h = elim (Option-cases (lookup source usecase.parsers)) [
      | inl e ↦ rw (gather_source, e) h
      | inr (parser, e) ↦ elim (Result-cases (parser.search query)) [
        | inl (candidates, found) ↦
            rw (gather_source, e, found) (on_found s source parser candidates h)
        | inr (message, failure) ↦
            rw (gather_source, e, failure) (on_failure s source parser message h)
      ]
    ]

    pub gather_all-keeps :
        (s : Gathered) (sources : List String)
        → P s
        → P (gather_all urls digest is_word publish clock elapsed usecase query s sources)
    unfolding gather_all
    gather_all-keeps s [] h = h
    gather_all-keeps s (source ∷ sources) h =
        gather_all-keeps
          (gather_source urls digest is_word publish clock elapsed usecase query s source) sources
          (gather_source-keeps s source h)

  -- What is reported of what was gathered, on all branches.
  pub publish_gathered-result :
      (s : Gathered)
      → let candidates = interleave_candidate_buckets s.buckets query.limit in
        let counts = count_candidates_by_source candidates in
        let searched = publish_gathered urls digest is_word publish clock elapsed query s in
        IsReport counts
          (record { candidates = candidates; source_stats = set_returned counts s.stats })
          searched
  unfolding publish_gathered
  publish_gathered-result s =
      let candidates = interleave_candidate_buckets s.buckets query.limit in
      let counts = count_candidates_by_source candidates in
      let returned = set_returned counts s.stats in
      let result : SearchResult = record { candidates = candidates; source_stats = returned } in
      let outcome = publish_all publish clock s.tick s.sent candidates in
      conclude-IsReport counts candidates s.last_error s.sent result
        (published counts result outcome) (published-IsReport counts result outcome)

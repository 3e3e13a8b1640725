-- ===== src/ParserService/Search/Fresh.antt =====
-- The candidates that the search has placed share no key, and their keys are seen.
use articleflow.Go.Text.{is_empty}
use articleflow.Prelude.{
  eqb, all_pairs-perm, List-cases, all_pairs-suffix, every-perm, every-append, ◌≡◌, ◌||◌, not, Bool,
  true, false, List, [], ◌∷◌, ◌++◌, String, every, all_pairs, refl, arith, Perm, Bool-cases, inl,
  inr, subst,
}
use Prim.Native.Char.{Char}
use mathlib.Core.List.{append_assoc, append-nil, perm_middle}
use mathlib.Core.List.Perm
use articleflow.Go.Map.{Set, member}
use articleflow.Go.Sort.{sort_stable-perm}
use articleflow.RoundRobin.Columns.{swap_front}
use articleflow.Contracts.Parser.{ArticleCandidate, SearchQuery}
use articleflow.ParserService.Search.Candidates.{
  candidate_within_date_range, candidate_relevance_score, normalize_candidate, UrlPackage,
  candidate_dedup_keys, has_seen_candidate, mark_seen_candidate,
}
use articleflow.ParserService.Search.Sources.{
  ranks_before, sort_scored_candidates, ScoredCandidate, Pass, place_candidate, pass_over, accepted,
}
use articleflow.ParserService.Search.Keys.{shares, shares_comm, shares-unseen, still_seen, now_seen}

module _ {ℓ} {A : Type ℓ} where
  at_end : (x : A) (xs ys : List A) → Perm (x ∷ (xs ++ ys)) ((xs ++ x ∷ []) ++ ys)
  at_end x xs ys = rw (append_assoc xs (x ∷ []) ys) (Perm.symm (perm_middle xs ys))

  at_second_end :
      (x : A) (xs ys zs : List A) → Perm (x ∷ (xs ++ (ys ++ zs))) (xs ++ ((ys ++ x ∷ []) ++ zs))
  at_second_end x xs ys zs =
      Perm.trans (Perm.symm (perm_middle xs (ys ++ zs))) (Perm.append_left xs (at_end x ys zs))

  swap_ends : (xs ys : List A) → Perm (xs ++ ys) (ys ++ xs)
  swap_ends xs ys =
      subst (λ l. Perm (xs ++ ys) (ys ++ l)) (append-nil xs)
        (subst (λ l. Perm (xs ++ l) (ys ++ (xs ++ []))) (append-nil ys) (swap_front xs ys []))

module _ (is_word : Char → Bool) where
  abbrev pub keys_of : ScoredCandidate → List String
  keys_of scored = candidate_dedup_keys is_word scored.candidate

  -- The candidates have no key in common: no URL, no id of a source, no long title.
  abbrev pub apart : ArticleCandidate → ArticleCandidate → Bool
  apart a b = not (shares (candidate_dedup_keys is_word a) (candidate_dedup_keys is_word b))

  abbrev pub apart_scored : ScoredCandidate → ScoredCandidate → Bool
  apart_scored a b = apart a.candidate b.candidate

  abbrev pub is_known : Set → ScoredCandidate → Bool
  is_known seen scored = every (λ k. member k seen) (keys_of scored)

  -- All items are known, and no two share a key.
  abbrev pub IsFresh : Set → List ScoredCandidate → Type 0
  IsFresh seen items = (every (is_known seen) items ≡ true) × (all_pairs apart_scored items ≡ true)

  pub apart_comm : (a b : ArticleCandidate) → apart a b ≡ true → apart b a ≡ true
  apart_comm a b h =
      rw (shares_comm (candidate_dedup_keys is_word b) (candidate_dedup_keys is_word a)) h

  IsFresh-perm :
      (seen : Set) (items others : List ScoredCandidate)
      → Perm items others
      → IsFresh seen items
      → IsFresh seen others
  IsFresh-perm seen items others p (h, k) = (
    every-perm (is_known seen) items others p h,
    all_pairs-perm apart_scored (λ a b. apart_comm a.candidate b.candidate) items others p k,
  )

  IsFresh-suffix :
      (seen : Set) (first items : List ScoredCandidate)
      → IsFresh seen (first ++ items)
      → IsFresh seen items
  IsFresh-suffix seen first items (h, k) = (
    ground (arith, every-append (is_known seen) first items),
    all_pairs-suffix apart_scored first items k,
  )

  apart_from_known :
      (seen : Set) (item : ScoredCandidate) (items : List ScoredCandidate)
      → has_seen_candidate seen (keys_of item) ≡ false
      → every (is_known seen) items ≡ true
      → every (apart_scored item) items ≡ true
  apart_from_known seen item [] new h = refl
  apart_from_known seen item (other ∷ items) new h =
      let first = shares-unseen seen (keys_of item) (keys_of other) new (ground arith) in
      let rest = apart_from_known seen item items new (ground arith) in ground (arith, first, rest)

  still_known :
      (seen : Set) (keys : List String) (items : List ScoredCandidate)
      → every (is_known seen) items ≡ true
      → every (is_known (mark_seen_candidate seen keys)) items ≡ true
  still_known seen keys [] h = refl
  still_known seen keys (item ∷ items) h =
      let first = still_seen seen keys (keys_of item) (ground arith) in
      let rest = still_known seen keys items (ground arith) in ground (arith, first, rest)

  IsFresh-cons :
      (seen : Set) (item : ScoredCandidate) (items : List ScoredCandidate)
      → has_seen_candidate seen (keys_of item) ≡ false
      → IsFresh seen items
      → IsFresh (mark_seen_candidate seen (keys_of item)) (item ∷ items)
  IsFresh-cons seen item items new (h, k) =
      let own = now_seen seen (keys_of item) in
      let rest = still_known seen (keys_of item) items h in
      let first = apart_from_known seen item items new h in
      (ground (arith, own, rest), ground (arith, first, k))

  -- What a pass has placed, before the candidates of earlier sources.
  abbrev pub placed : Pass → List ScoredCandidate → List ScoredCandidate
  placed pass earlier = pass.scored ++ (pass.zero_score ++ earlier)

  module _ (urls : UrlPackage) (digest : String → String) (query : SearchQuery) where
    place_candidate-IsFresh :
        (pass : Pass) (earlier : List ScoredCandidate) (candidate : ArticleCandidate)
        → IsFresh pass.seen (placed pass earlier)
        → let pass' = place_candidate urls digest is_word query pass candidate in
          IsFresh pass'.seen (placed pass' earlier)
    unfolding place_candidate
    place_candidate-IsFresh pass earlier candidate h =
        let keys = candidate_dedup_keys is_word candidate in
        let score = candidate_relevance_score is_word candidate query.text in
        let item : ScoredCandidate = record { candidate = candidate; score = score } in
        let others = pass.zero_score ++ earlier in
        elim (Bool-cases (is_empty candidate.url || is_empty candidate.title)) [
          | inl bare ↦ rw (place_candidate, bare) h
          | inr named ↦ elim (Bool-cases (candidate_within_date_range candidate query)) [
            | inr outside ↦ rw (place_candidate, named, outside) h
            | inl inside ↦ elim (Bool-cases (has_seen_candidate pass.seen keys)) [
              | inl repeated ↦ rw (place_candidate, named, inside, repeated) h
              | inr new ↦
                  let fresh = IsFresh-cons pass.seen item (placed pass earlier) new h in
                  let seen = mark_seen_candidate pass.seen keys in
                  elim (Bool-cases (eqb score 0)) [
                    | inl nothing ↦
                        rw (place_candidate, named, inside, new, nothing)
                          (IsFresh-perm seen _ _
                            (at_second_end item pass.scored pass.zero_score earlier) fresh)
                    | inr something ↦
                        rw (place_candidate, named, inside, new, something)
                          (IsFresh-perm seen _ _ (at_end item pass.scored others) fresh)
                  ]
            ]
          ]
        ]

    pub pass_over-IsFresh :
        (source : String) (pass : Pass) (earlier : List ScoredCandidate)
        (candidates : List ArticleCandidate)
        → IsFresh pass.seen (placed pass earlier)
        → let pass' = pass_over urls digest is_word query source pass candidates in
          IsFresh pass'.seen (placed pass' earlier)
    unfolding pass_over
    pass_over-IsFresh source pass earlier [] h = h
    pass_over-IsFresh source pass earlier (candidate ∷ candidates) h =
        let candidate' = normalize_candidate urls digest candidate source query in
        pass_over-IsFresh source (place_candidate urls digest is_word query pass candidate') earlier
          candidates (place_candidate-IsFresh pass earlier candidate' h)

  pub accepted-IsFresh :
      (pass : Pass) (earlier : List ScoredCandidate)
      → IsFresh pass.seen (placed pass earlier)
      → IsFresh pass.seen (earlier ++ accepted pass)
  unfolding accepted sort_scored_candidates
  accepted-IsFresh pass earlier h = elim (List-cases pass.scored) [
    | inl e ↦
        let zeros = pass.zero_score in
        let start : IsFresh pass.seen (zeros ++ earlier) =
          subst (λ l. IsFresh pass.seen (l ++ (zeros ++ earlier))) e h in
        rw (accepted, e)
          (IsFresh-perm pass.seen (zeros ++ earlier) _
            (Perm.trans (swap_ends zeros earlier)
              (Perm.append_left earlier (Perm.symm (sort_stable-perm ranks_before zeros))))
            start)
    | inr (item, items, e) ↦
        let tops = item ∷ items in
        let start : IsFresh pass.seen (tops ++ (pass.zero_score ++ earlier)) =
          subst (λ l. IsFresh pass.seen (l ++ (pass.zero_score ++ earlier))) e h in
        let cut : IsFresh pass.seen (tops ++ earlier) =
          IsFresh-suffix pass.seen pass.zero_score (tops ++ earlier)
            (IsFresh-perm pass.seen _ _ (swap_front tops pass.zero_score earlier) start) in
        rw (accepted, e)
          (IsFresh-perm pass.seen (tops ++ earlier) _
            (Perm.trans (swap_ends tops earlier)
              (Perm.append_left earlier (Perm.symm (sort_stable-perm ranks_before tops))))
            cut)
  ]

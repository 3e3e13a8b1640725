-- ===== src/RoundRobin.antt =====
-- Taking items from the sources in turn: the loops of interleaveArticlesBySource
-- (services/article-service/internal/usecase/ingest.go), interleaveFeedItemsBySource
-- (services/feed-service/internal/usecase/feed.go) and interleaveCandidateBuckets
-- (services/parser-service/internal/search/search.go).
pub mod Columns
pub mod Grouping
pub mod Order
pub mod Limited
pub mod Members
use articleflow.Prelude.{
  leb, some, none, zero, true, ◌++◌, length, [], ltb, get_elem?, map, suc, if◌then◌else◌, ◌∷◌,
  String, ℕ,
}
use mathlib.Core.List.{List, flatten}
use articleflow.Go.Map.{Map, Set, insert, member, lookup_or}

module _ {ℓ} {A : Type ℓ} where
  -- The inner loop: what round `index` appends, the item at `index` of each bucket that has one.
  unfoldable pub pick : ℕ → List (List A) → List A
  pick index [] = []
  pick index (bucket ∷ buckets) = elim (get_elem? bucket index) [
    | none ↦ pick index buckets
    | some item ↦ item ∷ pick index buckets
  ]

  -- The outer loop, which stops when all items are there or a round appends nothing.
  unfoldable pub rounds : ℕ → ℕ → List (List A) → ℕ → List A → List A
  rounds zero index buckets total result = result
  rounds (suc fuel) index buckets total result =
      let added = pick index buckets in
      let rest = rounds fuel (suc index) buckets total (result ++ added) in
      if ltb (length result) total then elim added [ [] ↦ result | _ ∷ _ ↦ rest ] else result

  -- The inner loop that breaks once the result has `limit` items.
  unfoldable pub pick_limited : ℕ → ℕ → List (List A) → List A → List A
  pick_limited limit index [] result = result
  pick_limited limit index (bucket ∷ buckets) result = elim (get_elem? bucket index) [
    | none ↦ pick_limited limit index buckets result
    | some item ↦
        let result' = result ++ item ∷ [] in
        let rest = pick_limited limit index buckets result' in
        if leb limit (length result') then result' else rest
  ]

  -- The outer loop of interleaveCandidateBuckets.
  unfoldable pub rounds_limited : ℕ → ℕ → ℕ → List (List A) → List A → List A
  rounds_limited zero limit index buckets result = result
  rounds_limited (suc fuel) limit index buckets result =
      let result' = pick_limited limit index buckets result in
      let rest = rounds_limited fuel limit (suc index) buckets result' in
      if ltb (length result) limit
      then if ltb (length result) (length result') then rest else result
      else result

-- The items by source, with the sources in the order of the rounds.
pub record Groups {ℓ} (A : Type ℓ) : Type ℓ where
  pub order : List String
  pub known : Set
  pub buckets : Map (List A)

unfoldable pub bucket_lists {ℓ} : {A : Type ℓ} → Groups A → List (List A)
bucket_lists groups = map (λ source. lookup_or [] source groups.buckets) groups.order

module _ {ℓ} {A : Type ℓ} (key : A → String) where
  -- One round of the loop that fills the buckets.
  unfoldable pub file_item : Groups A → A → Groups A
  file_item groups item =
      let source = key item in
      let seen = member source groups.known in
      record {
        order = if seen then groups.order else groups.order ++ source ∷ [];
        known = if seen then groups.known else insert source true groups.known;
        buckets = insert source (lookup_or [] source groups.buckets ++ item ∷ []) groups.buckets;
      }

  unfoldable pub file_all : Groups A → List A → Groups A
  unfolding file_item
  file_all groups [] = groups
  file_all groups (item ∷ items) = file_all (file_item groups item) items

  -- From the sources known at the start, in their order.
  unfoldable pub interleave : List String → Set → List A → List A
  unfolding file_all bucket_lists rounds pick
  interleave order known [] = []
  interleave order known (item ∷ items) =
      let groups =
        file_all (record { order = order; known = known; buckets = [] }) (item ∷ items) in
      rounds (suc (length (item ∷ items))) 0 (bucket_lists groups) (length (item ∷ items)) []

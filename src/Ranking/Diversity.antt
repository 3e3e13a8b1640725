-- ===== src/Ranking/Diversity.antt =====
-- services/ranking-service/internal/usecase/rank.go: the reasons of a score, and the order that mixes
-- the sources of a feed. The argument `f` stands for float64.
pub mod Laws
use articleflow.Dedup.{dedup}
use articleflow.Prelude.{
  zero, ◌==◌, ◌&&◌, some, length, [], ltb, none, if◌then◌else◌, not, ◌∷◌, suc, Option, ℕ, Bool,
  List, ◌++◌, String,
}
use articleflow.Prelude.Int.{pos}
use articleflow.Go.Float.{Float64}
use articleflow.Go.Text.{is_empty, trim_space}
use articleflow.Contracts.Feed.{FeedItem}
use articleflow.Ranking.Signals.{normalized_source}

unfoldable pub compact_reasons : List String → List String
unfolding dedup
compact_reasons reasons = dedup trim_space (λ reason. reason) is_empty reasons

module _ {ℓ} {A : Type ℓ} where
  -- What was found behind an item that stays.
  abbrev pub found_behind : A → Option (A × List A) → Option (A × List A)
  found_behind x none = none
  found_behind x (some (found, others)) = some (found, x ∷ others)

  -- The first item that passes the test, and the items without it.
  unfoldable pub take_first : (A → Bool) → List A → Option (A × List A)
  take_first test [] = none
  take_first test (x ∷ xs) =
      let later = take_first test xs in if test x then some (x, xs) else found_behind x later

unfoldable pub same_source : String → String → Bool
same_source a b = not (is_empty a) && not (is_empty b) && a == b

module _ (f : Float64) where
  abbrev pub mark_diversity : FeedItem f.Float → FeedItem f.Float
  mark_diversity item = record item {
    score_reasons = compact_reasons (item.score_reasons ++ "source_diversity" ∷ []);
  }

  -- Whether an item can stand in for one of the source `previous`: it has another source, and its
  -- score is at most 5 lower.
  unfoldable pub can_replace : String → FeedItem f.Float → FeedItem f.Float → Bool
  unfolding normalized_source
  can_replace previous item candidate =
      let source = normalized_source candidate.source_name in
      not (is_empty source)
      && not (source == previous)
      && not (f.less (f.add candidate.score (f.of_int (pos 5))) item.score)

  -- The item that takes the place of one with the source of the place before it.
  abbrev pub instead :
      FeedItem f.Float
      → List (FeedItem f.Float)
      → Option (FeedItem f.Float × List (FeedItem f.Float))
      → FeedItem f.Float × List (FeedItem f.Float)
  instead item items none = (item, items)
  instead item items (some (replacement, others)) = (mark_diversity replacement, item ∷ others)

  -- One round of the loop of diversifyRankedItems: the item at the index, and those behind it.
  unfoldable pub place_item :
      String
      → FeedItem f.Float
      → List (FeedItem f.Float)
      → FeedItem f.Float × List (FeedItem f.Float)
  unfolding same_source can_replace normalized_source take_first compact_reasons
  place_item previous item items =
      if same_source previous (normalized_source item.source_name)
      then instead item items (take_first (can_replace previous item) items)
      else (item, items)

  -- The rounds from an index on, one for each item.
  unfoldable pub diversify_from : ℕ → String → List (FeedItem f.Float) → List (FeedItem f.Float)
  unfolding place_item normalized_source
  diversify_from zero previous items = items
  diversify_from (suc rounds) previous [] = []
  diversify_from (suc rounds) previous (item ∷ items) =
      let (placed, others) = place_item previous item items in
      placed ∷ diversify_from rounds (normalized_source placed.source_name) others

  unfoldable pub diversify_ranked_items : List (FeedItem f.Float) → List (FeedItem f.Float)
  unfolding diversify_from normalized_source
  diversify_ranked_items [] = []
  diversify_ranked_items (item ∷ items) =
      if ltb (length items) 2
      then item ∷ items
      else item ∷ diversify_from (length items) (normalized_source item.source_name) items

-- ===== src/Ranking/Rank/Laws.antt =====
-- What ranking keeps of a feed, and the ids that it gives to articles.
use mathlib.Core.List.Perm
use articleflow.Go.Sort.{sort_stable-perm}
use articleflow.Ranking.Diversity.Laws.{plain, diversify_ranked_items-perm}
use articleflow.Prelude.{refl, ap, ◌∷◌, Perm, ◌≡◌, [], map, Option, List, String}
use articleflow.Go.Float.{Float64}
use articleflow.Contracts.Feed.{FeedItem}
use articleflow.Contracts.Parser.{SearchQuery}
use articleflow.Ranking.Rank.{
  diversify_ranked_items, sort_stable, to_lower, fields, Time, pos, rank, scored_item, higher,
}
use articleflow.Ranking.Signals.{SignalStore}

module _ (f : Float64) where
  -- An item without its score and the reasons of it.
  abbrev pub unscored : FeedItem f.Float → FeedItem f.Float
  unscored item = record item { score = f.of_int (pos 0); score_reasons = [] }

  map-plain :
      (items : List (FeedItem f.Float)) → map unscored (map (plain f) items) ≡ map unscored items
  map-plain [] = refl
  map-plain (item ∷ items) = ap (λ rest. unscored item ∷ rest) (map-plain items)

  map-scored_item :
      (now : Time) (signals : Option (SignalStore f)) (terms : List String)
      (items : List (FeedItem f.Float))
      → map unscored (map (scored_item f now signals terms) items) ≡ map unscored items
  map-scored_item now signals terms [] = refl
  map-scored_item now signals terms (item ∷ items) =
      ap (λ rest. unscored item ∷ rest) (map-scored_item now signals terms items)

  -- Ranking neither loses nor doubles an item, nor does it change anything but scores and reasons.
  pub rank-perm :
      (now : Time) (signals : Option (SignalStore f)) (query : SearchQuery)
      (items : List (FeedItem f.Float))
      → Perm (map unscored (rank f now signals query items)) (map unscored items)
  unfolding rank
  rank-perm now signals query items =
      let terms = fields (to_lower query.text) in
      let scored = map (scored_item f now signals terms) items in
      let sorted = sort_stable (higher f) scored in
      let mixed =
        rw (map-plain (diversify_ranked_items f sorted), map-plain sorted) at
          (Perm.map unscored (diversify_ranked_items-perm f sorted)) in
      let ordered =
        rw (map-scored_item now signals terms items) at
          (Perm.map unscored (sort_stable-perm (higher f) scored)) in
      Perm.trans mixed ordered

-- ===== src/FeedService/Tests.antt =====
-- Runs of the feed, and its theorems at concrete inputs, with whole numbers for scores.
use articleflow.Go.Text.{trim_space, to_lower}
use articleflow.RoundRobin.{interleave}
use articleflow.Prelude.{
  ◌/◌, refl, ◌∷◌, take, ◌==◌, eqb, ltb, keep_if, Perm, ◌≡◌, ◌+◌, arith, [], map, ℕ, List, String,
}
use articleflow.Prelude.Int.{pos, pos_part}
use articleflow.Go.Float.{Float64, IsOrdered}
use articleflow.Go.Map.{insert, member, lookup}
use articleflow.Go.Sort.{sort_stable, Sorted}
use articleflow.Contracts.Feed.{FeedItem}
use articleflow.Contracts.Events.{FeedItemScoredEvent}
use articleflow.FeedService.{
  item_of_event, feed_source, effective_limit, scored_before, list_scored,
}
use articleflow.FeedService.Laws.{list_scored_prefix}

abbrev whole_numbers : Float64
whole_numbers = record {
  Float = ℕ;
  of_int = pos_part;
  add = ◌+◌;
  div = ◌/◌;
  less = ltb;
  equal = eqb;
}

whole_numbers-IsOrdered : IsOrdered whole_numbers
whole_numbers-IsOrdered = record {
  asym = λ a b h. ground arith;
  ntrans = λ a b c h k. ground arith;
  equal_iff = λ a b. ground arith;
}

abbrev event : String → String → ℕ → FeedItemScoredEvent ℕ
event id source score = record {
  article_id = id;
  source_name = source;
  url = "u";
  title = "t";
  summary = "";
  tags = [];
  score = score;
  score_reasons = [];
  published_at = 5;
  scored_at = 6;
}

abbrev items : List (FeedItem ℕ)
items =
    item_of_event (event "a" "habr" 3)
    ∷ item_of_event (event "b" "Habr " 9)
    ∷ item_of_event (event "c" "vc" 4)
    ∷ []

list_test :
    map (λ (i : FeedItem ℕ). i.article_id) (list_scored whole_numbers items (pos 2))
    ≡ "b" ∷ "c" ∷ []
unfolding list_scored item_of_event sort_stable interleave member lookup insert to_lower trim_space
list_test = refl

list_scored_prefix_example :
    (full : List (FeedItem ℕ)) × Perm full items
    × ((source : String)
        → Sorted (scored_before whole_numbers) (keep_if (λ x. feed_source x == source) full))
    × (list_scored whole_numbers items (pos 2) ≡ take (effective_limit (pos 2) 3) full)
list_scored_prefix_example = list_scored_prefix whole_numbers whole_numbers-IsOrdered items (pos 2)

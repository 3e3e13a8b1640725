-- ===== src/Ranking/Tests.antt =====
-- Runs of the ranking with whole numbers for scores, a part of one being none.
use articleflow.Prelude.{
  refl, ◌&&◌, ◌∷◌, ◌+◌, false, none, ◌/◌, arith, Perm, ◌≡◌, ℕ, List, [], map, String,
}
use articleflow.Prelude.Int.{neg_part, leb_ℤ, sub_ℕ, ltb_ℤ, pos_part, ℤ, pos}
use articleflow.Go.Float.{Float64}
use articleflow.Go.Text.{trim_space, to_lower}
use articleflow.Go.Map.{lookup, insert, member}
use articleflow.Contracts.Feed.{FeedItem}
use articleflow.Contracts.User.{reaction_like}
use articleflow.Contracts.Parser.{SearchQuery}
use articleflow.Ranking.Signals.{weight_of, record_reaction, remember_article}
use articleflow.Ranking.Signals.Spec.{SignalEvent, remembered, reacted, store_of, spec_of}
use articleflow.Ranking.Signals.Laws.{Implements, store_of-Implements}
use articleflow.Ranking.Diversity.{diversify_ranked_items}
use articleflow.Ranking.Diversity.Laws.{IsDiverse, diversify_ranked_items-IsDiverse}
use articleflow.Ranking.Rank.{rank}
use articleflow.Ranking.Rank.Laws.{unscored, rank-perm}

-- a + b
abbrev add_ℤ : ℤ → ℤ → ℤ
add_ℤ a b = sub_ℕ (pos_part a + pos_part b) (neg_part a + neg_part b)

abbrev half_ℤ : ℤ → ℤ → ℤ
half_ℤ a b = pos (pos_part a / pos_part b)

abbrev whole_numbers : Float64
whole_numbers = record {
  Float = ℤ;
  of_int = λ n. n;
  add = add_ℤ;
  div = half_ℤ;
  less = ltb_ℤ;
  equal = λ a b. leb_ℤ a b && leb_ℤ b a;
}

abbrev item : String → String → ℕ → List String → FeedItem ℤ
item id source score tags = record {
  article_id = id;
  title = "t";
  summary = "";
  source_name = source;
  url = id;
  tags = tags;
  score = pos score;
  score_reasons = [];
  reaction = "";
  saved = false;
  published_at = 0;
}

abbrev items : List (FeedItem ℤ)
items = item "a" "habr" 9 [] ∷ item "b" "Habr " 8 [] ∷ item "c" "vc" 4 [] ∷ item "d" "vc" 1 [] ∷ []

-- The third item takes the place of the second one; the fourth one has the source of the third one.
mixed_test :
    map (λ (i : FeedItem ℤ). i.article_id) (diversify_ranked_items whole_numbers items)
    ≡ "a" ∷ "c" ∷ "b" ∷ "d" ∷ []
unfolding diversify_ranked_items to_lower trim_space
mixed_test = refl

diversify_ranked_items-IsDiverse_example :
    IsDiverse whole_numbers "" (diversify_ranked_items whole_numbers items)
diversify_ranked_items-IsDiverse_example =
    diversify_ranked_items-IsDiverse whole_numbers items (omega arith)

abbrev query : SearchQuery
query = record {
  text = "Go";
  sources = [];
  tags = [];
  limit = pos 10;
  offset = pos 0;
  language = "ru";
  from_date = none;
  to_date = none;
}

rank-perm_example :
    Perm
      (map (unscored whole_numbers) (rank whole_numbers 5 none query items))
      (map (unscored whole_numbers) items)
rank-perm_example = rank-perm whole_numbers 5 none query items

-- One like of an article that names its tag twice, the latest event first.
abbrev events : List (SignalEvent ℤ)
events =
    reacted (record { user_id = "u"; article_id = "a"; type = reaction_like; created_at = 3 })
    ∷ remembered (item "a" "habr" 0 ("Go" ∷ " go" ∷ []))
    ∷ []

signals_test :
    let store = store_of whole_numbers events in
    (weight_of whole_numbers "go" store.tag_weights ≡ pos 4)
    × (weight_of whole_numbers "habr" store.source_weights ≡ pos 2)
unfolding record_reaction remember_article to_lower trim_space lookup insert member
signals_test = (refl, refl)

store_of-Implements_example :
    Implements whole_numbers (spec_of whole_numbers events) (store_of whole_numbers events)
store_of-Implements_example = store_of-Implements whole_numbers events

-- ===== src/Gateway/Feed/Tests.antt =====
-- Runs of the gateway's feed.
use articleflow.Prelude.{
  ℕ, ◌≡◌, refl, [], ◌∷◌, some, String, List, not, map, keep_if, if◌then◌else◌, ◌==◌, false,
}
use articleflow.Go.Time.{Time}
use articleflow.Go.Text.{trim_space}
use articleflow.Go.Map.{lookup, insert}
use articleflow.Contracts.Feed.{FeedItem}
use articleflow.Contracts.User.{UserReaction, reaction_like, reaction_skip, reaction_save}
use articleflow.Gateway.Feed.{
  apply_user_reactions, cache_get, cache_set, hides_feed_item, supersedes,
}
use articleflow.Gateway.Feed.Laws.{rejects, apply_user_reactions-ids, cache_get-cache_set}

abbrev item : String → FeedItem ℕ
item id = record {
  article_id = id;
  title = "t";
  summary = "";
  source_name = "habr";
  url = id;
  tags = [];
  score = 0;
  score_reasons = [];
  reaction = "";
  saved = false;
  published_at = 1;
}

abbrev items : List (FeedItem ℕ)
items = item "a" ∷ item "b" ∷ item "c" ∷ []

abbrev reaction : String → String → Time → UserReaction
reaction id type now = record { user_id = "u"; article_id = id; type = type; created_at = now }

abbrev reactions : List UserReaction
reactions =
    reaction "a" reaction_skip 1 ∷ reaction "a" reaction_save 2 ∷ reaction "b" reaction_like 3 ∷ []

shown_test :
    map (λ (i : FeedItem ℕ). i.reaction) (apply_user_reactions items reactions) ≡ "like" ∷ "" ∷ []
unfolding apply_user_reactions lookup insert trim_space supersedes hides_feed_item
shown_test = refl

apply_user_reactions-ids_example :
    map (λ (i : FeedItem ℕ). i.article_id) (apply_user_reactions items reactions)
    ≡ map
        (λ (i : FeedItem ℕ). i.article_id)
        (keep_if (λ i. not (rejects i.article_id reactions)) items)
apply_user_reactions-ids_example = apply_user_reactions-ids items reactions

cache_get-cache_set_example :
    (cache_get 8 (cache_set 5 3 [] "k" "page") "k").1
    ≡ (if "k" == "k" then some "page" else (cache_get {Response = String} 8 [] "k").1)
cache_get-cache_set_example = cache_get-cache_set 5 3 8 [] "k" "k" "page"

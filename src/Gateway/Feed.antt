-- ===== src/Gateway/Feed.antt =====
-- services/gateway-api/internal/transport/http/feed_handler.go: the reactions of the user, the cursor,
-- the limit of a refill and the cache of responses.
pub mod Laws
mod Tests
use articleflow.Prelude.{
  ◌||◌, ◌&&◌, if◌then◌else◌, ◌==◌, true, false, [], ◌∷◌, String, Bool, List, not, ◌+◌, ltb, leb,
  eqb, ℕ, Option, none, some, suc,
}
use articleflow.Go.Time.{Time, after}
use articleflow.Go.Text.{trim_space, is_empty, cat}
use articleflow.Go.Map.{Map, lookup, insert, remove}
use articleflow.Contracts.Feed.{FeedItem}
use articleflow.Contracts.Parser.{ArticleCandidate}
use articleflow.Contracts.User.{
  ReactionType, UserReaction, reaction_like, reaction_dislike, reaction_skip, reaction_save,
}

unfoldable pub hides_feed_item : ReactionType → Bool
hides_feed_item type = type == reaction_skip || type == reaction_dislike

unfoldable pub reaction_priority : ReactionType → ℕ
reaction_priority type =
    if type == reaction_skip || type == reaction_dislike
    then 3
    else if type == reaction_save
    then 2
    else if type == reaction_like
    then 1
    else 0

-- Whether a reaction takes the place of the current one of its article.
unfoldable pub supersedes : UserReaction → UserReaction → Bool
unfolding reaction_priority
supersedes reaction current =
    ltb (reaction_priority current.type) (reaction_priority reaction.type)
    || (eqb (reaction_priority reaction.type) (reaction_priority current.type)
        && after reaction.created_at current.created_at)

-- One round of the loop of latestReactionsByArticle.
unfoldable pub keep_reaction : Map UserReaction → UserReaction → Map UserReaction
unfolding supersedes
keep_reaction by_article reaction =
    let replaces : Bool = elim (lookup reaction.article_id by_article) [
      | none ↦ true
      | some current ↦ supersedes reaction current
    ] in
    if is_empty (trim_space reaction.article_id) || not replaces
    then by_article
    else insert reaction.article_id reaction by_article

unfoldable pub keep_reactions : Map UserReaction → List UserReaction → Map UserReaction
unfolding keep_reaction
keep_reactions by_article [] = by_article
keep_reactions by_article (reaction ∷ reactions) =
    keep_reactions (keep_reaction by_article reaction) reactions

unfoldable pub latest_reactions_by_article : List UserReaction → Map UserReaction
unfolding keep_reactions
latest_reactions_by_article reactions = keep_reactions [] reactions

module _ {Score : Type 0} where
  -- The item as the user of the reaction sees it.
  abbrev pub with_reaction : UserReaction → FeedItem Score → FeedItem Score
  with_reaction reaction item = record item {
    reaction = reaction.type;
    saved = reaction.type == reaction_save;
  }

  -- The loop of applyUserReactions.
  unfoldable pub apply_reactions : Map UserReaction → List (FeedItem Score) → List (FeedItem Score)
  unfolding hides_feed_item
  apply_reactions by_article [] = []
  apply_reactions by_article (item ∷ items) =
      let rest = apply_reactions by_article items in
      elim (lookup item.article_id by_article) [
        | none ↦ item ∷ rest
        | some reaction ↦
            if hides_feed_item reaction.type then rest else with_reaction reaction item ∷ rest
      ]

  unfoldable pub apply_user_reactions :
      List (FeedItem Score) → List UserReaction → List (FeedItem Score)
  unfolding apply_reactions latest_reactions_by_article
  apply_user_reactions items reactions =
      apply_reactions (latest_reactions_by_article reactions) items

-- The responses by their key, with the time at which each one expires.
module _ {Response : Type 0} where
  unfoldable pub cache_get :
      Time → Map (Response × Time) → String → Map (Response × Time) × Option Response
  cache_get now entries key = elim (lookup key entries) [
    | none ↦ (entries, none)
    | some (payload, expires_at) ↦
        if after now expires_at then (remove key entries, none) else (entries, some payload)
  ]

  unfoldable pub cache_set :
      ℕ → Time → Map (Response × Time) → String → Response → Map (Response × Time)
  cache_set ttl now entries key payload = insert key (payload, now + ttl) entries

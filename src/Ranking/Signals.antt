-- ===== src/Ranking/Signals.antt =====
-- services/ranking-service/internal/usecase/signals.go: what the reactions to articles say of tags and
-- sources. The argument `f` stands for float64.
pub mod Laws
pub mod Spec
use articleflow.Go.Result.{ok, err, Result}
use articleflow.Contracts.User.{
  reaction_dislike, reaction_skip, reaction_open, reaction_save, reaction_like, ReactionType,
}
use articleflow.Dedup.{dedup}
use articleflow.Contracts.Events.{UserReactionCreatedEvent, validate_reaction}
use articleflow.Go.Map.{insert, Map, lookup_or}
use articleflow.Go.Text.{trim_space, cat, is_empty, to_lower}
use articleflow.Prelude.{◌==◌, List, ◌&&◌, false, ◌∷◌, true, Bool, [], if◌then◌else◌, String}
use articleflow.Prelude.Int.{pos, negsuc}
use articleflow.Go.Float.{Float64}
use articleflow.Contracts.Feed.{FeedItem}

unfoldable pub normalized_source : String → String
normalized_source source = to_lower (trim_space source)

unfoldable pub normalized_tags : List String → List String
unfolding dedup
normalized_tags tags = dedup (λ tag. trim_space (to_lower tag)) (λ tag. tag) is_empty tags

-- `if len(tags) > 0 { articleTags[id] = tags }`
abbrev pub put_tags : String → List String → Map (List String) → Map (List String)
put_tags id [] article_tags = article_tags
put_tags id (tag ∷ tags) article_tags = insert id (tag ∷ tags) article_tags

module _ (f : Float64) where
  pub record SignalStore : Type 0 where
    pub article_tags : Map (List String)
    pub article_sources : Map String
    pub tag_weights : Map f.Float
    pub source_weights : Map f.Float

  abbrev pub new_signal_store : SignalStore
  new_signal_store = record {
    article_tags = [];
    article_sources = [];
    tag_weights = [];
    source_weights = [];
  }

  abbrev pub zero_float : f.Float
  zero_float = f.of_int (pos 0)

  -- weights[key], 0 where there is none.
  abbrev pub weight_of : String → Map f.Float → f.Float
  weight_of key weights = lookup_or zero_float key weights

  -- weights[key] += weight
  unfoldable pub add_weight : f.Float → Map f.Float → String → Map f.Float
  add_weight weight weights key = insert key (f.add (weight_of key weights) weight) weights

  unfoldable pub add_weights : f.Float → Map f.Float → List String → Map f.Float
  unfolding add_weight
  add_weights weight weights [] = weights
  add_weights weight weights (tag ∷ tags) = add_weights weight (add_weight weight weights tag) tags

  unfoldable pub remember_article : SignalStore → FeedItem f.Float → SignalStore
  unfolding normalized_tags normalized_source
  remember_article store item =
      let tags = normalized_tags item.tags in
      let source = normalized_source item.source_name in
      if is_empty (trim_space item.article_id) then store else record store {
        article_tags = put_tags item.article_id tags store.article_tags;
        article_sources =
            if is_empty source
            then store.article_sources
            else insert item.article_id source store.article_sources;
      }

  unfoldable pub reaction_weight : ReactionType → Result f.Float
  unfolding cat
  reaction_weight type =
      if type == reaction_like
      then ok (f.of_int (pos 4))
      else if type == reaction_save
      then ok (f.of_int (pos 8))
      else if type == reaction_open
      then ok (f.of_int (pos 1))
      else if type == reaction_skip
      then ok (f.of_int (negsuc 2))
      else if type == reaction_dislike
      then ok (f.of_int (negsuc 7))
      else err (cat "unsupported reaction type: " type)

  -- The part of RecordReaction after the checks.
  unfoldable pub add_reaction : f.Float → SignalStore → String → SignalStore
  unfolding add_weights
  add_reaction weight store article_id =
      let source = lookup_or "" article_id store.article_sources in
      record store {
        tag_weights =
            add_weights weight store.tag_weights (lookup_or [] article_id store.article_tags);
        source_weights =
            if is_empty source
            then store.source_weights
            else add_weight (f.div weight (f.of_int (pos 2))) store.source_weights source;
      }

  unfoldable pub record_reaction :
      SignalStore → UserReactionCreatedEvent → SignalStore × Result (Unit {0})
  unfolding validate_reaction reaction_weight add_reaction
  record_reaction store event = elim (validate_reaction event) [
    | err e ↦ (store, err e)
    | ok _ ↦ elim (reaction_weight event.type) [
      | err e ↦ (store, err e)
      | ok weight ↦ (add_reaction weight store event.article_id, ok tt)
    ]
  ]

  -- The loop of ApplyToScore over the tags.
  unfoldable pub add_tag_weights : Map f.Float → f.Float → List String → f.Float
  add_tag_weights weights score [] = score
  add_tag_weights weights score (tag ∷ tags) =
      add_tag_weights weights (f.add score (weight_of tag weights)) tags

  unfoldable pub at_least_zero : f.Float → f.Float
  at_least_zero score = if f.less score zero_float then zero_float else score

  unfoldable pub apply_to_score : SignalStore → f.Float → FeedItem f.Float → f.Float
  unfolding normalized_tags normalized_source add_tag_weights at_least_zero
  apply_to_score store base_score item =
      let tags = normalized_tags item.tags in
      let source = normalized_source item.source_name in
      let tagged = add_tag_weights store.tag_weights base_score tags in
      let no_tags : Bool = elim tags [ [] ↦ true | _ ∷ _ ↦ false ] in
      if no_tags && is_empty source
      then base_score
      else at_least_zero
          (if is_empty source then tagged else f.add tagged (weight_of source store.source_weights))

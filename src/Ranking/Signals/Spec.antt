-- ===== src/Ranking/Signals/Spec.antt =====
-- What the signals of services/ranking-service/internal/usecase/signals.go are meant to be, as
-- functions of the article, the tag and the source.
use articleflow.Dedup.Laws.{has_key}
use articleflow.Prelude.{◌==◌, ◌&&◌, if◌then◌else◌, ◌∷◌, List, [], not, String}
use articleflow.Prelude.Int.{pos}
use articleflow.Go.Float.{Float64}
use articleflow.Go.Text.{is_empty, trim_space}
use articleflow.Go.Result.{Result, ok, err}
use articleflow.Contracts.Feed.{FeedItem}
use articleflow.Contracts.Events.{UserReactionCreatedEvent, validate_reaction}
use articleflow.Ranking.Signals.{
  SignalStore, new_signal_store, zero_float, normalized_tags, normalized_source, remember_article,
  reaction_weight, record_reaction,
}

-- What reaches the ranking service: an article that it scores, and a reaction of a user.
pub data SignalEvent (Score : Type 0) : Type 0 where
  remembered : FeedItem Score → SignalEvent Score
  reacted : UserReactionCreatedEvent → SignalEvent Score

module _ (f : Float64) where
  -- The tags and the source of each article, and the weight of each tag and each source.
  pub record SignalSpec : Type 0 where
    pub tags_of : String → List String
    pub source_of : String → String
    pub tag_weight : String → f.Float
    pub source_weight : String → f.Float

  abbrev pub nothing_known : SignalSpec
  nothing_known = record {
    tags_of = λ _. [];
    source_of = λ _. "";
    tag_weight = λ _. zero_float f;
    source_weight = λ _. zero_float f;
  }

  -- What an article that is scored says of the tags of an article, if it has tags.
  abbrev pub tags_after : String → List String → (String → List String) → String → List String
  tags_after article_id [] tags_of id = tags_of id
  tags_after article_id (tag ∷ tags) tags_of id =
      if article_id == id then tag ∷ tags else tags_of id

  -- An article is known by its id; without tags or source, what was known of it stays.
  abbrev pub spec_remember : FeedItem f.Float → SignalSpec → SignalSpec
  spec_remember item spec =
      let source = normalized_source item.source_name in
      if is_empty (trim_space item.article_id) then spec else record spec {
        tags_of = tags_after item.article_id (normalized_tags item.tags) spec.tags_of;
        source_of = λ id.
            if not (is_empty source) && item.article_id == id then source else spec.source_of id;
      }

  -- A reaction adds its weight to each tag of the article, and the half of it to the source.
  abbrev pub spec_react : f.Float → String → SignalSpec → SignalSpec
  spec_react weight id spec = record spec {
    tag_weight = λ tag.
        if has_key (λ t. t) tag (spec.tags_of id)
        then f.add (spec.tag_weight tag) weight
        else spec.tag_weight tag;
    source_weight = λ source.
        if not (is_empty (spec.source_of id)) && spec.source_of id == source
        then f.add (spec.source_weight source) (f.div weight (f.of_int (pos 2)))
        else spec.source_weight source;
  }

  -- The weight of an event that is whole and of a known type.
  abbrev pub counted : UserReactionCreatedEvent → Result f.Float
  counted event = elim (validate_reaction event) [
    | err e ↦ err e
    | ok _ ↦ reaction_weight f event.type
  ]

  abbrev pub spec_step : SignalEvent f.Float → SignalSpec → SignalSpec
  spec_step (remembered item) spec = spec_remember item spec
  spec_step (reacted event) spec = elim (counted event) [
    | err _ ↦ spec
    | ok weight ↦ spec_react weight event.article_id spec
  ]

  abbrev pub store_step : SignalEvent f.Float → SignalStore f → SignalStore f
  store_step (remembered item) store = remember_article f store item
  store_step (reacted event) store = (record_reaction f store event).0

  -- The specification and the store after some events, the latest first.
  abbrev pub spec_of : List (SignalEvent f.Float) → SignalSpec
  spec_of [] = nothing_known
  spec_of (event ∷ events) = spec_step event (spec_of events)

  abbrev pub store_of : List (SignalEvent f.Float) → SignalStore f
  store_of [] = new_signal_store f
  store_of (event ∷ events) = store_step event (store_of events)

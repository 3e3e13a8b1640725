-- ===== src/Ranking/Signals/Laws.antt =====
-- The store of signals against a specification that only says, for each article, tag and source, what
-- is known of it.
use articleflow.Dedup.Laws.{dedup-DistinctKeys, has_key, DistinctKeys}
use articleflow.Prelude.{
  false, true, Bool, ap, ◌∙◌, eq_iff, inr, inl, Bool-cases, ◌==◌, ◌&&◌, refl, if◌then◌else◌, ◌∷◌,
  List, ◌≡◌, [], not, String,
}
use articleflow.Prelude.Int.{pos}
use articleflow.Go.Float.{Float64}
use articleflow.Go.Text.{to_lower, is_empty, trim_space}
use articleflow.Go.Result.{Result-cases}
use articleflow.Go.Map.{insert, lookup, lookup_or-insert, Map, lookup_or}
use articleflow.Contracts.Feed.{FeedItem}
use articleflow.Contracts.Events.{validate_reaction}
use articleflow.Ranking.Signals.{
  add_reaction, put_tags, SignalStore, zero_float, weight_of, add_weight, add_weights,
  normalized_tags, normalized_source, remember_article, reaction_weight, record_reaction,
}
use articleflow.Ranking.Signals.Spec.{
  SignalEvent, remembered, reacted, SignalSpec, tags_after, spec_remember, spec_react, counted,
  spec_step, store_step, spec_of, store_of,
}

module _ (f : Float64) where
  -- The store says the same as the specification, and names each tag of an article once.
  pub record Implements (spec : SignalSpec f) (store : SignalStore f) : Type 0 where
    pub tags : (id : String) → lookup_or [] id store.article_tags ≡ spec.tags_of id
    pub sources : (id : String) → lookup_or "" id store.article_sources ≡ spec.source_of id
    pub tag_weights : (tag : String) → weight_of f tag store.tag_weights ≡ spec.tag_weight tag
    pub source_weights :
        (source : String) → weight_of f source store.source_weights ≡ spec.source_weight source
    pub distinct : (id : String) → DistinctKeys (λ tag. tag) (spec.tags_of id)

  weight_of-add_weight :
      (weight : f.Float) (weights : Map f.Float) (key other : String)
      → weight_of f other (add_weight f weight weights key) ≡ (
          if key == other
          then f.add (weight_of f other weights) weight
          else weight_of f other weights)
  unfolding add_weight
  weight_of-add_weight weight weights key other =
      let found =
        lookup_or-insert (zero_float f) key other (f.add (weight_of f key weights) weight)
          weights in
      elim (Bool-cases (key == other)) [
        | inl same ↦
            found
            ∙ rw same (ap (λ k. f.add (weight_of f k weights) weight) ((eq_iff key other).0 same))
        | inr differs ↦ found ∙ rw differs refl
      ]

  weight_of-add_weights :
      (weight : f.Float) (weights : Map f.Float) (tags : List String) (tag : String)
      → DistinctKeys (λ t. t) tags
      → weight_of f tag (add_weights f weight weights tags) ≡ (
          if has_key (λ t. t) tag tags
          then f.add (weight_of f tag weights) weight
          else weight_of f tag weights)
  unfolding add_weights
  weight_of-add_weights weight weights [] tag d = refl
  weight_of-add_weights weight weights (t ∷ tags) tag (new, d) =
      let rest = weight_of-add_weights weight (add_weight f weight weights t) tags tag d in
      let here = weight_of-add_weight weight weights t tag in
      elim (Bool-cases (t == tag)) [
        | inl same ↦
            let alone = rw ((eq_iff t tag).0 same) at new in
            rest ∙ rw (same, alone) (here ∙ rw same refl)
        | inr differs ↦
            rest
            ∙ rw differs (
                ap (λ w. if has_key (λ x. x) tag tags then f.add w weight else w)
                  (here ∙ rw differs refl))
      ]

  put_tags-tags_after :
      (id key : String) (tags : List String) (known : Map (List String)) (spec : SignalSpec f)
      → ((id : String) → lookup_or [] id known ≡ spec.tags_of id)
      → lookup_or [] id (put_tags key tags known) ≡ tags_after f key tags spec.tags_of id
  put_tags-tags_after id key [] known spec h = h id
  put_tags-tags_after id key (tag ∷ tags) known spec h =
      lookup_or-insert [] key id (tag ∷ tags) known
      ∙ ap (λ (old : List String). if key == id then tag ∷ tags else old) (h id)

  tags_after-DistinctKeys :
      (id key : String) (tags : List String) (spec : SignalSpec f)
      → DistinctKeys (λ t. t) tags
      → ((id : String) → DistinctKeys (λ t. t) (spec.tags_of id))
      → DistinctKeys (λ t. t) (tags_after f key tags spec.tags_of id)
  tags_after-DistinctKeys id key [] spec d h = h id
  tags_after-DistinctKeys id key (tag ∷ tags) spec d h = elim (Bool-cases (key == id)) [
    | inl same ↦ rw same d
    | inr differs ↦ rw differs (h id)
  ]

  -- The source of an article, and a weight of it, where the source is not blank.
  put_source_lem :
      (blank : Bool) (key id source : String) (known : Map String)
      → lookup_or "" id (if blank then known else insert key source known)
        ≡ (if not blank && key == id then source else lookup_or "" id known)
  put_source_lem true key id source known = refl
  put_source_lem false key id source known = lookup_or-insert "" key id source known

  add_source_lem :
      (blank : Bool) (weight : f.Float) (weights : Map f.Float) (key source : String)
      → weight_of f source (if blank then weights else add_weight f weight weights key) ≡ (
          if not blank && key == source
          then f.add (weight_of f source weights) weight
          else weight_of f source weights)
  add_source_lem true weight weights key source = refl
  add_source_lem false weight weights key source = weight_of-add_weight weight weights key source

  spec_remember-Implements :
      (item : FeedItem f.Float) (spec : SignalSpec f) (store : SignalStore f)
      → Implements spec store
      → Implements (spec_remember f item spec) (remember_article f store item)
  unfolding remember_article normalized_tags
  spec_remember-Implements item spec store h =
      let tags = normalized_tags item.tags in
      let source = normalized_source item.source_name in
      let distinct =
        dedup-DistinctKeys (λ tag. trim_space (to_lower tag)) (λ tag. tag) is_empty item.tags in
      elim (Bool-cases (is_empty (trim_space item.article_id))) [
        | inl blank ↦ rw (remember_article, blank) h
        | inr known ↦
            rw (remember_article, known)
              (record {
                tags = λ id.
                    put_tags-tags_after id item.article_id tags store.article_tags spec h.tags;
                sources = λ id.
                    put_source_lem (is_empty source) item.article_id id source store.article_sources
                    ∙ ap
                        (λ (old : String).
                          if not (is_empty source) && item.article_id == id then source else old)
                        (h.sources id);
                tag_weights = h.tag_weights;
                source_weights = h.source_weights;
                distinct =
                    λ id. tags_after-DistinctKeys id item.article_id tags spec distinct h.distinct;
              })
      ]

  spec_react-Implements :
      (weight : f.Float) (id : String) (spec : SignalSpec f) (store : SignalStore f)
      → Implements spec store
      → Implements (spec_react f weight id spec) (add_reaction f weight store id)
  unfolding add_reaction
  spec_react-Implements weight id spec store h = record {
    tags = h.tags;
    sources = h.sources;
    tag_weights = λ tag. rw (h.tags id) (
        weight_of-add_weights weight store.tag_weights (spec.tags_of id) tag (h.distinct id)
        ∙ ap (λ w. if has_key (λ t. t) tag (spec.tags_of id) then f.add w weight else w)
            (h.tag_weights tag));
    source_weights = λ source.
        let half = f.div weight (f.of_int (pos 2)) in
        let key = spec.source_of id in
        rw (h.sources id) (
          add_source_lem (is_empty key) half store.source_weights key source
          ∙ ap (λ w. if not (is_empty key) && key == source then f.add w half else w)
              (h.source_weights source));
    distinct = h.distinct;
  }

  store_step-Implements :
      (event : SignalEvent f.Float) (spec : SignalSpec f) (store : SignalStore f)
      → Implements spec store
      → Implements (spec_step f event spec) (store_step f event store)
  unfolding record_reaction
  store_step-Implements (remembered item) spec store h = spec_remember-Implements item spec store h
  store_step-Implements (reacted event) spec store h =
      elim (Result-cases (validate_reaction event)) [
        | inr (message, e) ↦ rw (store_step, spec_step, counted, record_reaction, e) h
        | inl (done, e) ↦ elim (Result-cases (reaction_weight f event.type)) [
          | inr (message, e') ↦ rw (store_step, spec_step, counted, record_reaction, e, e') h
          | inl (weight, e') ↦
              rw (store_step, spec_step, counted, record_reaction, e, e')
                (spec_react-Implements weight event.article_id spec store h)
        ]
      ]

  -- After any events the store knows of every article, tag and source what the specification says: a
  -- reaction counts once for each tag of its article, however often the article names the tag and
  -- however it writes it, and an event that is not whole or of no known type counts nowhere.
  pub store_of-Implements :
      (events : List (SignalEvent f.Float)) → Implements (spec_of f events) (store_of f events)
  unfolding lookup
  store_of-Implements [] = record {
    tags = λ id. refl;
    sources = λ id. refl;
    tag_weights = λ tag. refl;
    source_weights = λ source. refl;
    distinct = λ id. tt;
  }
  store_of-Implements (event ∷ events) =
      store_step-Implements event (spec_of f events) (store_of f events)
        (store_of-Implements events)

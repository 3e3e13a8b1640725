-- ===== src/Ranking/Rank.antt =====
-- services/ranking-service/internal/usecase/rank.go. The argument `f` stands for float64; `now` is the
-- value of time.Now().
pub mod Laws
use Prim.Native.Nat.{◌%◌}
use articleflow.Ranking.Diversity.{compact_reasons, diversify_ranked_items}
use articleflow.Prelude.Int.{ℤ}
use articleflow.Go.Sort.{sort_stable}
use articleflow.Contracts.User.{
  reaction_dislike, reaction_skip, reaction_open, reaction_save, reaction_like, UserReaction,
}
use articleflow.Contracts.Events.{FeedItemScoredEvent, ArticleDiscoveredEvent}
use articleflow.Go.Text.{contains, join, is_empty, cat, to_lower, fields}
use articleflow.Prelude.{
  ℕ, map, ◌&&◌, false, [], ◌==◌, ◌/◌, not, ◌-◌, none, some, if◌then◌else◌, ◌∷◌, min, List, Bool,
  ◌++◌, Option, String,
}
use articleflow.Prelude.Int.{pos, negsuc}
use articleflow.Go.Float.{Float64}
use articleflow.Go.Time.{Time, is_zero}
use articleflow.Go.Decimal.{max_int}
use articleflow.Contracts.Feed.{FeedItem}
use articleflow.Contracts.Parser.{SearchQuery}
use articleflow.Ranking.Signals.{at_least_zero, remember_article, apply_to_score, SignalStore}

-- The id of the article of a discovered event.
unfoldable pub article_id : ArticleDiscoveredEvent → String
unfolding cat
article_id event =
    if not (is_empty event.source_name) && not (is_empty event.external_id)
    then cat event.source_name (cat ":" event.external_id)
    else event.url

module _ (f : Float64) where
  -- The loop of scoreWithReasons over the terms of the query.
  unfoldable pub score_terms : String → f.Float × List String → List String → f.Float × List String
  unfolding cat contains
  score_terms text (score, reasons) [] = (score, reasons)
  score_terms text (score, reasons) (term ∷ terms) =
      score_terms text
        (if contains text term
          then (f.add score (f.of_int (pos 10)), reasons ++ cat "query_match:" term ∷ [])
          else (score, reasons))
        terms

  -- now.Sub(published_at).Hours(), 0 where the article is from the future. A Duration holds 2^63 - 1
  -- nanoseconds at most.
  unfoldable pub age_hours : Time → Time → f.Float
  age_hours now published_at =
      let nanoseconds : ℕ = min (now - published_at) max_int in
      let hour : ℕ = 3_600_000_000_000 in
      f.add (f.of_int (pos (nanoseconds / hour)))
        (f.div (f.of_int (pos (nanoseconds % hour))) (f.of_int (pos hour)))

  unfoldable pub freshness_score : Time → Time → f.Float
  unfolding age_hours
  freshness_score now published_at =
      f.div (f.of_int (pos 20))
        (f.add (f.of_int (pos 1)) (f.div (age_hours now published_at) (f.of_int (pos 24))))

  unfoldable pub score_source : FeedItem f.Float → f.Float × List String → f.Float × List String
  score_source item (score, reasons) =
      if item.source_name == "habr"
      then (f.add score (f.of_int (pos 3)), reasons ++ "source_boost:habr" ∷ [])
      else (score, reasons)

  unfoldable pub score_freshness :
      Time → FeedItem f.Float → f.Float × List String → f.Float × List String
  unfolding freshness_score
  score_freshness now item (score, reasons) =
      if is_zero item.published_at
      then (score, reasons)
      else (f.add score (freshness_score now item.published_at), reasons ++ "freshness" ∷ [])

  unfoldable pub score_signals :
      Option (SignalStore f) → FeedItem f.Float → f.Float × List String → f.Float × List String
  unfolding apply_to_score
  score_signals none item (score, reasons) = (score, reasons)
  score_signals (some signals) item (score, reasons) =
      let signalled = apply_to_score f signals score item in
      if f.equal signalled score
      then (signalled, reasons)
      else (signalled, reasons ++ "reaction_signals" ∷ [])

  unfoldable pub score_with_reasons :
      Time → Option (SignalStore f) → List String → FeedItem f.Float → f.Float × List String
  unfolding to_lower cat join score_terms score_source score_freshness score_signals compact_reasons
  score_with_reasons now signals terms item =
      let text =
        to_lower (cat item.title (cat " " (cat item.summary (cat " " (join item.tags " "))))) in
      let (score, reasons) = score_signals signals item (
        score_freshness now item
          (score_source item (score_terms text (f.of_int (pos 0), []) terms))) in
      (score, compact_reasons reasons)

  abbrev pub scored_item :
      Time → Option (SignalStore f) → List String → FeedItem f.Float → FeedItem f.Float
  scored_item now signals terms item =
      let (score, reasons) = score_with_reasons now signals terms item in
      record item { score = score; score_reasons = reasons }

  abbrev pub higher : FeedItem f.Float → FeedItem f.Float → Bool
  higher a b = f.less b.score a.score

  unfoldable pub rank :
      Time
      → Option (SignalStore f)
      → SearchQuery
      → List (FeedItem f.Float)
      → List (FeedItem f.Float)
  unfolding fields to_lower score_with_reasons diversify_ranked_items
  rank now signals query items =
      let terms = fields (to_lower query.text) in
      diversify_ranked_items f (sort_stable higher (map (scored_item now signals terms) items))

  abbrev pub item_of_discovered : ArticleDiscoveredEvent → FeedItem f.Float
  item_of_discovered event = record {
    article_id = article_id event;
    title = event.title;
    summary = event.summary;
    source_name = event.source_name;
    url = event.url;
    tags = event.tags;
    score = f.of_int (pos 0);
    score_reasons = [];
    reaction = "";
    saved = false;
    published_at = event.published_at;
  }

  -- The signals, which remember the article, and the event of its score.
  unfoldable pub rank_discovered :
      Time
      → Option (SignalStore f)
      → ArticleDiscoveredEvent
      → Option (SignalStore f) × FeedItemScoredEvent f.Float
  unfolding article_id score_with_reasons remember_article
  rank_discovered now signals event =
      let item = item_of_discovered event in
      let (score, reasons) = score_with_reasons now signals [] item in
      (
        elim signals [ none ↦ none | some store ↦ some (remember_article f store item) ],
        record {
          article_id = item.article_id;
          source_name = item.source_name;
          url = item.url;
          title = item.title;
          summary = item.summary;
          tags = item.tags;
          score = score;
          score_reasons = reasons;
          published_at = item.published_at;
          scored_at = now;
        },
      )

  -- The loop of ReactionScorer.Apply.
  unfoldable pub apply_reactions_from : f.Float → List UserReaction → f.Float
  apply_reactions_from score [] = score
  apply_reactions_from score (reaction ∷ reactions) =
      let by = λ (change : ℤ). f.add score (f.of_int change) in
      let next : f.Float =
        if reaction.type == reaction_like
        then by (pos 4)
        else if reaction.type == reaction_save
        then by (pos 8)
        else if reaction.type == reaction_open
        then by (pos 2)
        else if reaction.type == reaction_skip
        then by (negsuc 2)
        else if reaction.type == reaction_dislike
        then by (negsuc 7)
        else score in
      apply_reactions_from next reactions

  -- ReactionScorer.Apply
  unfoldable pub apply_reactions : f.Float → List UserReaction → f.Float
  unfolding apply_reactions_from at_least_zero
  apply_reactions base_score reactions = at_least_zero f (apply_reactions_from base_score reactions)

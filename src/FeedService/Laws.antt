-- ===== src/FeedService/Laws.antt =====
-- What the feed shows, and in which order.
use mathlib.Core.List.Perm
use articleflow.Go.Sort.{sort_stable-Sorted, keep_if-Sorted, sort_stable-perm, Sorted, IsWeakOrder}
use articleflow.Prelude.{
  length-perm, length, take, ap, inr, inl, Bool-cases, some, if◌then◌else◌, ◌≢◌, true, [], false,
  ◌==◌, ◌⊎◌, arith, Perm, keep_if, ◌≡◌, ℕ, List, String,
}
use articleflow.Prelude.Int.{ℤ, pos}
use articleflow.Go.Float.{Float64, IsOrdered}
use articleflow.Go.Text.{is_empty}
use articleflow.Go.Text.Laws.{is_empty_iff}
use articleflow.Go.Map.{lookup, lookup-insert, member-nil}
use articleflow.Go.Result.{ok, err}
use articleflow.Contracts.Feed.{FeedItem}
use articleflow.Contracts.Events.{FeedItemScoredEvent}
use articleflow.RoundRobin.Grouping.{interleave-perm}
use articleflow.RoundRobin.Order.{keep_if-interleave}
use articleflow.FeedService.{
  sort_stable, limit_feed_items, list_scored, MemoryFeed, item_of_event, upsert_scored_item,
  feed_source, interleave_feed_items_by_source, effective_limit, scored_before,
}

module _ {Score : Type 0} where
  -- Interleaving the feed loses no item and doubles none.
  pub interleave_feed_items_by_source-perm :
      (items : List (FeedItem Score)) → Perm (interleave_feed_items_by_source items) items
  unfolding interleave_feed_items_by_source
  interleave_feed_items_by_source-perm items = interleave-perm feed_source [] [] items tt member-nil

  interleave_feed_items_by_source-order :
      (items : List (FeedItem Score)) (t : String)
      → keep_if (λ x. feed_source x == t) (interleave_feed_items_by_source items)
        ≡ keep_if (λ x. feed_source x == t) items
  unfolding interleave_feed_items_by_source
  interleave_feed_items_by_source-order items t =
      keep_if-interleave feed_source [] [] items tt member-nil t

  -- An event without an article id is refused and changes nothing; any other is the one item of its
  -- article from then on, and leaves the items of the other articles and the plain articles alone.
  pub upsert_scored_item_lem :
      (feed : MemoryFeed Score) (event : FeedItemScoredEvent Score) (id : String)
      → ((event.article_id ≡ "")
          × (upsert_scored_item feed event ≡ (feed, err "article id is required")))
        ⊎ ((event.article_id ≢ "")
            × ((upsert_scored_item feed event).1 ≡ ok tt)
            × (lookup id (upsert_scored_item feed event).0.scored ≡ (
                if event.article_id == id
                then some (item_of_event event)
                else lookup id feed.scored))
            × ((upsert_scored_item feed event).0.articles ≡ feed.articles))
  unfolding upsert_scored_item
  upsert_scored_item_lem feed event id = elim (Bool-cases (is_empty event.article_id)) [
    | inl e ↦ inl ((is_empty_iff event.article_id).0 e, rw (e, upsert_scored_item))
    | inr e ↦ inr (
      (λ h. cc (ap is_empty h)),
      rw (e, upsert_scored_item),
      rw (e, upsert_scored_item)
          (lookup-insert event.article_id id (item_of_event event) feed.scored),
      rw (e, upsert_scored_item),
    )
  ]

effective_limit_again :
    (limit : ℤ) (n : ℕ)
    → effective_limit (pos (effective_limit limit n)) n ≡ effective_limit limit n
unfolding effective_limit
effective_limit_again limit n = ground arith

module _ (f : Float64) (ordered : IsOrdered f) where
  scored_before-asym :
      (a b : FeedItem f.Float) → scored_before f a b ≡ true → scored_before f b a ≡ false
  unfolding scored_before
  scored_before-asym a b h = ground (
    arith,
    ordered.equal_iff a.score b.score,
    ordered.equal_iff b.score a.score,
    ordered.asym b.score a.score,
  )

  scored_before-ntrans :
      (a b c : FeedItem f.Float)
      → scored_before f b a ≡ false
      → scored_before f c b ≡ false
      → scored_before f c a ≡ false
  unfolding scored_before
  scored_before-ntrans a b c h k = ground (
    arith,
    ordered.equal_iff b.score a.score,
    ordered.equal_iff c.score b.score,
    ordered.equal_iff c.score a.score,
    ordered.ntrans a.score b.score c.score,
    ordered.ntrans c.score b.score a.score,
    ordered.ntrans a.score c.score b.score,
    ordered.ntrans b.score c.score a.score,
    ordered.ntrans b.score a.score c.score,
    ordered.ntrans c.score a.score b.score,
    ordered.asym a.score b.score,
    ordered.asym b.score c.score,
    ordered.asym a.score c.score,
    ordered.asym b.score a.score,
    ordered.asym c.score b.score,
    ordered.asym c.score a.score,
  )

  scored_before-IsWeakOrder : IsWeakOrder (scored_before f)
  scored_before-IsWeakOrder = record { asym = scored_before-asym; ntrans = scored_before-ntrans }

  -- The listing of the scored items, up to the limit that is applied, is the beginning of a full
  -- list, which holds each item of the map once and in which the items of every source stand best
  -- score first, and of one score newest first.
  pub list_scored_prefix :
      (visited : List (FeedItem f.Float)) (limit : ℤ)
      → (full : List (FeedItem f.Float)) × Perm full visited
        × ((source : String)
            → Sorted (scored_before f) (keep_if (λ x. feed_source x == source) full))
        × (list_scored f visited limit ≡ take (effective_limit limit (length visited)) full)
  unfolding list_scored limit_feed_items
  list_scored_prefix visited limit = (full, whole, in_order, prefix)
    where
      sorted : List (FeedItem f.Float)
      sorted = sort_stable (scored_before f) visited

      full : List (FeedItem f.Float)
      full = interleave_feed_items_by_source sorted

      whole : Perm full visited
      whole =
          Perm.trans (interleave_feed_items_by_source-perm sorted)
            (sort_stable-perm (scored_before f) visited)

      in_order :
          (source : String) → Sorted (scored_before f) (keep_if (λ x. feed_source x == source) full)
      in_order source = rw (interleave_feed_items_by_source-order sorted source) (
          keep_if-Sorted (scored_before f) (λ x. feed_source x == source) sorted
            (sort_stable-Sorted (scored_before f) scored_before-IsWeakOrder visited))

      prefix : list_scored f visited limit ≡ take (effective_limit limit (length visited)) full
      prefix = rw (
        length-perm whole,
        length-perm (sort_stable-perm (scored_before f) visited),
        effective_limit_again limit (length visited),
      )

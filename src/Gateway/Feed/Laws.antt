-- ===== src/Gateway/Feed/Laws.antt =====
-- What a user no longer sees, and what the cache gives.
use articleflow.Prelude.{
  refl, ◌+◌, ltb, keep_if_neg, sym, keep_if_pos, ℕ, ap, ◌∙◌, ◌∷◌, keep_if, [], map, if◌then◌else◌,
  ◌≡◌, ◌||◌, ◌&&◌, ◌==◌, true, false, String, Bool, List, not, leb, none, some, arith, eq_iff, any,
  Option-cases, inl, inr, Bool-cases,
}
use articleflow.Go.Text.{trim_space, is_empty}
use articleflow.Go.Map.{Map, lookup, lookup-insert}
use articleflow.Contracts.User.{UserReaction}
use articleflow.Gateway.Feed.{
  Time, cache_set, keep_reactions, latest_reactions_by_article, cache_get, apply_reactions,
  FeedItem, apply_user_reactions, insert, hides_feed_item, reaction_priority, supersedes,
  keep_reaction,
}

-- Some reaction skips or dislikes the article; a blank article id is nobody's.
abbrev pub rejects : String → List UserReaction → Bool
rejects id reactions =
    any
      (λ reaction.
        reaction.article_id == id
        && not (is_empty (trim_space reaction.article_id))
        && hides_feed_item reaction.type)
      reactions

-- The reaction that the map has for the article hides it.
unfoldable hidden : String → Map UserReaction → Bool
hidden id by_article = elim (lookup id by_article) [
  | none ↦ false
  | some reaction ↦ hides_feed_item reaction.type
]

hides-priority : (type : String) → hides_feed_item type ≡ leb 3 (reaction_priority type)
unfolding hides_feed_item reaction_priority
hides-priority type = ground arith

priority_bound : (type : String) → leb (reaction_priority type) 3 ≡ true
unfolding reaction_priority
priority_bound type = ground arith

hidden-insert :
    (key id : String) (reaction : UserReaction) (by_article : Map UserReaction)
    → hidden id (insert key reaction by_article)
      ≡ (if key == id then hides_feed_item reaction.type else hidden id by_article)
unfolding hidden
hidden-insert key id reaction by_article = ground (arith, lookup-insert key id reaction by_article)

hidden-keep_reaction :
    (id : String) (by_article : Map UserReaction) (reaction : UserReaction)
    → hidden id (keep_reaction by_article reaction) ≡ (
        reaction.article_id == id
          && not (is_empty (trim_space reaction.article_id))
          && hides_feed_item reaction.type
        || hidden id by_article)
unfolding hidden keep_reaction supersedes
hidden-keep_reaction id by_article reaction =
    let own = reaction.article_id in
    let found = hidden-insert own id reaction by_article in
    let same_id = eq_iff own id in
    let rule = hides-priority reaction.type in
    let most = priority_bound reaction.type in
    elim (Bool-cases (is_empty (trim_space own))) [
      | inl blank ↦ rw (keep_reaction, blank) (ground arith)
      | inr proper ↦ elim (Option-cases (lookup own by_article)) [
        | inl missing ↦ rw (keep_reaction, proper, missing, found) (ground (arith, same_id))
        | inr (current, e) ↦
            let rule' = hides-priority current.type in
            let most' = priority_bound current.type in
            elim (Bool-cases (supersedes reaction current)) [
              | inl newer ↦ rw (keep_reaction, proper, e, newer, found) (ground (arith, same_id))
              | inr older ↦ rw (keep_reaction, proper, e, older) (ground (arith, same_id))
            ]
      ]
    ]

hidden-keep_reactions :
    (id : String) (by_article : Map UserReaction) (reactions : List UserReaction)
    → hidden id (keep_reactions by_article reactions)
      ≡ (hidden id by_article || rejects id reactions)
unfolding keep_reactions
hidden-keep_reactions id by_article [] = ground arith
hidden-keep_reactions id by_article (reaction ∷ reactions) = ground (
  arith,
  hidden-keep_reactions id (keep_reaction by_article reaction) reactions,
  hidden-keep_reaction id by_article reaction,
)

latest_rejects :
    (id : String) (reactions : List UserReaction)
    → hidden id (latest_reactions_by_article reactions) ≡ rejects id reactions
unfolding latest_reactions_by_article hidden lookup
latest_rejects id reactions = hidden-keep_reactions id [] reactions

module _ {Score : Type 0} where
  abbrev ids : List (FeedItem Score) → List String
  ids items = map (λ item. item.article_id) items

  apply_reactions-ids :
      (by_article : Map UserReaction) (stays : FeedItem Score → Bool)
      (items : List (FeedItem Score))
      → ((item : FeedItem Score) → stays item ≡ not (hidden item.article_id by_article))
      → ids (apply_reactions by_article items) ≡ ids (keep_if stays items)
  unfolding apply_reactions hidden
  apply_reactions-ids by_article stays [] h = refl
  apply_reactions-ids by_article stays (item ∷ items) h =
      let rest = apply_reactions-ids by_article stays items h in
      elim (Option-cases (lookup item.article_id by_article)) [
        | inl missing ↦
            let kept : stays item ≡ true = h item ∙ rw (hidden, missing) refl in
            rw (apply_reactions, missing, keep_if_pos stays item items kept)
              (ap (λ l. item.article_id ∷ l) rest)
        | inr (reaction, e) ↦ elim (Bool-cases (hides_feed_item reaction.type)) [
          | inl hides ↦
              let dropped : stays item ≡ false = h item ∙ rw (hidden, e, hides) refl in
              rw (apply_reactions, e, hides, keep_if_neg stays item items dropped) rest
          | inr shows ↦
              let kept : stays item ≡ true = h item ∙ rw (hidden, e, shows) refl in
              rw (apply_reactions, e, shows, keep_if_pos stays item items kept)
                (ap (λ l. item.article_id ∷ l) rest)
        ]
      ]

  -- The user sees, in the order of the feed, the articles that none of the user's reactions skips or
  -- dislikes, whatever else the user did with them before or after.
  pub apply_user_reactions-ids :
      (items : List (FeedItem Score)) (reactions : List UserReaction)
      → map (λ (item : FeedItem Score). item.article_id) (apply_user_reactions items reactions)
        ≡ map
            (λ (item : FeedItem Score). item.article_id)
            (keep_if (λ item. not (rejects item.article_id reactions)) items)
  unfolding apply_user_reactions
  apply_user_reactions-ids items reactions =
      apply_reactions-ids (latest_reactions_by_article reactions)
        (λ item. not (rejects item.article_id reactions)) items
        (λ item. ap not (sym (latest_rejects item.article_id reactions)))

module _ {Response : Type 0} where
  -- A response is found under its key until its time is over, and not after that; what stands under
  -- other keys is found as before.
  pub cache_get-cache_set :
      (ttl now now' : ℕ) (entries : Map (Response × Time)) (key other : String) (payload : Response)
      → (cache_get now' (cache_set ttl now entries key payload) other).1 ≡ (
          if key == other
          then if ltb (now + ttl) now' then none else some payload
          else (cache_get now' entries other).1)
  unfolding cache_get cache_set
  cache_get-cache_set ttl now now' entries key other payload =
      let found = lookup-insert key other (payload, now + ttl) entries in ground (arith, found)

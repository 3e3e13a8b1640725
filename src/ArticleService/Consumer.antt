-- ===== src/ArticleService/Consumer.antt =====
-- services/article-service: ConsumerLoop (internal/runtime/consumer_loop.go) and DiscoveredHandler
-- (internal/transport/kafka). What Fetch gives, one call after the other, is a list; decoding JSON and
-- the broker's commit are arguments.
pub mod Laws
use articleflow.Prelude.{
  true, ◌&&◌, ◌==◌, if◌then◌else◌, not, String, Bool, List, [], ◌∷◌, ◌++◌, length, ℕ, Option, none,
  some, leb,
}
use articleflow.Prelude.Int.{ℤ, pos, pos_part, leb_ℤ}
use articleflow.Go.Time.{Time}
use articleflow.Go.Result.{Result, ok, err}
use articleflow.Contracts.Events.{
  ArticleDiscoveredEvent, ArticleCreatedEvent, topic_article_discovered,
}
use articleflow.ArticleService.Ingest.{ArticleStore, ingest_discovered}

pub record Message : Type 0 where
  pub topic : String
  pub key : String
  pub value : String

-- Handle of the messages about discovered articles.
unfoldable pub handle :
    {S : Type 0}
    → ArticleStore S
    → (String → String)
    → (String → Result ArticleDiscoveredEvent)
    → Option String
    → Time
    → S
    → Message
    → S × Result ArticleCreatedEvent
unfolding ingest_discovered
handle store digest decode cancelled now s message =
    if not (message.topic == topic_article_discovered)
    then (s, err "unexpected kafka topic")
    else elim (decode message.value) [
      | err e ↦ (s, err e)
      | ok event ↦ ingest_discovered store digest cancelled now s event
    ]

-- What a call of Fetch gives: a message, the end of the topic or of the context, or an error.
pub data Fetched : Type 0 where
  message : Message → Fetched
  closed : Fetched
  broken : String → Fetched

-- The state of the handler, the messages handled without an error and those committed, and whether
-- the loop has returned, with its error if there is one. It waits if Fetch gives nothing more.
pub record Consumed (S : Type 0) : Type 0 where
  pub state : S
  pub handled : List Message
  pub committed : List Message
  pub returned : Bool
  pub error : Option String

module _ {S : Type 0} (handler : S → Message → S × Option String) (commit : Message → Option String)
    (max_messages : ℤ) where
  abbrev is_full : ℕ → Bool
  is_full handled = not (leb_ℤ max_messages (pos 0)) && leb (pos_part max_messages) handled

  abbrev stops : S → List Message → List Message → Option String → Consumed S
  stops s handled committed e = record {
    state = s;
    handled = handled;
    committed = committed;
    returned = true;
    error = e;
  }

  abbrev waits_or_full : S → List Message → Consumed S
  waits_or_full s done = record {
    state = s;
    handled = done;
    committed = done;
    returned = is_full (length done);
    error = none;
  }

  -- The loop from the point on where these messages have been handled and committed. A consumer that
  -- does not commit has a `commit` that does nothing.
  unfoldable pub consume_from : S → List Message → List Fetched → Consumed S
  consume_from s done [] = waits_or_full s done
  consume_from s done (closed ∷ fetches) = stops s done done none
  consume_from s done (broken e ∷ fetches) =
      stops s done done (if is_full (length done) then none else some e)
  consume_from s done (message m ∷ fetches) =
      let (s', failure) = handler s m in
      let done' = done ++ m ∷ [] in
      let rest = consume_from s' done' fetches in
      if is_full (length done) then stops s done done none else elim failure [
        | some e ↦ stops s' done done (some e)
        | none ↦ elim (commit m) [ some e ↦ stops s' done' done (some e) | none ↦ rest ]
      ]

  -- Run, which also closes the consumer.
  unfoldable pub consume : S → List Fetched → Consumed S
  unfolding consume_from
  consume s fetches = consume_from s [] fetches

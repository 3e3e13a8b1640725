-- ===== src/ParserService/Rss.antt =====
-- services/parser-service/internal/usecase/publish_discovered.go: PublishFromRSS. What the RSS parser
-- gives is an argument, and so is the producer, with the marshalling of the event.
use mathlib.Core.List.{append_assoc, append-nil}
use articleflow.Prelude.{
  ◌∙◌, ap, All, sym, ◌≡◌, [], ◌∷◌, ◌++◌, String, List, Option, none, some, refl, inl, inr,
  Option-cases,
}
use articleflow.Go.Result.{Result, ok, err, Result-cases}
use articleflow.Contracts.Events.{ArticleDiscoveredEvent, validate_discovered}

module _ (publish : ArticleDiscoveredEvent → Option String) where
  -- The loop, with the events that the producer has taken.
  unfoldable pub publish_events :
      List ArticleDiscoveredEvent
      → List ArticleDiscoveredEvent
      → List ArticleDiscoveredEvent × Option String
  publish_events sent [] = (sent, none)
  publish_events sent (event ∷ events) =
      let rest = publish_events (sent ++ event ∷ []) events in
      elim (validate_discovered event) [
        | err e ↦ (sent, some e)
        | ok _ ↦ elim (publish event) [ some e ↦ (sent, some e) | none ↦ rest ]
      ]

  unfoldable pub publish_from_rss :
      Result (List ArticleDiscoveredEvent) → List ArticleDiscoveredEvent × Option String
  unfolding publish_events
  publish_from_rss parsed = elim parsed [
    | err e ↦ ([], some e)
    | ok events ↦ publish_events [] events
  ]

  -- What a loop that published `sent` before has published at its end: a prefix of the events, all
  -- valid and taken, and all of them exactly if it reports no error.
  pub record IsPublished (sent events : List ArticleDiscoveredEvent)
      (outcome : List ArticleDiscoveredEvent × Option String) : Type 0 where
    pub first : List ArticleDiscoveredEvent
    pub left : List ArticleDiscoveredEvent
    pub split : events ≡ first ++ left
    pub sent_first : outcome.0 ≡ sent ++ first
    pub taken : All (λ event. (validate_discovered event ≡ ok tt) × (publish event ≡ none)) first
    pub complete : outcome.1 ≡ none → left ≡ []
    pub partial : left ≡ [] → outcome.1 ≡ none

  publish_events-IsPublished :
      (sent events : List ArticleDiscoveredEvent)
      → IsPublished sent events (publish_events sent events)
  unfolding publish_events
  publish_events-IsPublished sent [] = record {
    first = [];
    left = [];
    split = refl;
    sent_first = sym (append-nil sent);
    taken = tt;
    complete = λ e. refl;
    partial = λ e. refl;
  }
  publish_events-IsPublished sent (event ∷ events) =
      let stops : (e : String)
          → publish_events sent (event ∷ events) ≡ (sent, some e)
          → IsPublished sent (event ∷ events) (publish_events sent (event ∷ events)) =
        λ e same. rw same (record {
          first = [];
          left = event ∷ events;
          split = refl;
          sent_first = sym (append-nil sent);
          taken = tt;
          complete = λ h. cc;
          partial = λ h. cc;
        }) in
      elim (Result-cases (validate_discovered event)) [
        | inr (e, invalid) ↦ stops e (rw (publish_events, invalid) refl)
        | inl (done, valid) ↦ elim (Option-cases (publish event)) [
          | inr (e, refused) ↦ stops e (rw (publish_events, valid, refused) refl)
          | inl took ↦
              let rest = publish_events-IsPublished (sent ++ event ∷ []) events in
              rw (publish_events, valid, took)
                (record {
                  first = event ∷ rest.first;
                  left = rest.left;
                  split = ap (λ l. event ∷ l) rest.split;
                  sent_first = rest.sent_first ∙ append_assoc sent (event ∷ []) rest.first;
                  taken = ((valid, took), rest.taken);
                  complete = rest.complete;
                  partial = rest.partial;
                })
        ]
      ]

  -- PublishFromRSS publishes a prefix of the events that the parser gives, all of them valid and taken
  -- by the producer, and it publishes all exactly if it reports no error.
  pub publish_from_rss-IsPublished :
      (events : List ArticleDiscoveredEvent) → IsPublished [] events (publish_from_rss (ok events))
  unfolding publish_from_rss
  publish_from_rss-IsPublished events = publish_events-IsPublished [] events

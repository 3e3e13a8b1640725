-- ===== src/ArticleService/Ingest/Laws.antt =====
-- Ingesting events: the store stays consistent, and the first event of a URL is the one that counts.
use articleflow.Prelude.{
  [], refl, ◌∙◌, ◌∷◌, sym, ap, List, Option-cases, arith, some, inl, inr, none, Option, ◌≡◌, String,
}
use articleflow.Go.Time.{Time}
use articleflow.Go.Result.{Result-cases, Result, ok, err}
use articleflow.Contracts.Events.{ArticleDiscoveredEvent, ArticleCreatedEvent, validate_discovered}
use articleflow.ArticleService.Store.{find_by_url, MemoryArticleStore, save}
use articleflow.ArticleService.Store.Laws.{
  save_known, find_by_url-save, find_by_url-save_kept, IsConsistent, save-IsConsistent,
}
use articleflow.ArticleService.Ingest.{
  KeepsFirst, Article, ArticleStore, memory_store, article_of, created_event, ingest_discovered,
}

abbrev ingest :
    (String → String)
    → Option String
    → Time
    → MemoryArticleStore
    → ArticleDiscoveredEvent
    → MemoryArticleStore × Result ArticleCreatedEvent
ingest = ingest_discovered memory_store

module _ (digest : String → String) where
  -- Taking in an event, whatever it says, keeps the two indexes of the store consistent.
  pub ingest-IsConsistent :
      (cancelled : Option String) (now : Time) (s : MemoryArticleStore) (e : ArticleDiscoveredEvent)
      → IsConsistent s
      → IsConsistent (ingest digest cancelled now s e).0
  unfolding ingest_discovered
  ingest-IsConsistent cancelled now s e h = elim (Result-cases (validate_discovered e)) [
    | inr (m, bad) ↦ rw (bad, ingest_discovered) h
    | inl (u, good) ↦ elim (Option-cases cancelled) [
      | inr (m, done) ↦ rw (good, done, ingest_discovered) h
      | inl live ↦
          rw (good, live, ingest_discovered) (save-IsConsistent s (article_of digest now e) h)
    ]
  ]

save_known-store :
    (s : MemoryArticleStore) (a b : Article) → find_by_url s a.url ≡ some b → (save s a).0 ≡ s
save_known-store s a b e = ap (λ (r : MemoryArticleStore × Article). r.0) (save_known s a b e)

pub memory_store-KeepsFirst : KeepsFirst memory_store find_by_url
memory_store-KeepsFirst = record {
  stays = find_by_url-save_kept;
  returned = λ s a b e.
      find_by_url-save s a
      ∙ ap some (ap (λ (r : Result Article). elim r [ ok c ↦ c | err _ ↦ a ]) e);
  known = λ s a b e. save_known-store s a b e;
}

-- A call of IngestDiscovered: whether its context is done, its time, its event.
pub record Call : Type 0 where
  pub cancelled : Option String
  pub now : Time
  pub event : ArticleDiscoveredEvent

module _ {S : Type 0} (store : ArticleStore S) (digest : String → String) where
  abbrev pub ingest_call : S → Call → S × Result ArticleCreatedEvent
  ingest_call s call = ingest_discovered store digest call.cancelled call.now s call.event

  -- One after the other, some calls; each may be refused.
  abbrev pub ingest_all : S → List Call → S
  ingest_all s [] = s
  ingest_all s (call ∷ calls) = ingest_all (ingest_call s call).0 calls

  -- What a call that succeeds has saved.
  abbrev pub Took : S → Call → ArticleCreatedEvent → Type 0
  Took s call created =
      let saved = store.save_article s (article_of digest call.now call.event) in
      (article : Article) × (saved.1 ≡ ok article)
      × (created ≡ created_event article)
      × ((ingest_call s call).0 ≡ saved.0)

  ingest_call-Took :
      (s : S) (call : Call) (created : ArticleCreatedEvent)
      → (ingest_call s call).1 ≡ ok created
      → Took s call created
  unfolding ingest_discovered
  ingest_call-Took s call created h = elim (Result-cases (validate_discovered call.event)) [
    | inr (m, bad) ↦ absurd (ground (arith, rw (ingest_discovered, bad) at h))
    | inl (u, good) ↦ elim (Option-cases call.cancelled) [
      | inr (m, done) ↦ absurd (ground (arith, rw (ingest_discovered, good, done) at h))
      | inl live ↦
          let saved = store.save_article s (article_of digest call.now call.event) in
          elim (Result-cases saved.1) [
            | inr (m, failed) ↦
                absurd (ground (arith, rw (ingest_discovered, good, live, failed) at h))
            | inl (article, took) ↦ (
              article,
              took,
              ap (λ (r : Result ArticleCreatedEvent). elim r [ ok c ↦ c | err _ ↦ created ])
                  (sym (rw (ingest_discovered, good, live, took) at h)),
              rw (ingest_discovered, good, live) refl,
            )
          ]
    ]
  ]

  module _ (find : S → String → Option Article) (keeps : KeepsFirst store find) where
    find-ingest_call :
        (s : S) (call : Call) (b : Article) (url : String)
        → find s url ≡ some b
        → find (ingest_call s call).0 url ≡ some b
    unfolding ingest_discovered
    find-ingest_call s call b url h = elim (Result-cases (validate_discovered call.event)) [
      | inr (m, bad) ↦ rw (bad, ingest_discovered) h
      | inl (u, good) ↦ elim (Option-cases call.cancelled) [
        | inr (m, done) ↦ rw (good, done, ingest_discovered) h
        | inl live ↦
            rw (good, live, ingest_discovered)
              (keeps.stays s (article_of digest call.now call.event) b url h)
      ]
    ]

    find-ingest_all :
        (s : S) (calls : List Call) (b : Article) (url : String)
        → find s url ≡ some b
        → find (ingest_all s calls) url ≡ some b
    find-ingest_all s [] b url h = h
    find-ingest_all s (call ∷ calls) b url h =
        find-ingest_all (ingest_call s call).0 calls b url (find-ingest_call s call b url h)

    -- Over a store that keeps the first article of each URL, and may fail to save: where two calls for
    -- one URL succeed, whatever calls come between them and however those end, the second one gets the
    -- event of the first one, and changes nothing.
    pub ingest_again :
        (s : S) (first : Call) (between : List Call) (again : Call)
        (created created' : ArticleCreatedEvent)
        → again.event.url ≡ first.event.url
        → (ingest_call s first).1 ≡ ok created
        → (ingest_call (ingest_all (ingest_call s first).0 between) again).1 ≡ ok created'
        → (created' ≡ created)
          × ((ingest_call (ingest_all (ingest_call s first).0 between) again).0
              ≡ ingest_all (ingest_call s first).0 between)
    unfolding article_of
    ingest_again s first between again created created' same e e' =
        let later = ingest_all (ingest_call s first).0 between in
        let (article, saved, said, left) = ingest_call-Took s first created e in
        let (article', saved', said', left') = ingest_call-Took later again created' e' in
        let here : find (ingest_call s first).0 first.event.url ≡ some article =
          rw left (keeps.returned s (article_of digest first.now first.event) article saved) in
        let known : find later again.event.url ≡ some article =
          rw same (find-ingest_all (ingest_call s first).0 between article first.event.url here) in
        let stays =
          keeps.stays later (article_of digest again.now again.event) article again.event.url
            known in
        let returned =
          keeps.returned later (article_of digest again.now again.event) article' saved' in
        let one : some article' ≡ some article = sym returned ∙ stays in
        (
          said'
              ∙ ap created_event
                  (ap (λ (found : Option Article). elim found [ some c ↦ c | none ↦ article ]) one)
              ∙ sym said,
          left' ∙ keeps.known later (article_of digest again.now again.event) article known,
        )

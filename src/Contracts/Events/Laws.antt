-- ===== src/Contracts/Events/Laws.antt =====
-- Which events pass their validation.
use articleflow.Prelude.{◌↔◌, inr, inl, Bool-cases, ap, arith, false, ◌≢◌, ◌≡◌}
use articleflow.Go.Text.{trim_space, is_empty}
use articleflow.Go.Text.Laws.{is_empty_iff}
use articleflow.Go.Result.{ok}
use articleflow.Contracts.Events.{String, ArticleDiscoveredEvent, validate_discovered}

-- A text with something besides spaces.
abbrev pub Filled : String → Type 0
Filled s = trim_space s ≢ ""

filled : (s : String) → is_empty (trim_space s) ≡ false → Filled s
filled s e h = cc (ap is_empty h)

pub not_empty : (s : String) → Filled s → is_empty (trim_space s) ≡ false
not_empty s h = elim (Bool-cases (is_empty (trim_space s))) [
  | inl e ↦ absurd (h ((is_empty_iff _).0 e))
  | inr e ↦ e
]

pub validate_discovered_sound :
    (e : ArticleDiscoveredEvent)
    → validate_discovered e ≡ ok tt
    → Filled e.source_name
      × Filled e.external_id
      × Filled e.url
      × Filled e.title
      × (e.discovered_at ≢ 0)
unfolding validate_discovered
validate_discovered_sound e h = (
  filled _ (ground arith),
  filled _ (ground arith),
  filled _ (ground arith),
  filled _ (ground arith),
  ground arith,
)

validate_discovered_complete :
    (e : ArticleDiscoveredEvent)
    → Filled e.source_name
    → Filled e.external_id
    → Filled e.url
    → Filled e.title
    → e.discovered_at ≢ 0
    → validate_discovered e ≡ ok tt
unfolding validate_discovered
validate_discovered_complete e s x u t d =
    simp
      (not_empty e.source_name s, not_empty e.external_id x, not_empty e.url u, not_empty e.title t)
      (ground arith)

-- What makes an event about a discovered article whole.
pub record IsComplete (e : ArticleDiscoveredEvent) : Type 0 where
  pub source_name : Filled e.source_name
  pub external_id : Filled e.external_id
  pub url : Filled e.url
  pub title : Filled e.title
  pub discovered_at : e.discovered_at ≢ 0

-- An event passes its validation exactly if its source, its id there, its URL and its title have
-- something besides spaces and it has a date of discovery.
pub validate_discovered_iff :
    (e : ArticleDiscoveredEvent) → (validate_discovered e ≡ ok tt) ↔ IsComplete e
validate_discovered_iff e = (
  λ h.
      let (source, id, link, name, date) = validate_discovered_sound e h in
      record {
        source_name = source;
        external_id = id;
        url = link;
        title = name;
        discovered_at = date;
      },
  λ c. validate_discovered_complete e c.source_name c.external_id c.url c.title c.discovered_at,
)

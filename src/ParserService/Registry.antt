-- ===== src/ParserService/Registry.antt =====
-- services/parser-service/internal/sources/runtime.go: the sources that can be turned off at run time.
use articleflow.Prelude.{
  ◌≡◌, ◌&&◌, ◌==◌, if◌then◌else◌, false, [], ◌∷◌, ◌++◌, String, Bool, List, Option, none, some, map,
  inl, inr, Bool-cases, refl,
}
use articleflow.Go.Text.{trim_space, is_empty}
use articleflow.Go.Map.{Map, lookup, lookup_or, insert, lookup-insert}
use articleflow.Contracts.Parser.{ParserSource}

pub record RuntimeRegistry : Type 0 where
  pub sources : Map ParserSource
  pub order : List String

abbrev pub no_source : ParserSource
no_source = record {
  name = "";
  display_name = "";
  kind = "";
  enabled = false;
  searchable = false;
  notes = "";
}

-- One round of the loop of NewRuntimeRegistry.
unfoldable pub register : RuntimeRegistry → ParserSource → RuntimeRegistry
register registry source =
    let name = trim_space source.name in
    let named : ParserSource = record source { name = name } in
    if is_empty name then registry else record {
      sources = insert name named registry.sources;
      order = elim (lookup name registry.sources) [
        | none ↦ registry.order ++ name ∷ []
        | some _ ↦ registry.order
      ];
    }

unfoldable pub register_all : RuntimeRegistry → List ParserSource → RuntimeRegistry
unfolding register
register_all registry [] = registry
register_all registry (source ∷ sources) = register_all (register registry source) sources

unfoldable pub new_runtime_registry : List ParserSource → RuntimeRegistry
unfolding register_all
new_runtime_registry sources = register_all (record { sources = []; order = [] }) sources

unfoldable pub list_sources : RuntimeRegistry → List ParserSource
list_sources registry = map (λ name. lookup_or no_source name registry.sources) registry.order

unfoldable pub set_enabled : RuntimeRegistry → String → Bool → RuntimeRegistry × Option ParserSource
set_enabled registry name enabled =
    let key = trim_space name in
    elim (lookup key registry.sources) [
      | none ↦ (registry, none)
      | some source ↦
          let changed : ParserSource = record source { enabled = enabled } in
          (record registry { sources = insert key changed registry.sources }, some changed)
    ]

unfoldable pub is_enabled : RuntimeRegistry → String → Bool
is_enabled registry name = elim (lookup (trim_space name) registry.sources) [
  | none ↦ false
  | some source ↦ source.enabled && source.searchable
]

-- Turning a registered source on or off changes the answer for that source alone, to whether it is
-- turned on and searchable; the order of the sources stays, and the changed source is returned.
pub set_enabled_lem :
    (registry : RuntimeRegistry) (name other : String) (enabled : Bool) (source : ParserSource)
    → lookup (trim_space name) registry.sources ≡ some source
    → let (registry', found) = set_enabled registry name enabled in
      (is_enabled registry' other ≡ (
        if trim_space name == trim_space other
        then enabled && source.searchable
        else is_enabled registry other))
      × (registry'.order ≡ registry.order)
      × (found ≡ some (record source { enabled = enabled }))
unfolding set_enabled is_enabled
set_enabled_lem registry name other enabled source e =
    let changed : ParserSource = record source { enabled = enabled } in
    let stored = lookup-insert (trim_space name) (trim_space other) changed registry.sources in
    elim (Bool-cases (trim_space name == trim_space other)) [
      | inl same ↦ (
        rw (set_enabled, e, is_enabled, stored, same) refl,
        rw (set_enabled, e) refl,
        rw (set_enabled, e) refl,
      )
      | inr differs ↦ (
        rw (set_enabled, e, is_enabled, stored, differs) refl,
        rw (set_enabled, e) refl,
        rw (set_enabled, e) refl,
      )
    ]

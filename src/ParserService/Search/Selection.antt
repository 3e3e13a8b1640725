-- ===== src/ParserService/Search/Selection.antt =====
-- Which sources a search asks.
use articleflow.Prelude.{
  false, keep_if_neg, if◌then◌else◌, keep_if_pos, keep_if, List-cases, ◌≡◌, ◌||◌, not, Bool, true,
  List, [], ◌∷◌, ◌++◌, String, arith, All, All-append, Bool-cases, inl, inr,
}
use articleflow.Go.Text.{trim_space, is_empty}
use articleflow.Go.Map.{lookup-insert_self, insert, lookup-insert}
use articleflow.Contracts.Parser.{SearchQuery}
use articleflow.ParserService.Search.Sources.{
  Parser, Usecase, has_parser, add_parsers, new_usecase, keep_named, selected_sources,
}

-- A source that is enabled and has a parser.
abbrev pub IsSearchable : Usecase → String → Type 0
IsSearchable usecase source =
    (has_parser usecase source ≡ true) × (usecase.source_enabled source ≡ true)

abbrev HasParser : Usecase → String → Type 0
HasParser usecase source = (has_parser usecase source ≡ true)

keep_named-IsSearchable :
    (usecase : Usecase) (raws : List String) → All (IsSearchable usecase) (keep_named usecase raws)
unfolding keep_named
keep_named-IsSearchable usecase [] = tt
keep_named-IsSearchable usecase (raw ∷ raws) =
    let source = trim_space raw in
    let rest = keep_named-IsSearchable usecase raws in
    elim (Bool-cases
      (is_empty source || not (has_parser usecase source) || not (usecase.source_enabled source))) [
        | inl skipped ↦ rw (keep_named, skipped) rest
        | inr kept ↦ rw (keep_named, kept) ((ground arith, ground arith), rest)
      ]

keep_if-IsSearchable :
    (usecase : Usecase) (sources : List String)
    → All (HasParser usecase) sources
    → All (IsSearchable usecase) (keep_if usecase.source_enabled sources)
keep_if-IsSearchable usecase [] h = tt
keep_if-IsSearchable usecase (source ∷ sources) (p, h) =
    let rest = keep_if-IsSearchable usecase sources h in
    elim (Bool-cases (usecase.source_enabled source)) [
      | inl on ↦ rw (keep_if_pos usecase.source_enabled source sources on) ((p, on), rest)
      | inr off ↦ rw (keep_if_neg usecase.source_enabled source sources off) rest
    ]

HasParser-insert :
    (usecase : Usecase) (key : String) (parser : Parser) (order sources : List String)
    → All (HasParser usecase) sources
    → All
        (HasParser
          (record usecase { parsers = insert key parser usecase.parsers; source_order = order }))
        sources
HasParser-insert usecase key parser order [] h = tt
HasParser-insert usecase key parser order (source ∷ sources) (p, h) = (
  ground (arith, lookup-insert key source parser usecase.parsers),
  HasParser-insert usecase key parser order sources h,
)

HasParser-either :
    (skips : Bool) (usecase added : Usecase)
    → All (HasParser usecase) usecase.source_order
    → All (HasParser added) added.source_order
    → let chosen = if skips then usecase else added in All (HasParser chosen) chosen.source_order
HasParser-either true usecase added h k = h
HasParser-either false usecase added h k = k

add_parsers-HasParser :
    (usecase : Usecase) (parsers : List Parser)
    → All (HasParser usecase) usecase.source_order
    → let usecase' = add_parsers usecase parsers in All (HasParser usecase') usecase'.source_order
unfolding add_parsers
add_parsers-HasParser usecase [] h = h
add_parsers-HasParser usecase (parser ∷ parsers) h =
    let source = trim_space parser.source_name in
    let order = usecase.source_order ++ source ∷ [] in
    let added : Usecase = record usecase {
      parsers = insert source parser usecase.parsers;
      source_order = order;
    } in
    let own : HasParser added source =
      ground (arith, lookup-insert_self source parser usecase.parsers) in
    let older = HasParser-insert usecase source parser order usecase.source_order h in
    let all = All-append (HasParser added) usecase.source_order (source ∷ []) older (own, tt) in
    add_parsers-HasParser (if is_empty source then usecase else added) parsers
      (HasParser-either (is_empty source) usecase added h all)

-- A search asks only sources that are enabled and have a parser, so that it never calls one that is
-- missing, whichever sources the query names and however the use case was built.
pub selected_sources-IsSearchable :
    (parsers : List Parser) (enabled : String → Bool) (query : SearchQuery)
    → let usecase = new_usecase parsers enabled in
      All (IsSearchable usecase) (selected_sources usecase query)
unfolding new_usecase selected_sources
selected_sources-IsSearchable parsers enabled query = elim (List-cases query.sources) [
  | inl e ↦
      rw (selected_sources, e)
        (keep_if-IsSearchable (new_usecase parsers enabled) _ (
          add_parsers-HasParser
            (record { parsers = []; source_order = []; source_enabled = enabled }) parsers tt))
  | inr (source, sources, e) ↦
      rw (selected_sources, e)
        (keep_named-IsSearchable (new_usecase parsers enabled) (source ∷ sources))
]

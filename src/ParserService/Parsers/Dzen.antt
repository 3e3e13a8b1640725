-- ===== src/ParserService/Parsers/Dzen.antt =====
-- services/parser-service/internal/parsers/dzen/html.go: the article in a page of dzen.ru. The fields
-- of a decoded object stand in the order in which Go ranges over them. `matches` gives what the
-- regular expression of a field finds in a text: nothing, or the match and its group.
pub mod Laws
use articleflow.Dedup.{dedup}
use articleflow.Go.Decimal.{atoi}
use articleflow.Prelude.{
  ◌*◌, ◌+◌, not, ◌||◌, none, some, ◌∷◌, if◌then◌else◌, ◌==◌, [], false, List, Option, Bool, String,
}
use articleflow.Prelude.Int.{pos_part, ltb_ℤ, leb_ℤ, pos}
use articleflow.Go.Time.{Time, is_zero}
use articleflow.Go.Text.{is_empty, trim_space, fields, join}
use articleflow.Go.Text.Split.{split}
use articleflow.ParserService.Parsers.Json.{
  null, boolean, number, text, array, object, no_items, item, no_fields, field, Json, Items, Fields,
  get_field,
}
use articleflow.ParserService.Parsers.Page.{Tools}

-- cleanText of dzen
unfoldable pub clean_page_text : String → String
unfolding fields join
clean_page_text value = join (fields (trim_space value)) " "

-- cleanStrings of dzen
unfoldable pub clean_tags : List String → List String
unfolding dedup clean_page_text
clean_tags values = dedup clean_page_text (λ value. value) is_empty values

abbrev pub is_article_name : String → Bool
is_article_name type = type == "Article" || type == "NewsArticle" || type == "BlogPosting"

module _ {Number : Type 0} where
  unfoldable pub trimmed_string : Json Number → String
  trimmed_string (text s) = trim_space s
  trimmed_string _ = ""

  unfoldable mutual
    pub is_article_type : Json Number → Bool
    is_article_type (text type) = is_article_name type
    is_article_type (array items) = some_article_type items
    is_article_type null = false
    is_article_type (boolean b) = false
    is_article_type (number n) = false
    is_article_type (object _) = false

    pub some_article_type : Items Number → Bool
    some_article_type no_items = false
    some_article_type (item value items) = is_article_type value || some_article_type items

  abbrev pub first_found : Option (Fields Number) → Option (Fields Number) → Option (Fields Number)
  first_found none later = later
  first_found (some node) later = some node

  -- The search of a graph, or of the fields where there is none.
  abbrev pub graph_or :
      Option (Option (Fields Number)) → Option (Fields Number) → Option (Fields Number)
  graph_or none in_fields = in_fields
  graph_or (some in_graph) in_fields = in_graph

  abbrev pub last_graph :
      Option (Option (Fields Number)) → Option (Fields Number) → Option (Option (Fields Number))
  last_graph none here = some here
  last_graph (some later) here = some later

  unfoldable mutual
    unfolding is_article_type get_field

    pub find_dzen_node : Json Number → Option (Fields Number)
    find_dzen_node (object fields) =
        let in_fields = search_fields fields in
        let in_graph = search_graph fields in
        if is_article_type (get_field "@type" fields)
        then some fields
        else graph_or in_graph in_fields
    find_dzen_node (array items) = search_items items
    find_dzen_node null = none
    find_dzen_node (boolean b) = none
    find_dzen_node (number n) = none
    find_dzen_node (text s) = none

    pub search_items : Items Number → Option (Fields Number)
    search_items no_items = none
    search_items (item value items) = first_found (find_dzen_node value) (search_items items)

    pub search_fields : Fields Number → Option (Fields Number)
    search_fields no_fields = none
    search_fields (field key value fields) =
        first_found (find_dzen_node value) (search_fields fields)

    -- The search of the field "@graph", if there is one.
    pub search_graph : Fields Number → Option (Option (Fields Number))
    search_graph no_fields = none
    search_graph (field key value fields) =
        let later = search_graph fields in
        let here = find_dzen_node value in if key == "@graph" then last_graph later here else later

  unfoldable mutual
    unfolding trimmed_string get_field join

    pub dzen_author : Json Number → String
    dzen_author (text s) = s
    dzen_author (object fields) = trimmed_string (get_field "name" fields)
    dzen_author (array items) = join (dzen_authors items) ", "
    dzen_author null = ""
    dzen_author (boolean b) = ""
    dzen_author (number n) = ""

    pub dzen_authors : Items Number → List String
    dzen_authors no_items = []
    dzen_authors (item value items) =
        let later = dzen_authors items in
        let name = dzen_author value in if is_empty name then later else name ∷ later

  unfoldable pub filled_strings : Items Number → List String
  unfolding trimmed_string
  filled_strings no_items = []
  filled_strings (item value items) =
      let later = filled_strings items in
      let keyword = trimmed_string value in if is_empty keyword then later else keyword ∷ later

  unfoldable pub dzen_keywords : Json Number → List String
  unfolding filled_strings split
  dzen_keywords (text s) = split s ","
  dzen_keywords (array items) = filled_strings items
  dzen_keywords _ = []

-- 10 digits are seconds, more are milliseconds.
unfoldable pub parse_unix_timestamp : List String → Time
unfolding atoi
parse_unix_timestamp (whole ∷ digits ∷ []) = elim (atoi digits) [
  | none ↦ 0
  | some value ↦
      if leb_ℤ value (pos 0)
      then 0
      else if ltb_ℤ (pos 9_999_999_999) value
      then (pos_part value + 62_135_596_800_000) * 1_000_000
      else (pos_part value + 62_135_596_800) * 1_000_000_000
]
parse_unix_timestamp _ = 0

module _ {Number : Type 0} (tools : Tools Number) (matches : String → String → List String) where
  unfoldable pub parse_dzen_time : String → Time
  parse_dzen_time value = elim (tools.parse_time (trim_space value)) [
    | none ↦ 0
    | some parsed ↦ if is_empty (trim_space value) then 0 else parsed
  ]

  -- The time in one script: of the two fields in seconds, else of the date.
  unfoldable pub embedded_time : String → Time
  unfolding parse_unix_timestamp parse_dzen_time
  embedded_time script =
      let publish_time = parse_unix_timestamp (matches "publishTime" script) in
      let add_time = parse_unix_timestamp (matches "addTime" script) in
      if not (is_zero publish_time)
      then publish_time
      else if not (is_zero add_time)
      then add_time
      else elim (matches "publishDate" script) [ whole ∷ date ∷ [] ↦ parse_dzen_time date | _ ↦ 0 ]

  unfoldable pub parse_embedded_published_at : List String → Time
  unfolding embedded_time
  parse_embedded_published_at [] = 0
  parse_embedded_published_at (script ∷ scripts) =
      let later = parse_embedded_published_at scripts in
      if is_zero (embedded_time script) then later else embedded_time script

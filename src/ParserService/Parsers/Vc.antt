-- ===== src/ParserService/Parsers/Vc.antt =====
-- services/parser-service/internal/parsers/vc/html.go: the article in a page of vc.ru. `order` gives
-- the fields of an object in the order in which Go ranges over them.
use Prim.Native.Char.{Char, code}
use articleflow.ParserService.Parsers.Json.{
  null, boolean, number, text, array, object, no_items, item, no_fields, field,
}
use articleflow.ParserService.Parsers.State.{extract_initial_state}
use articleflow.ParserService.Parsers.Texts.{clean_text, clean_strings}
use articleflow.Prelude.{
  eqb, ◌*◌, ◌||◌, ◌++◌, ◌==◌, ◌+◌, [], none, if◌then◌else◌, false, some, ◌∷◌, Bool, Option, List,
  String,
}
use articleflow.Go.Time.{Time}
use articleflow.ParserService.Parsers.Json.{
  boolean, items_of, item, field, object, array, fields_of, text, get_field, number, Json, Items,
  Fields,
}
use articleflow.ParserService.Parsers.Page.{first_parsed, Page, StructuredArticle, Tools}
use articleflow.Go.Text.{join, is_empty, contains, to_lower, has_prefix, trim_space, fields_func}

abbrev pub is_separator : Char → Bool
is_separator c = eqb (code c) b',' || eqb (code c) b'#'

abbrev pub names_article : String → Bool
names_article type = contains (to_lower type) "article"

module _ {Number : Type 0} where
  unfoldable pub as_string : Json Number → String
  as_string (text s) = s
  as_string _ = ""

  unfoldable pub strings_of_items : Items Number → List String
  unfolding as_string
  strings_of_items no_items = []
  strings_of_items (item value items) = as_string value ∷ strings_of_items items

  unfoldable pub keywords : Json Number → List String
  unfolding strings_of_items clean_strings fields_func
  keywords (text s) = clean_strings (fields_func is_separator s)
  keywords (array items) = clean_strings (strings_of_items items)
  keywords _ = []

  -- The author, and the first of a list of authors that is not blank.
  unfoldable mutual
    unfolding as_string get_field

    pub author_name : Json Number → String
    author_name (text s) = s
    author_name (object fields) = as_string (get_field "name" fields)
    author_name (array items) = author_of_items items
    author_name null = ""
    author_name (boolean b) = ""
    author_name (number n) = ""

    pub author_of_items : Items Number → String
    author_of_items no_items = ""
    author_of_items (item value items) =
        let later = author_of_items items in
        if is_empty (trim_space (author_name value)) then later else author_name value

  unfoldable pub string_field : Fields Number → List String → String
  unfolding as_string get_field
  string_field node [] = ""
  string_field node (key ∷ keys) =
      let later = string_field node keys in
      let value = as_string (get_field key node) in
      if is_empty (trim_space value) then later else value

  unfoldable pub some_names_article : Items Number → Bool
  unfolding as_string contains to_lower
  some_names_article no_items = false
  some_names_article (item value items) =
      names_article (as_string value) || some_names_article items

  unfoldable pub is_article_node : Fields Number → Bool
  unfolding get_field some_names_article
  is_article_node node = elim (get_field "@type" node) [
    | text type ↦ names_article type
    | array items ↦ some_names_article items
    | null ↦ false
    | boolean _ ↦ false
    | number _ ↦ false
    | object _ ↦ false
  ]

  -- The first article of the items of a graph.
  unfoldable pub article_of_graph : Items Number → Option (Fields Number)
  unfolding is_article_node
  article_of_graph no_items = none
  article_of_graph (item (object node) items) =
      let later = article_of_graph items in if is_article_node node then some node else later
  article_of_graph (item _ items) = article_of_graph items

  unfoldable pub find_article_node : Json Number → Option (Fields Number)
  unfolding article_of_graph get_field
  find_article_node (object node) = elim (article_of_graph (items_of (get_field "@graph" node))) [
    | some found ↦ some found
    | none ↦ if is_article_node node then some node else none
  ]
  find_article_node _ = none

module _ {Number : Type 0} (tools : Tools Number) where
  unfoldable pub html_fragment_text : String → String
  unfolding clean_text
  html_fragment_text fragment =
      if is_empty (trim_space fragment) then "" else elim (tools.html_text (trim_space fragment)) [
        | none ↦ clean_text (trim_space fragment)
        | some body ↦ clean_text body
      ]

  unfoldable pub texts_of_list : Items Number → List String
  unfolding html_fragment_text as_string
  texts_of_list no_items = []
  texts_of_list (item value items) = html_fragment_text (as_string value) ∷ texts_of_list items

  unfoldable pub texts_of_block : Fields Number → List String
  unfolding texts_of_list get_field
  texts_of_block block =
      let data_fields = fields_of (get_field "data" block) in
      let type = as_string (get_field "type" block) in
      if type == "text"
      then html_fragment_text (as_string (get_field "text" data_fields)) ∷ []
      else if type == "list"
      then texts_of_list (items_of (get_field "items" data_fields))
      else []

  -- The loop of contentFromBlocks.
  unfoldable pub texts_of_blocks : Items Number → List String
  unfolding texts_of_block
  texts_of_blocks no_items = []
  texts_of_blocks (item (object block) items) = texts_of_block block ++ texts_of_blocks items
  texts_of_blocks (item _ items) = texts_of_blocks items

  unfoldable pub content_from_blocks : Json Number → String
  unfolding texts_of_blocks clean_text join
  content_from_blocks value = clean_text (join (texts_of_blocks (items_of value)) " ")

  -- time.Unix of the whole seconds.
  unfoldable pub unix_time : Json Number → Time
  unix_time (number n) =
      if tools.is_positive n then (tools.whole n + 62_135_596_800) * 1_000_000_000 else 0
  unix_time _ = 0

  unfoldable pub parse_published_at : String → Time
  parse_published_at value = elim (tools.parse_time (trim_space value)) [
    | none ↦ 0
    | some parsed ↦ if is_empty (trim_space value) then 0 else parsed
  ]

  unfoldable pub article_of_entry : Fields Number → StructuredArticle
  unfolding content_from_blocks author_name keywords unix_time get_field
  article_of_entry entry = record {
    title = as_string (get_field "title" entry);
    summary = as_string (get_field "ogDescription" entry);
    content = content_from_blocks (get_field "blocks" entry);
    url = as_string (get_field "url" entry);
    author = author_name (get_field "author" entry);
    tags = keywords (get_field "keywords" entry);
    published_at = unix_time (get_field "date" entry);
  }

  -- The first field of the state that is an entry.
  unfoldable pub first_entry : Fields Number → Option StructuredArticle
  unfolding article_of_entry has_prefix
  first_entry no_fields = none
  first_entry (field key (object entry) fields) =
      let later = first_entry fields in
      if has_prefix key "entry@" then some (article_of_entry entry) else later
  first_entry (field key _ fields) = first_entry fields

  unfoldable pub parse_initial_state_payload :
      (Fields Number → Fields Number) → String → Option StructuredArticle
  unfolding first_entry
  parse_initial_state_payload order payload = elim (tools.decode payload) [
    | some (object state) ↦ first_entry (order state)
    | some _ ↦ none
    | none ↦ none
  ]

  unfoldable pub parse_initial_state_article :
      (Fields Number → Fields Number) → Page → StructuredArticle
  unfolding extract_initial_state parse_initial_state_payload first_parsed
  parse_initial_state_article order page =
      first_parsed
        (λ script. elim (extract_initial_state script) [
          | none ↦ none
          | some payload ↦ parse_initial_state_payload order payload
        ])
        page.scripts

  unfoldable pub parse_json_ld_article : String → Option StructuredArticle
  unfolding find_article_node string_field author_name keywords parse_published_at get_field
  parse_json_ld_article payload = elim (tools.decode payload) [
    | none ↦ none
    | some document ↦ elim (find_article_node document) [
      | none ↦ none
      | some node ↦ some (record {
        title = string_field node ("headline" ∷ "name" ∷ []);
        summary = string_field node ("description" ∷ []);
        content = string_field node ("text" ∷ "articleBody" ∷ []);
        url = string_field node ("url" ∷ []);
        author = author_name (get_field "author" node);
        tags = keywords (get_field "keywords" node);
        published_at = parse_published_at (string_field node ("datePublished" ∷ []));
      })
    ]
  ]

  -- The URL without its query and its fragment.
  unfoldable pub clean_url : String → String
  clean_url value = elim (tools.without_query (trim_space value)) [
    | none ↦ trim_space value
    | some cleaned ↦ cleaned
  ]

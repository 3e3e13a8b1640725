-- ===== src/Gateway/FeedQuery.antt =====
-- services/gateway-api/internal/transport/http/feed_handler.go: what the handler reads of a query.
-- `values` is net/url's parse of the raw query, and `parse_time` time.Parse for RFC 3339 in UTC.
pub mod Laws
use articleflow.Go.Result.{err, ok, Result}
use articleflow.Go.Text.Split.{split, cut_prefix}
use articleflow.Go.Time.{Time}
use articleflow.Go.Decimal.{atoi, itoa}
use articleflow.Go.Map.{Map}
use articleflow.Dedup.{keep_all, Kept}
use articleflow.Gateway.Http.{query_values, query_value}
use articleflow.Go.Text.{to_lower, trim_space, cat, is_empty}
use articleflow.Contracts.Parser.{normalize, SearchQuery}
use articleflow.Prelude.{
  some, none, ◌==◌, ◌||◌, [], Bool, ◌∷◌, leb, Option, List, ℕ, eqb, ltb, ◌*◌, ◌/◌, map,
  if◌then◌else◌, String,
}
use articleflow.Prelude.Int.{add_ℕ, leb_ℤ, ltb_ℤ, pos_part, ℤ, pos}

unfoldable pub parse_limit : Map (List String) → ℤ
unfolding query_value
parse_limit values = elim (atoi (query_value values "limit")) [
  | none ↦ pos 20
  | some limit ↦
      if leb_ℤ limit (pos 0) then pos 20 else if ltb_ℤ (pos 100) limit then pos 100 else limit
]

-- The outer loop of parseCSVQueryValues.
unfoldable keep_parts : Kept → List String → Kept
keep_parts kept [] = kept
keep_parts kept (raw_value ∷ raw_values) =
    keep_parts (keep_all trim_space (λ value. value) is_empty kept (split raw_value ",")) raw_values

unfoldable pub parse_csv_query_values : Map (List String) → String → List String
unfolding keep_parts
parse_csv_query_values values key =
    (keep_parts (record { seen = []; values = [] }) (query_values values key)).values

unfoldable pub parse_feed_cursor : String → ℤ
parse_feed_cursor raw_cursor =
    if is_empty (trim_space raw_cursor)
    then pos 0
    else elim (cut_prefix (trim_space raw_cursor) "offset:") [
      | none ↦ pos 0
      | some raw_offset ↦ elim (atoi (trim_space raw_offset)) [
        | none ↦ pos 0
        | some offset ↦ if ltb_ℤ offset (pos 0) then pos 0 else offset
      ]
    ]

-- The offset of the query is not negative here, and the sum stays below 2^63.
unfoldable pub next_feed_cursor : ℤ → ℕ → ℤ → String
unfolding cat
next_feed_cursor current_offset returned_count limit =
    if leb returned_count 0 || leb_ℤ limit (pos 0) || ltb_ℤ (pos returned_count) limit
    then ""
    else cat "offset:" (itoa (add_ℕ current_offset returned_count))

unfoldable pub parse_optional_time_query :
    (String → Option Time) → Map (List String) → String → Result (Option Time)
unfolding query_value
parse_optional_time_query parse_time values key =
    let raw_value = trim_space (query_value values key) in
    if is_empty raw_value then ok none else elim (parse_time raw_value) [
      | none ↦ err (cat key " must be an RFC3339 timestamp")
      | some parsed ↦ ok (some parsed)
    ]

unfoldable pub wants_refill : Map (List String) → Bool
unfolding query_value
wants_refill values =
    let raw_refill = to_lower (trim_space (query_value values "refill")) in
    raw_refill == "true" || raw_refill == "1" || raw_refill == "yes"

unfoldable pub refill_limit : ℤ → ℤ → ℤ
refill_limit configured feed_limit =
    let limit = pos_part feed_limit * 5 in
    if ltb_ℤ (pos 0) configured
    then if ltb_ℤ (pos 100) configured then pos 100 else configured
    else if ltb limit 80
    then pos 80
    else if ltb 100 limit
    then pos 100
    else pos limit

-- The number of items below which a refill starts.
unfoldable pub refill_minimum : ℤ → ℤ → ℤ
refill_minimum configured limit =
    let half = pos_part limit / 2 in
    if ltb_ℤ (pos 0) configured then configured else if eqb half 0 then pos 10 else pos half

-- The query that handleQueryFeed searches for.
unfoldable pub search_query :
    (String → Option Time) → Map (List String) → String → ℤ → Result SearchQuery
unfolding parse_csv_query_values parse_feed_cursor parse_optional_time_query query_value normalize
search_query parse_time values query_text limit =
    elim (parse_optional_time_query parse_time values "from_date") [
      | err e ↦ err e
      | ok from_date ↦ elim (parse_optional_time_query parse_time values "to_date") [
        | err e ↦ err e
        | ok to_date ↦ ok (
            normalize (record {
              text = query_text;
              sources = parse_csv_query_values values "sources";
              tags = [];
              limit = limit;
              offset = parse_feed_cursor (query_value values "cursor");
              language = "";
              from_date = from_date;
              to_date = to_date;
            }))
      ]
    ]

-- ===== src/Observability/Metrics.antt =====
-- packages/observability/metrics.go. The argument `f` stands for float64, `print` for the verb %g; a
-- map is ranged over in the order of its entries, unless the order is sorted away.
pub mod Laws
mod Tests
use articleflow.Go.Map.{lookup_or, Map}
use articleflow.Go.Sort.{sort_stable}
use articleflow.Prelude.{some, none, ◌||◌, false, eqb, true, map, if◌then◌else◌, Bool, String}
use articleflow.Go.Map.{insert}
use articleflow.Prelude.Int.{pos}
use articleflow.Go.Float.{Float64}
use articleflow.Go.Text.{trim_space, cat, join, is_empty, trim_suffix, trim_cutset}
use articleflow.Go.Text.Split.{split, cut}
use Prim.Native.String.{[], ◌∷◌}
use Prim.Native.String
use Prim.Native.Char.{code, nul}
use Prim.Native.Nat.{Ordering}
use mathlib.Core.List.{List}

pub record Label : Type 0 where
  pub name : String
  pub value : String

-- The order of sort.Strings.
abbrev pub str_less : String → String → Bool
str_less a b = elim (String.compare a b) [
  | Ordering.lt ↦ true
  | Ordering.eq ↦ false
  | Ordering.gt ↦ false
]

abbrev pub nul_text : String
nul_text = nul ∷ ""

unfoldable pub clean_keys : Map String → List String
clean_keys List.[] = List.[]
clean_keys (List.◌∷◌ (key, value) labels) =
    let later = clean_keys labels in
    if is_empty (trim_space key) then later else List.◌∷◌ (trim_space key) later

-- The value is looked up under the trimmed key.
unfoldable pub clean_labels : Map String → List Label
unfolding clean_keys sort_stable
clean_labels labels =
    map (λ key. record { name = key; value = trim_space (lookup_or "" key labels) })
      (sort_stable str_less (clean_keys labels))

abbrev pub label_part : Label → String
label_part item = cat item.name (cat "=" item.value)

-- The key of a name with labels that are clean.
abbrev pub key_from : String → List Label → String
key_from name List.[] = name
key_from name (List.◌∷◌ item items) =
    join (List.◌∷◌ name (map label_part (List.◌∷◌ item items))) nul_text

unfoldable pub metric_key : String → Map String → String
unfolding clean_labels cat join
metric_key name labels = key_from name (clean_labels labels)

unfoldable pub parse_parts : List String → List Label
unfolding cut
parse_parts List.[] = List.[]
parse_parts (List.◌∷◌ part parts) =
    let later = parse_parts parts in
    elim (cut part "=") [
      | none ↦ later
      | some (name, value) ↦ List.◌∷◌ (record { name = name; value = value }) later
    ]

abbrev pub read_parts : String → List String → String × List Label
read_parts key List.[] = (key, List.[])
read_parts key (List.◌∷◌ part List.[]) = (key, List.[])
read_parts key (List.◌∷◌ part (List.◌∷◌ next parts)) = (part, parse_parts (List.◌∷◌ next parts))

unfoldable pub parse_metric_key : String → String × List Label
unfolding split parse_parts
parse_metric_key key = read_parts key (split key nul)

-- escapeLabelValue: backslashes, and then quotes, get a backslash.
unfoldable pub escape_label_value : String → String
escape_label_value [] = []
escape_label_value (c ∷ s) =
    let later = escape_label_value s in
    if eqb (code c) b'\\' || eqb (code c) b'"' then "\\" ∷ c ∷ later else c ∷ later

abbrev pub rendered_label : Label → String
rendered_label item = cat item.name (cat "=\"" (cat (escape_label_value item.value) "\""))

unfoldable pub render_labels : List Label → String
unfolding escape_label_value cat join
render_labels List.[] = ""
render_labels (List.◌∷◌ item items) =
    cat "{" (cat (join (map rendered_label (List.◌∷◌ item items)) ",") "}")

unfoldable pub render_metric_name : String → List Label → String
unfolding render_labels
render_metric_name name labels = cat name (render_labels labels)

unfoldable pub parse_rendered_parts : List String → List Label
unfolding cut trim_cutset
parse_rendered_parts List.[] = List.[]
parse_rendered_parts (List.◌∷◌ part parts) =
    let later = parse_rendered_parts parts in
    elim (cut part "=") [
      | none ↦ later
      | some (name, value) ↦ List.◌∷◌ (record { name = name; value = trim_cutset value "\"" }) later
    ]

unfoldable pub parse_rendered_metric_name : String → String × List Label
unfolding cut trim_suffix split parse_rendered_parts
parse_rendered_metric_name value = elim (cut value "{") [
  | none ↦ (value, List.[])
  | some (name, raw_labels) ↦ (name, parse_rendered_parts (split (trim_suffix raw_labels "}") ","))
]

module _ (f : Float64) where
  abbrev pub MetricsRegistry : Type 0
  MetricsRegistry = Map f.Float

  unfoldable pub add_labels : MetricsRegistry → String → Map String → f.Float → MetricsRegistry
  unfolding metric_key
  add_labels counters name labels value =
      let key = metric_key (trim_space name) labels in
      if is_empty (trim_space name)
      then counters
      else insert key (f.add (lookup_or (f.of_int (pos 0)) key counters) value) counters

  unfoldable pub set_gauge_labels :
      MetricsRegistry → String → Map String → f.Float → MetricsRegistry
  unfolding metric_key
  set_gauge_labels counters name labels value =
      if is_empty (trim_space name)
      then counters
      else insert (metric_key (trim_space name) labels) value counters

  unfoldable pub inc : MetricsRegistry → String → MetricsRegistry
  unfolding add_labels
  inc counters name = add_labels counters name List.[] (f.of_int (pos 1))

  -- The loop of Snapshot.
  unfoldable pub snapshot_from : MetricsRegistry → MetricsRegistry → MetricsRegistry
  unfolding parse_metric_key render_metric_name
  snapshot_from snapshot List.[] = snapshot
  snapshot_from snapshot (List.◌∷◌ (key, value) counters) =
      let (name, labels) = parse_metric_key key in
      snapshot_from (insert (render_metric_name name labels) value snapshot) counters

  unfoldable pub snapshot : MetricsRegistry → MetricsRegistry
  unfolding snapshot_from
  snapshot counters = snapshot_from List.[] counters

  abbrev pub service_line : (f.Float → String) → String → String → f.Float → String
  service_line print service name value =
      let (metric_name, labels) = parse_rendered_metric_name name in
      cat metric_name (
        cat (render_labels (List.◌∷◌ (record { name = "service"; value = service }) labels))
          (cat " " (cat (print value) "\n")))

  abbrev pub entry_name : String × f.Float → String
  entry_name (name, value) = name

  -- The text that NewPrometheusHandler answers with.
  unfoldable pub prometheus_text : (f.Float → String) → String → MetricsRegistry → String
  unfolding snapshot parse_rendered_metric_name render_labels sort_stable join cat
  prometheus_text print service counters =
      let taken = snapshot counters in
      join
        (map (λ name. service_line print service name (lookup_or (f.of_int (pos 0)) name taken))
          (sort_stable str_less (map entry_name taken)))
        ""

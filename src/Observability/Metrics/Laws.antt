-- ===== src/Observability/Metrics/Laws.antt =====
-- The keys of the registry.
use articleflow.Prelude.{
  refl, [], ◌∙◌, ◌∷◌, arith, ap, map, true, every, ◌&&◌, ◌≡◌, Bool, List, String,
}
use articleflow.Go.Text.Split.{lacks, cut, split-join, cut-cat}
use articleflow.Go.Text.{cat, join}
use articleflow.Go.Map.{Map}
use articleflow.Observability.Metrics.{
  cat, key_from, read_parts, Label, clean_labels, label_part, metric_key, parse_parts,
  parse_metric_key,
}
use Prim.Native.Char.{Char, nul}
use text.Mathlib.TextLemmas.{cons-append, nil-append}

-- The name of a label has no "=", and neither it nor its value has the separator of the labels.
abbrev pub is_plain : Label → Bool
is_plain item = lacks nul (label_part item) && lacks "=" item.name

parse_parts_lem :
    (items : List Label) → every is_plain items ≡ true → parse_parts (map label_part items) ≡ items
unfolding parse_parts cat
parse_parts_lem [] h = refl
parse_parts_lem (item ∷ items) h =
    let sep : Char = "=" in
    let glue = ap (cat item.name) (
      cons-append sep "" item.value
      ∙ ap (λ (t : String). String.◌∷◌ sep t) (nil-append item.value)) in
    let found = ap (λ p. cut p sep) glue ∙ cut-cat sep item.name item.value (ground arith) in
    rw (parse_parts, found) (ap (λ rest. item ∷ rest) (parse_parts_lem items (ground arith)))

lacks_parts :
    (items : List Label)
    → every is_plain items ≡ true
    → every (lacks nul) (map label_part items) ≡ true
lacks_parts [] h = refl
lacks_parts (item ∷ items) h = ground (arith, lacks_parts items)

parse-key_from :
    (name : String) (items : List Label)
    → lacks nul name ≡ true
    → every is_plain items ≡ true
    → parse_metric_key (key_from name items) ≡ (name, items)
unfolding parse_metric_key join
parse-key_from name [] plain_name plain =
    ap (read_parts name) (split-join nul name [] (ground (arith, plain_name)))
parse-key_from name (item ∷ items) plain_name plain =
    let parts = lacks_parts (item ∷ items) plain in
    ap (read_parts (key_from name (item ∷ items)))
      (split-join nul name (map label_part (item ∷ items)) (ground (arith, plain_name, parts)))
    ∙ ap (λ (labels : List Label). (name, labels)) (parse_parts_lem (item ∷ items) plain)

-- The key of a metric is read back as its name and its labels, where no name and no value has the
-- character 0 and no label's name has an equals sign.
pub parse-metric_key :
    (name : String) (labels : Map String)
    → lacks nul name ≡ true
    → every is_plain (clean_labels labels) ≡ true
    → parse_metric_key (metric_key name labels) ≡ (name, clean_labels labels)
unfolding metric_key
parse-metric_key name labels = parse-key_from name (clean_labels labels)

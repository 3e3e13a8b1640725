-- ===== src/Observability/Metrics/Tests.antt =====
-- A registry with one metric of two labels.
use articleflow.Prelude.{[], ◌∷◌, refl, ◌≡◌, String}
use articleflow.Go.Map.{Map, lookup}
use articleflow.Go.Text.{trim_space, cat}
use articleflow.Observability.Metrics.{clean_labels, metric_key, parse_metric_key}
use articleflow.Observability.Metrics.Laws.{parse-metric_key}

abbrev labels : Map String
labels = ("status", " ok ") ∷ ("source", "habr") ∷ []

clean_test :
    clean_labels labels
    ≡ record { name = "source"; value = "habr" } ∷ record { name = "status"; value = "ok" } ∷ []
unfolding clean_labels trim_space lookup cat
clean_test = refl

-- A key with spaces around it is not found again once it is trimmed.
spaces_test : clean_labels ((" source", "habr") ∷ []) ≡ record { name = "source"; value = "" } ∷ []
unfolding clean_labels trim_space lookup cat
spaces_test = refl

parse-metric_key_example :
    parse_metric_key (metric_key "jobs_total" labels) ≡ ("jobs_total", clean_labels labels)
unfolding clean_labels trim_space lookup cat
parse-metric_key_example = parse-metric_key "jobs_total" labels refl refl

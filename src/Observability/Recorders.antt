-- ===== src/Observability/Recorders.antt =====
-- services/parser-service: internal/jobs/metrics.go and internal/transport/http/source_metrics.go. The
-- argument `f` stands for float64.
use articleflow.Prelude.{false, true, [], ℕ, ◌∷◌, if◌then◌else◌, List, Bool, String}
use articleflow.Prelude.Int.{pos}
use articleflow.Go.Float.{Float64}
use articleflow.Go.Text.{trim_space, is_empty}
use articleflow.Go.Map.{Map}
use articleflow.Contracts.Parser.{ParserJob, ParserSource, SourceStats}
use articleflow.Observability.Metrics.{MetricsRegistry, add_labels, set_gauge_labels}

unfoldable pub clean_metric_label : String → String → String
clean_metric_label value fallback =
    if is_empty (trim_space value) then fallback else trim_space value

-- strconv.FormatBool
abbrev pub format_bool : Bool → String
format_bool true = "true"
format_bool false = "false"

unfoldable pub stat_labels : SourceStats → Map String
unfolding clean_metric_label
stat_labels stat =
    ("source", clean_metric_label stat.source_name "unknown")
    ∷ ("strategy", clean_metric_label stat.strategy "unknown")
    ∷ ("status", clean_metric_label stat.status "unknown")
    ∷ []

module _ (f : Float64) where
  abbrev add_count : Map String → MetricsRegistry f → String → ℕ → MetricsRegistry f
  add_count labels metrics name count = add_labels f metrics name labels (f.of_int (pos count))

  unfoldable pub observe_stat : MetricsRegistry f → SourceStats → MetricsRegistry f
  unfolding stat_labels add_labels
  observe_stat metrics stat =
      let add = add_count (stat_labels stat) in
      let found = add metrics "articleflow_parser_source_found_total" stat.found_count in
      let accepted = add found "articleflow_parser_source_accepted_total" stat.accepted_count in
      let returned = add accepted "articleflow_parser_source_returned_total" stat.returned_count in
      let published =
        add returned "articleflow_parser_source_published_total" stat.published_count in
      let filtered = add published "articleflow_parser_source_filtered_total" stat.filtered_count in
      add filtered "articleflow_parser_source_duration_ms_total" stat.duration_ms

  unfoldable pub observe_stats : MetricsRegistry f → List SourceStats → MetricsRegistry f
  unfolding observe_stat
  observe_stats metrics [] = metrics
  observe_stats metrics (stat ∷ stats) = observe_stats (observe_stat metrics stat) stats

  unfoldable pub observe_parser_job : MetricsRegistry f → ParserJob → MetricsRegistry f
  unfolding observe_stats clean_metric_label add_labels
  observe_parser_job metrics job =
      observe_stats
        (add_count (("status", clean_metric_label job.status "unknown") ∷ []) metrics
          "articleflow_parser_jobs_total" 1)
        job.source_stats

  unfoldable pub set_source_enabled_gauge : MetricsRegistry f → String → Bool → MetricsRegistry f
  unfolding set_gauge_labels clean_metric_label
  set_source_enabled_gauge metrics name enabled =
      set_gauge_labels f metrics "articleflow_parser_source_enabled"
        (("source", clean_metric_label name "unknown") ∷ [])
        (f.of_int (pos (if enabled then 1 else 0)))

  unfoldable pub observe_source_snapshot : MetricsRegistry f → List ParserSource → MetricsRegistry f
  unfolding set_source_enabled_gauge
  observe_source_snapshot metrics [] = metrics
  observe_source_snapshot metrics (source ∷ sources) =
      observe_source_snapshot (set_source_enabled_gauge metrics source.name source.enabled) sources

  unfoldable pub observe_source_enabled : MetricsRegistry f → String → Bool → MetricsRegistry f
  unfolding set_source_enabled_gauge add_labels clean_metric_label
  observe_source_enabled metrics name enabled =
      let label = clean_metric_label name "unknown" in
      set_source_enabled_gauge
        (add_count (("source", label) ∷ ("enabled", format_bool enabled) ∷ []) metrics
          "articleflow_parser_source_admin_updates_total" 1)
        label enabled

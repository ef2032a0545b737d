-- ===== src/Service/Queries.antt =====
-- What the queries of the service return, and the round trip of a counter through its text.
use go_yandex_practicum_metr.Prelude.{String, ◌==◌, none, some, ◌≡◌, arith, if◌then◌else◌}
use go_yandex_practicum_metr.GoError.{
  Result, ok, err, sentinel, metric_not_found, unknown_type, metric_name_empty,
}
use go_yandex_practicum_metr.Model.{Metrics, counter_type, gauge_type}
use go_yandex_practicum_metr.FloatText.{FloatText}
use go_yandex_practicum_metr.Repository.Spec.{View, metric_of}
use go_yandex_practicum_metr.Repository.Memory.{MemStorage, mem_storage}
use go_yandex_practicum_metr.Repository.Memory.Batch.{view}
use go_yandex_practicum_metr.Repository.Memory.Refines.{get_metric-eq-metric_of}
use go_yandex_practicum_metr.Service.{MetricService, get_metric}

-- The answer that a query owes for what is stored: the first error that applies, or the metric.
abbrev pub answer : View → String → String → Result Metrics
answer w mtype name =
    if name == "" then err (sentinel metric_name_empty) else elim (metric_of w name mtype) [
      | some m ↦ ok m
      | none ↦
          if mtype == gauge_type
          then err (sentinel metric_not_found)
          else if mtype == counter_type
          then err (sentinel metric_not_found)
          else err (sentinel unknown_type)
    ]

-- Over MemStorage, with any callback, the service answers a query from what is stored, and leaves
-- the storage as it was.
pub get_metric-eq-answer :
    (ft : FloatText) (svc : MetricService MemStorage)
    → svc.storage ≡ mem_storage ft
    → (mtype name : String) (s : MemStorage)
    → get_metric svc mtype name s ≡ (answer (view s) mtype name, s)
unfolding get_metric
get_metric-eq-answer ft svc e mtype name s =
    rw e (ground (arith, get_metric-eq-metric_of name mtype s))

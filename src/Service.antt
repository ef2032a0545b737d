-- ===== src/Service.antt =====
-- MetricService of internal/service/metrics.go, over any `Storage`. A service operation takes the
-- state behind the storage and gives the new state; the onUpdate callback acts on that state.
pub mod Updates
pub mod Queries
use go_yandex_practicum_metr.Prelude.{
  String, ◌==◌, Option, none, some, List, [], ◌∷◌, if◌then◌else◌, not, ◌&&◌, is_empty,
}
use go_yandex_practicum_metr.GoError.{
  GoError, Result, ok, err, sentinel, wrap, metric_not_found, unknown_type, metric_name_empty,
  value_required, delta_required,
}
use go_yandex_practicum_metr.GoMap.{GoMap}
use go_yandex_practicum_metr.Int64.{parse_int}
use go_yandex_practicum_metr.Model.{Metrics, counter_type, gauge_type}
use go_yandex_practicum_metr.FloatText.{FloatText}
use go_yandex_practicum_metr.Repository.{Storage}

pub record MetricService (S : Type 0) : Type 0 where
  pub storage : Storage S
  pub on_update : Option (S → S)

module _ {S : Type 0} where
  abbrev pub new_metric_service : Storage S → MetricService S
  new_metric_service st = record { storage = st; on_update = none }

  abbrev pub set_on_update : (S → S) → MetricService S → MetricService S
  set_on_update fn svc = record svc { on_update = some fn }

  unfoldable pub notify_update : MetricService S → S → S
  notify_update svc s = elim svc.on_update [ none ↦ s | some fn ↦ fn s ]

  -- `if err := …; err != nil { return f(err) }`, then `notifyUpdate` and `return nil`
  unfoldable pub notify_if_done :
      MetricService S → (GoError → GoError) → Option GoError × S → Option GoError × S
  notify_if_done svc f (none, s) = (none, notify_update svc s)
  notify_if_done svc f (some e, s) = (some (f e), s)

module _ {S : Type 0} (svc : MetricService S) where
  -- type, name, value
  unfoldable pub update_metric : FloatText → String → String → String → S → Option GoError × S
  update_metric ft mtype name value s =
      if mtype == gauge_type
      then elim (ft.parse_float value) [
        | err e ↦ (some (wrap "invalid gauge value" e), s)
        | ok v ↦ notify_if_done svc (λ e. e) (svc.storage.update_gauge name v s)
      ]
      else if mtype == counter_type
      then elim (parse_int value) [
        | err e ↦ (some (wrap "invalid counter value" e), s)
        | ok d ↦ notify_if_done svc (λ e. e) (svc.storage.update_counter name d s)
      ]
      else (some (sentinel unknown_type), s)

  unfoldable pub update_metric_from_model : Metrics → S → Option GoError × S
  update_metric_from_model m s =
      if m.mtype == gauge_type
      then elim m.value [
        | none ↦ (some (sentinel value_required), s)
        | some v ↦
            notify_if_done svc (wrap "failed to update gauge") (svc.storage.update_gauge m.id v s)
      ]
      else if m.mtype == counter_type
      then elim m.delta [
        | none ↦ (some (sentinel delta_required), s)
        | some d ↦
            notify_if_done svc (wrap "failed to update counter")
              (svc.storage.update_counter m.id d s)
      ]
      else (some (sentinel unknown_type), s)

  unfoldable pub update_batch : List Metrics → S → Option GoError × S
  update_batch metrics s =
      if is_empty metrics
      then (none, s)
      else notify_if_done svc (wrap "batch update failed") (svc.storage.update_batch metrics s)

  abbrev or_not_found {ℓ} : {A : Type ℓ} → Option A × S → Result A × S
  or_not_found (none, s) = (err (sentinel metric_not_found), s)
  or_not_found (some a, s) = (ok a, s)

  -- type, then name
  unfoldable pub get_metric : String → String → S → Result Metrics × S
  get_metric mtype name s =
      if name == ""
      then (err (sentinel metric_name_empty), s)
      else if not (mtype == gauge_type) && not (mtype == counter_type)
      then (err (sentinel unknown_type), s)
      else or_not_found (svc.storage.get_metric name mtype s)

  unfoldable pub get_value : String → String → S → Result String × S
  get_value mtype name s =
      if name == ""
      then (err (sentinel metric_name_empty), s)
      else if not (mtype == gauge_type) && not (mtype == counter_type)
      then (err (sentinel unknown_type), s)
      else or_not_found (svc.storage.get_value mtype name s)

  unfoldable pub get_all_metrics : S → GoMap String × S
  get_all_metrics = svc.storage.get_all_metrics

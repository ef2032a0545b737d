-- ===== src/Handler/Routes/Kept.antt =====
-- The endpoints that read change nothing.
use go_yandex_practicum_metr.Prelude.{
  String, ◌==◌, Bool, true, false, Option, ◌≡◌, refl, arith, if◌then◌else◌,
}
use go_yandex_practicum_metr.GoError.{Result, ok, err}
use go_yandex_practicum_metr.Model.{Metrics}
use go_yandex_practicum_metr.FloatText.{FloatText}
use go_yandex_practicum_metr.Repository.Json.{Json}
use go_yandex_practicum_metr.Repository.Spec.{View, IsStorage}
use go_yandex_practicum_metr.Service
use go_yandex_practicum_metr.Service.{MetricService}
use go_yandex_practicum_metr.Handler.{
  MetricHandler, Request, Response, World, respond, message, invalid_json, internal_error, ping,
  write_metric, get_value, after_get_value, get_value_json, after_get_json, list_metrics,
}

-- The metrics and the audit events are as they were.
abbrev pub IsKept : {S Text : Type 0} → (S → View) → World S → Response Text × World S → Type 0
IsKept view w (resp, w') = (view w'.store ≡ view w.store) × (w'.events ≡ w.events)

module _ {S Text : Type 0} (json : Json Text) (ft : FloatText)
    (split_host_port : String → Option String) (h : MetricHandler S) (view : S → View)
    (laws : IsStorage h.svc.storage view) (r : Request Text) (w : World S) where
  pub ping-IsKept : IsKept view w (ping json ft split_host_port h r w)
  unfolding ping internal_error
  ping-IsKept = ground arith

  pub list_metrics-IsKept : IsKept view w (list_metrics json ft split_host_port h r w)
  unfolding list_metrics Service.get_all_metrics
  list_metrics-IsKept = (laws.all_kept w.store, refl)

  service_value_kept : (t n : String) → view (Service.get_value h.svc t n w.store).1 ≡ view w.store
  unfolding Service.get_value
  service_value_kept t n = ground (arith, laws.value_kept t n w.store)

  pub service_metric_kept :
      (t n : String) (s : S) → view (Service.get_metric h.svc t n s).1 ≡ view s
  unfolding Service.get_metric
  service_metric_kept t n s = ground (arith, laws.metric_kept n t s)

  pub get_value-IsKept : IsKept view w (get_value json ft split_host_port h r w)
  unfolding get_value after_get_value
  get_value-IsKept = ground (arith, service_value_kept r.url_type r.url_name)

  pub get_value_json-IsKept : IsKept view w (get_value_json json ft split_host_port h r w)
  unfolding get_value_json after_get_json write_metric
  get_value_json-IsKept = by_decoded (json.decode r.body)
    where
      after :
          (x : Result Metrics × S)
          → view x.1 ≡ view w.store
          → IsKept view w (after_get_json json ft split_host_port h w x)
      after (ok m, s) e = ground arith
      after (err e', s) e = ground arith

      named :
          (m : Metrics) (b : Bool)
          → IsKept {Text = Text} view w (
              if b
              then (respond 400 (message "id is required"), w)
              else after_get_json json ft split_host_port h w
                  (Service.get_metric h.svc m.mtype m.id w.store))
      named m true = (refl, refl)
      named m false = after _ (service_metric_kept m.mtype m.id w.store)

      by_decoded :
          (d : Result Metrics)
          → IsKept {Text = Text} view w (elim d [
            | err e ↦ (respond 400 (invalid_json e), w)
            | ok req ↦
                if req.id == ""
                then (respond 400 (message "id is required"), w)
                else after_get_json json ft split_host_port h w
                    (Service.get_metric h.svc req.mtype req.id w.store)
          ])
      by_decoded (err e) = (refl, refl)
      by_decoded (ok m) = named m (m.id == "")

-- ===== src/Handler/Routes/Settling.antt =====
-- How every request ends that goes through Routes: with its whole effect and an audit event, or with
-- nothing changed.
use go_yandex_practicum_metr.Prelude.{
  String, ◌==◌, Bool, true, false, Option, none, some, ◌≡◌, ◌≢◌, ◌⊎◌, inl, inr, ◌∙◌, refl, ap,
  arith, List, [], ◌∷◌, map, if◌then◌else◌,
}
use go_yandex_practicum_metr.GoError.{GoError, Result, ok, err}
use go_yandex_practicum_metr.Model.{Metrics}
use go_yandex_practicum_metr.FloatText.{FloatText}
use go_yandex_practicum_metr.Repository.Json.{Json}
use go_yandex_practicum_metr.Repository.Spec.{View, IsStorage, apply_batch}
use go_yandex_practicum_metr.Service
use go_yandex_practicum_metr.Service.{notify_update}
use go_yandex_practicum_metr.Service.Updates.{
  Does, effect_of, text_effect, update_metric_from_model-Does,
}
use go_yandex_practicum_metr.Handler
use go_yandex_practicum_metr.Handler.{
  MetricHandler, Request, Response, World, respond, empty, message, error_text, invalid_json,
  internal_error, after_read_back, after_update_json, after_batch, write_metric, emit_audit,
  http_status_for_error, client_ip,
}
use go_yandex_practicum_metr.Handler.Outcomes.{
  audited, Concludes, update_metric-Concludes, update_metrics_batch-Concludes, store-emit_audit,
  events-emit_audit, status-ne-200,
}
use go_yandex_practicum_metr.Handler.ReadBack.{
  outcome_done, outcome_failed, write_metric-status, write_metric-store, write_metric-events,
}
use go_yandex_practicum_metr.Handler.Routes.{
  Endpoint, list_metrics, ping, update_metric_json, get_value_json, update_metrics_batch,
  update_metric, get_value, Routed, matched, not_found, method_not_allowed, with_params,
  run_endpoint,
}
use go_yandex_practicum_metr.Handler.Routes.Kept.{
  service_metric_kept, IsKept, ping-IsKept, list_metrics-IsKept, get_value-IsKept,
  get_value_json-IsKept,
}

-- What a request asks for: an effect on the metrics, and the names for the audit.
abbrev pub Asked : Type 0
Asked = Option ((View → View) × List String)

abbrev pub named_effect : List String → Option (View → View) → Asked
named_effect names none = none
named_effect names (some f) = some (f, names)

abbrev pub batch_effect : List Metrics → Asked
batch_effect [] = none
batch_effect (m ∷ ms) = some (apply_batch (m ∷ ms), m.id ∷ map (λ m. m.id) ms)

module _ {Text : Type 0} (json : Json Text) (ft : FloatText) where
  abbrev pub asked_of : Endpoint → Request Text → Asked
  asked_of update_metric r =
      named_effect (r.url_name ∷ []) (text_effect ft r.url_type r.url_name r.url_value)
  asked_of update_metric_json r = elim (json.decode r.body) [
    | err e ↦ none
    | ok m ↦ named_effect (m.id ∷ []) (effect_of m)
  ]
  asked_of update_metrics_batch r = elim (json.decode_list r.body) [
    | err e ↦ none
    | ok ms ↦ batch_effect ms
  ]
  asked_of list_metrics r = none
  asked_of ping r = none
  asked_of get_value_json r = none
  asked_of get_value r = none

  abbrev pub asked_through : Routed → Request Text → Asked
  asked_through (matched route param) r = asked_of route.endpoint (with_params param r)
  asked_through not_found r = none
  asked_through method_not_allowed r = none

module _ {S Text : Type 0} (split_host_port : String → Option String) (h : MetricHandler S)
    (view : S → View) (r : Request Text) where
  -- 200 with the whole effect and one audit event; nothing changed, and no 200 to an update; or,
  -- where the metric could not be read back, 500 with the effect and no event.
  abbrev pub Settles : Asked → World S → Response Text × World S → Type 0
  Settles asked w (resp, w') =
      ((resp.status ≡ 200)
        × ((f : View → View) × (names : List String) × (asked ≡ some (f, names))
            × (view w'.store ≡ f (view w.store))
            × (w'.events ≡ audited split_host_port h view r names w)))
      ⊎ (((view w'.store ≡ view w.store)
            × (w'.events ≡ w.events)
            × (asked ≢ none → resp.status ≢ 200))
          ⊎ ((resp.status ≡ 500)
              × ((f : View → View) × (names : List String) × (asked ≡ some (f, names))
                  × (view w'.store ≡ f (view w.store)))
              × (w'.events ≡ w.events)))

  pub Settles-kept :
      (w : World S) (out : Response Text × World S) → IsKept view w out → Settles none w out
  Settles-kept w out k = inr (inl (k.0, k.1, λ asked. absurd (asked refl)))

  pub Settles-refused :
      (asked : Asked) (w : World S) (out : Response Text × World S)
      → IsKept view w out
      → out.0.status ≢ 200
      → Settles asked w out
  Settles-refused asked w out k n = inr (inl (k.0, k.1, λ a. n))

  Settles-concluded :
      (effect : Option (View → View)) (names : List String) (w : World S)
      (out : Response Text × World S)
      → Concludes split_host_port h view r effect names w out
      → Settles (named_effect names effect) w out
  Settles-concluded effect names w out (inl (status, (f, is, done), events)) =
      inl (status, (f, names, ap (named_effect names) is, done, events))
  Settles-concluded effect names w out (inr (status, kept, events)) =
      inr (inl (kept, events, λ asked. status))

module _ {S Text : Type 0} (json : Json Text) (ft : FloatText)
    (split_host_port : String → Option String) (h : MetricHandler S) (view : S → View)
    (laws : IsStorage h.svc.storage view) (keeps : (s : S) → view (notify_update h.svc s) ≡ view s)
    (r : Request Text) (w : World S) where
  after_read_back-Settles :
      (m : Metrics) (s : S) (f : View → View) (asked : Asked) (read : Result Metrics × S)
      → asked ≡ some (f, m.id ∷ [])
      → view read.1 ≡ f (view w.store)
      → Settles split_host_port h view r asked w
          (after_read_back json ft split_host_port h r m w read)
  unfolding after_read_back internal_error
  after_read_back-Settles m s f asked (err e, t) is done =
      inr (inr (refl, (f, m.id ∷ [], is, done), refl))
  after_read_back-Settles m s f asked (ok x, t) is done =
      let next : World S =
        emit_audit json ft split_host_port h r (m.id ∷ []) (record w { store = t }) in
      inl (
        write_metric-status json ft split_host_port h x next,
        (
          f,
          m.id ∷ [],
          is,
          ap view (
                write_metric-store json ft split_host_port h x next
                ∙ store-emit_audit json ft split_host_port h view laws keeps r (m.id ∷ [])
                    (record w { store = t }))
              ∙ done,
          write_metric-events json ft split_host_port h x next
              ∙ events-emit_audit json ft split_host_port h view laws keeps r (m.id ∷ [])
                  (record w { store = t }),
        ),
      )

  after_update_json-Settles :
      (m : Metrics) (out : Option GoError × S)
      → Does view (view w.store) (effect_of m) out
      → Settles split_host_port h view r
          (named_effect (m.id ∷ []) (effect_of m))
          w
          (after_update_json json ft split_host_port h r m w out)
  unfolding after_update_json
  after_update_json-Settles m (some e, s) d =
      Settles-refused split_host_port h view r _ w
        (respond (http_status_for_error e) (error_text e), record w { store = s })
        (outcome_failed view (view w.store) (effect_of m) e s d, refl)
        (status-ne-200 json ft split_host_port h view laws keeps r e)
  after_update_json-Settles m (none, s) d =
      let (f, is, done) = outcome_done view (view w.store) (effect_of m) s d in
      after_read_back-Settles m s f _ (Service.get_metric h.svc m.mtype m.id s)
        (ap (named_effect (m.id ∷ [])) is)
        (service_metric_kept json ft split_host_port h view laws r w m.mtype m.id s ∙ done)

  update_metric_json-Settles :
      Settles split_host_port h view r
        (asked_of json ft update_metric_json r)
        w
        (Handler.update_metric_json json ft split_host_port h r w)
  unfolding Handler.update_metric_json
  update_metric_json-Settles = by_decoded (json.decode r.body)
    where
      named :
          (m : Metrics) (b : Bool)
          → Settles split_host_port h view r (named_effect (m.id ∷ []) (effect_of m)) w (
              if b
              then (respond 400 (message "id is required"), w)
              else after_update_json json ft split_host_port h r m w
                  (Service.update_metric_from_model h.svc m w.store))
      named m true =
          Settles-refused split_host_port h view r (named_effect (m.id ∷ []) (effect_of m)) w
            (respond 400 (message "id is required"), w) (refl, refl) (omega arith)
      named m false =
          after_update_json-Settles m _
            (update_metric_from_model-Does h.svc view laws keeps m w.store)

      by_decoded :
          (d : Result Metrics)
          → Settles split_host_port h view r
              (elim d [ err e ↦ none | ok m ↦ named_effect (m.id ∷ []) (effect_of m) ])
              w
              (elim d [
                | err e ↦ (respond 400 (invalid_json e), w)
                | ok m ↦
                    if m.id == ""
                    then (respond 400 (message "id is required"), w)
                    else after_update_json json ft split_host_port h r m w
                        (Service.update_metric_from_model h.svc m w.store)
              ])
      by_decoded (err e) =
          Settles-kept split_host_port h view r w (respond 400 (invalid_json e), w) (refl, refl)
      by_decoded (ok m) = named m (m.id == "")

  update_metrics_batch-Settles :
      (d : Result (List Metrics))
      → json.decode_list r.body ≡ d
      → Settles split_host_port h view r
          (elim d [ err e ↦ none | ok ms ↦ batch_effect ms ])
          w
          (Handler.update_metrics_batch json ft split_host_port h r w)
  unfolding Handler.update_metrics_batch
  update_metrics_batch-Settles (err e) is =
      rw (is, Handler.update_metrics_batch)
        (Settles-kept split_host_port h view r w (respond 400 (invalid_json e), w) (refl, refl))
  update_metrics_batch-Settles (ok []) is =
      rw (is, Handler.update_metrics_batch)
        (Settles-kept split_host_port h view r w (respond 200 empty, w) (refl, refl))
  update_metrics_batch-Settles (ok (m ∷ ms)) is =
      Settles-concluded split_host_port h view r (some (apply_batch (m ∷ ms)))
        (m.id ∷ map (λ m. m.id) ms) w (Handler.update_metrics_batch json ft split_host_port h r w)
        (update_metrics_batch-Concludes json ft split_host_port h view laws keeps r w m ms is)

  pub run_endpoint-Settles :
      (e : Endpoint)
      → Settles split_host_port h view r
          (asked_of json ft e r)
          w
          (run_endpoint json ft split_host_port h e r w)
  run_endpoint-Settles update_metric =
      Settles-concluded split_host_port h view r _ _ w
        (Handler.update_metric json ft split_host_port h r w)
        (update_metric-Concludes json ft split_host_port h view laws keeps r w)
  run_endpoint-Settles update_metric_json = update_metric_json-Settles
  run_endpoint-Settles update_metrics_batch =
      update_metrics_batch-Settles (json.decode_list r.body) refl
  run_endpoint-Settles list_metrics =
      Settles-kept split_host_port h view r w (Handler.list_metrics json ft split_host_port h r w)
        (list_metrics-IsKept json ft split_host_port h view laws r w)
  run_endpoint-Settles ping =
      Settles-kept split_host_port h view r w (Handler.ping json ft split_host_port h r w)
        (ping-IsKept json ft split_host_port h view laws r w)
  run_endpoint-Settles get_value_json =
      Settles-kept split_host_port h view r w (Handler.get_value_json json ft split_host_port h r w)
        (get_value_json-IsKept json ft split_host_port h view laws r w)
  run_endpoint-Settles get_value =
      Settles-kept split_host_port h view r w (Handler.get_value json ft split_host_port h r w)
        (get_value-IsKept json ft split_host_port h view laws r w)

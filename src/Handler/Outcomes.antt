-- ===== src/Handler/Outcomes.antt =====
-- How the update handlers end: 200 with the whole effect and one audit event, or another status
-- with no effect and no event.
use go_yandex_practicum_metr.Prelude.{
  String, ◌==◌, Option, none, some, ◌≡◌, ◌≢◌, ◌∙◌, refl, ap, arith, ◌⊎◌, inl, inr, List, [], ◌∷◌,
  ◌++◌, map, Bool-cases, if◌then◌else◌,
}
use go_yandex_practicum_metr.GoError.{GoError, ok}
use go_yandex_practicum_metr.Model.{Metrics}
use go_yandex_practicum_metr.FloatText.{FloatText}
use go_yandex_practicum_metr.Repository.Json.{Json}
use go_yandex_practicum_metr.Repository.Spec.{View, IsStorage, apply_batch}
use go_yandex_practicum_metr.Service.{notify_update}
use go_yandex_practicum_metr.Service.Updates.{
  Does, text_effect, update_metric-Does, update_batch-Does,
}
use go_yandex_practicum_metr.Handler.{
  Event, Body, empty, respond, MetricHandler, Request, Response, World, client_ip,
  http_status_for_error, emit_audit, internal_error, update_metric, after_update_metric,
  update_metrics_batch, after_batch,
}

-- A service error is answered by 404 or 400, and never by a success.
pub http_status_for_error_cases :
    (e : GoError) → (http_status_for_error e ≡ 404) ⊎ (http_status_for_error e ≡ 400)
unfolding http_status_for_error
http_status_for_error_cases e = ground arith

module _ {S Text : Type 0} (split_host_port : String → Option String) (h : MetricHandler S)
    (view : S → View) (r : Request Text) where
  -- The audit events after a handled update of these names.
  abbrev pub audited : List String → World S → List Event
  audited names w =
      if h.publisher
      then w.events
        ++ record { ts = r.now; metrics = names; ip_address = client_ip split_host_port r } ∷ []
      else w.events

  -- A request with the effect `effect` (`none` if it must be refused), on the named metrics.
  abbrev pub Concludes :
      Option (View → View) → List String → World S → Response Text × World S → Type 0
  Concludes effect names w (resp, w') =
      ((resp.status ≡ 200)
        × ((f : View → View) × (effect ≡ some f) × (view w'.store ≡ f (view w.store)))
        × (w'.events ≡ audited names w))
      ⊎ ((resp.status ≢ 200) × (view w'.store ≡ view w.store) × (w'.events ≡ w.events))

module _ {S Text : Type 0} (json : Json Text) (ft : FloatText)
    (split_host_port : String → Option String) (h : MetricHandler S) (view : S → View)
    (laws : IsStorage h.svc.storage view) (keeps : (s : S) → view (notify_update h.svc s) ≡ view s)
    (r : Request Text) where
  pub store-emit_audit :
      (names : List String) (w : World S)
      → (emit_audit json ft split_host_port h r names w).store ≡ w.store
  unfolding emit_audit
  store-emit_audit names w = ground arith

  pub events-emit_audit :
      (names : List String) (w : World S)
      → (emit_audit json ft split_host_port h r names w).events
        ≡ audited split_host_port h view r names w
  unfolding emit_audit
  events-emit_audit names w = ground arith

  pub status-ne-200 : (e : GoError) → http_status_for_error e ≢ 200
  status-ne-200 e = ground (arith, http_status_for_error_cases e)

  -- an update that was made, and the event for it
  pub accepted :
      (f : View → View) (names : List String) (w : World S) (s : S) (body : Body Text)
      → view s ≡ f (view w.store)
      → Concludes split_host_port h view r
          (some f)
          names
          w
          (respond 200 body, emit_audit json ft split_host_port h r names (record w { store = s }))
  accepted f names w s body d = inl (
    refl,
    (f, refl, ap view (store-emit_audit names (record w { store = s })) ∙ d),
    events-emit_audit names (record w { store = s }),
  )

  after_update_metric-Concludes :
      (effect : Option (View → View)) (w : World S) (out : Option GoError × S)
      → Does view (view w.store) effect out
      → Concludes split_host_port h view r effect
          (r.url_name ∷ [])
          w
          (after_update_metric json ft split_host_port h r w out)
  unfolding after_update_metric
  after_update_metric-Concludes none w (none, s) d = absurd d
  after_update_metric-Concludes (some f) w (none, s) d = accepted f (r.url_name ∷ []) w s empty d
  after_update_metric-Concludes none w (some e, s) d = inr (status-ne-200 e, d, refl)
  after_update_metric-Concludes (some f) w (some e, s) d = inr (status-ne-200 e, d, refl)

  -- POST /update/{type}/{name}/{value} answers 200 with the whole effect of the request and one
  -- audit event for the name, or another status with no effect and no event.
  pub update_metric-Concludes :
      (w : World S)
      → Concludes split_host_port h view r
          (text_effect ft r.url_type r.url_name r.url_value)
          (r.url_name ∷ [])
          w
          (update_metric json ft split_host_port h r w)
  unfolding update_metric
  update_metric-Concludes w = elim (Bool-cases (r.url_name == "")) [
    | inl e ↦ rw e (inr (omega arith, refl, refl))
    | inr e ↦ rw e (
        after_update_metric-Concludes (text_effect ft r.url_type r.url_name r.url_value) w _
          (update_metric-Does h.svc view laws keeps ft r.url_type r.url_name r.url_value w.store))
  ]

  after_batch-Concludes :
      (ms : List Metrics) (w : World S) (out : Option GoError × S)
      → Does view (view w.store) (some (apply_batch ms)) out
      → Concludes split_host_port h view r
          (some (apply_batch ms))
          (map (λ m. m.id) ms)
          w
          (after_batch json ft split_host_port h r ms w out)
  unfolding after_batch internal_error
  after_batch-Concludes ms w (none, s) d =
      accepted (apply_batch ms) (map (λ m. m.id) ms) w s empty d
  after_batch-Concludes ms w (some e, s) d = inr (omega arith, d, refl)

  -- POST /updates/ with a list that is not empty answers 200 with the effect of the whole list and
  -- one audit event for all its names, or another status with no effect and no event.
  pub update_metrics_batch-Concludes :
      (w : World S) (m : Metrics) (ms : List Metrics)
      → json.decode_list r.body ≡ ok (m ∷ ms)
      → Concludes split_host_port h view r
          (some (apply_batch (m ∷ ms)))
          (m.id ∷ map (λ m. m.id) ms)
          w
          (update_metrics_batch json ft split_host_port h r w)
  unfolding update_metrics_batch
  update_metrics_batch-Concludes w m ms e =
      rw (e, update_metrics_batch)
        (after_batch-Concludes (m ∷ ms) w _
          (update_batch-Does h.svc view laws keeps (m ∷ ms) w.store))

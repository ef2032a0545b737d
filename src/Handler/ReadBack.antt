-- ===== src/Handler/ReadBack.antt =====
-- POST /update with a JSON body: the update, the metric that is read back, and the response.
use go_yandex_practicum_metr.Prelude.{
  String, ◌==◌, Option, none, some, ◌≡◌, ◌⊎◌, ◌∙◌, refl, sym, ap, arith, inl, inr, [], ◌∷◌,
  Bool-cases, Option-cases, false,
}
use go_yandex_practicum_metr.GoError.{GoError, Result, ok, err}
use go_yandex_practicum_metr.Model.{Metrics}
use go_yandex_practicum_metr.FloatText.{FloatText}
use go_yandex_practicum_metr.Repository.Json.{Json}
use go_yandex_practicum_metr.Repository.Spec.{View, IsStorage, metric_of}
use go_yandex_practicum_metr.Service
use go_yandex_practicum_metr.Service.{MetricService, notify_update}
use go_yandex_practicum_metr.Service.Updates.{Does, effect_of, update_metric_from_model-Does}
use go_yandex_practicum_metr.Handler.{
  Body, empty, json_text, MetricHandler, Request, Response, World, emit_audit, internal_error,
  update_metric_json, after_update_json, after_read_back, write_metric,
}
use go_yandex_practicum_metr.Handler.Outcomes.{
  audited, http_status_for_error_cases, events-emit_audit, store-emit_audit,
}

pub outcome_done :
    {S : Type 0} (view : S → View) (v : View) (effect : Option (View → View)) (s : S)
    → Does view v effect (none, s)
    → (f : View → View) × (effect ≡ some f) × (view s ≡ f v)
outcome_done view v none s d = absurd d
outcome_done view v (some f) s d = (f, refl, d)

pub outcome_failed :
    {S : Type 0} (view : S → View) (v : View) (effect : Option (View → View)) (e : GoError) (s : S)
    → Does view v effect (some e, s)
    → view s ≡ v
outcome_failed view v none e s d = d
outcome_failed view v (some f) e s d = d

module _ {S : Type 0} (svc : MetricService S) (view : S → View)
    (laws : IsStorage svc.storage view) where
  -- What the service reads is stored under that name and type, and reading changes nothing.
  get_metric-reads :
      (name mtype : String) (s : S)
      → (name == "") ≡ false
      → (view (Service.get_metric svc mtype name s).1 ≡ view s)
        × ((x : Metrics)
            → (Service.get_metric svc mtype name s).0 ≡ ok x
            → metric_of (view s) name mtype ≡ some x)
  unfolding Service.get_metric
  get_metric-reads name mtype s named =
      elim (Option-cases (svc.storage.get_metric name mtype s).0) [
        | inl missing ↦ (ground (arith, laws.metric_kept name mtype s), λ x e. ground (arith))
        | inr (y, found) ↦ (
          ground (arith, laws.metric_kept name mtype s),
          λ x e. ground (arith, laws.metric_found name mtype s y),
        )
      ]

module _ {S Text : Type 0} (json : Json Text) (split_host_port : String → Option String)
    (h : MetricHandler S) (view : S → View) (r : Request Text) where
  -- The body for a metric: its JSON text, or nothing if the encoder refuses it.
  abbrev pub encoded : Result Text → Body Text
  encoded (ok t) = json_text t
  encoded (err e) = empty

  -- The body is the metric of the name and type of `m` that is stored now.
  abbrev pub Shows : Metrics → Response Text × World S → Type 0
  Shows m (resp, w') =
      (x : Metrics) × (metric_of (view w'.store) m.id m.mtype ≡ some x)
      × (resp.body ≡ encoded (json.encode x))

  -- The effect of `m` is there.
  abbrev pub IsMade : Metrics → World S → World S → Type 0
  IsMade m w w' = (f : View → View) × (effect_of m ≡ some f) × (view w'.store ≡ f (view w.store))

  abbrev pub Finishes : Metrics → World S → Response Text × World S → Type 0
  Finishes m w (resp, w') =
      ((resp.status ≡ 200)
        × IsMade m w w'
        × (w'.events ≡ audited split_host_port h view r (m.id ∷ []) w)
        × Shows m (resp, w'))
      ⊎ (((resp.status ≡ 404) ⊎ (resp.status ≡ 400))
          × (view w'.store ≡ view w.store)
          × (w'.events ≡ w.events))
      ⊎ ((resp.status ≡ 500)
          × IsMade m w w'
          × (w'.events ≡ w.events)
          × ((s : S) × (e : GoError) × ((Service.update_metric_from_model h.svc m w.store).1 ≡ s)
              × ((Service.get_metric h.svc m.mtype m.id s).0 ≡ err e)))

module _ {S Text : Type 0} (json : Json Text) (ft : FloatText)
    (split_host_port : String → Option String) (h : MetricHandler S) where
  pub write_metric-status :
      (x : Metrics) (w : World S) → (write_metric json ft split_host_port h x w).0.status ≡ 200
  unfolding write_metric
  write_metric-status x w = ground arith

  pub write_metric-store :
      (x : Metrics) (w : World S) → (write_metric json ft split_host_port h x w).1.store ≡ w.store
  unfolding write_metric
  write_metric-store x w = ground arith

  pub write_metric-events :
      (x : Metrics) (w : World S) → (write_metric json ft split_host_port h x w).1.events ≡ w.events
  unfolding write_metric
  write_metric-events x w = ground arith

module _ {S Text : Type 0} (json : Json Text) (ft : FloatText)
    (split_host_port : String → Option String) (h : MetricHandler S) (view : S → View)
    (laws : IsStorage h.svc.storage view) (keeps : (s : S) → view (notify_update h.svc s) ≡ view s)
    (r : Request Text) where
  write_metric-body :
      (x : Metrics) (w : World S)
      → (write_metric json ft split_host_port h x w).0.body
        ≡ encoded json split_host_port h view r (json.encode x)
  unfolding write_metric
  write_metric-body x w = ground arith

  shown_after :
      (m x : Metrics) (w : World S) (s : S)
      → IsMade json split_host_port h view r m w (record w { store = s })
      → metric_of (view s) m.id m.mtype ≡ some x
      → Finishes json split_host_port h view r m w
          (after_read_back json ft split_host_port h r m w (ok x, s))
  unfolding after_read_back
  shown_after m x w s (f, e, d) found =
      let next : World S =
        emit_audit json ft split_host_port h r (m.id ∷ []) (record w { store = s }) in
      let same : view (write_metric json ft split_host_port h x next).1.store ≡ view s = ap view (
        write_metric-store json ft split_host_port h x next
        ∙ store-emit_audit json ft split_host_port h view laws keeps r (m.id ∷ [])
            (record w { store = s })) in
      inl (
        write_metric-status json ft split_host_port h x next,
        (f, e, same ∙ d),
        write_metric-events json ft split_host_port h x next
            ∙ events-emit_audit json ft split_host_port h view laws keeps r (m.id ∷ [])
                (record w { store = s }),
        (x, rw same found, write_metric-body x next),
      )

  -- `s` is the state after the update, and `read` what GetMetric of the service makes of it.
  after_read_back-Finishes :
      (m : Metrics) (w : World S) (s : S) (f : View → View) (read : Result Metrics × S)
      → (m.id == "") ≡ false
      → effect_of m ≡ some f
      → view s ≡ f (view w.store)
      → (Service.update_metric_from_model h.svc m w.store).1 ≡ s
      → Service.get_metric h.svc m.mtype m.id s ≡ read
      → Finishes json split_host_port h view r m w
          (after_read_back json ft split_host_port h r m w read)
  unfolding internal_error after_read_back
  after_read_back-Finishes m w s f (err e, t) named is done left reads =
      let kept : view t ≡ view s =
        sym (ap (λ o. view o.1) reads)
        ∙ (get_metric-reads h.svc view laws m.id m.mtype s named).0 in
      inr (inr (refl, (f, is, kept ∙ done), refl, (s, e, left, ap (λ o. o.0) reads)))
  after_read_back-Finishes m w s f (ok x, t) named is done left reads =
      let (same, found) = get_metric-reads h.svc view laws m.id m.mtype s named in
      let kept : view t ≡ view s = sym (ap (λ o. view o.1) reads) ∙ same in
      shown_after m x w t (f, is, kept ∙ done) (rw kept (found x (ap (λ o. o.0) reads)))

  after_update_json-Finishes :
      (m : Metrics) (w : World S) (out : Option GoError × S)
      → (m.id == "") ≡ false
      → Service.update_metric_from_model h.svc m w.store ≡ out
      → Does view (view w.store) (effect_of m) out
      → Finishes json split_host_port h view r m w
          (after_update_json json ft split_host_port h r m w out)
  unfolding after_update_json
  after_update_json-Finishes m w (none, s) named is d =
      let (f, e, done) = outcome_done view (view w.store) (effect_of m) s d in
      after_read_back-Finishes m w s f (Service.get_metric h.svc m.mtype m.id s) named e done
        (ap (λ o. o.1) is) refl
  after_update_json-Finishes m w (some e, s) named is d = inr (
      inl (
        http_status_for_error_cases e,
        outcome_failed view (view w.store) (effect_of m) e s d,
        refl,
      ))

  -- POST /update with the metric `m`, over a storage that keeps its promise and a callback that
  -- keeps the metrics, answers 200 with the effect of `m`, one audit event for its name (if there is
  -- a publisher) and the JSON of the metric as it is stored then; or 400 or 404 with no effect and no
  -- event; or, when the update was made and GetMetric of the service then failed, 500 with the
  -- effect and no event.
  pub update_metric_json-Finishes :
      (m : Metrics) (w : World S)
      → json.decode r.body ≡ ok m
      → Finishes json split_host_port h view r m w
          (update_metric_json json ft split_host_port h r w)
  unfolding update_metric_json
  update_metric_json-Finishes m w e = elim (Bool-cases (m.id == "")) [
    | inl unnamed ↦ rw (e, update_metric_json, unnamed) (inr (inl (inr refl, refl, refl)))
    | inr named ↦
        rw (e, update_metric_json, named)
          (after_update_json-Finishes m w _ named refl
            (update_metric_from_model-Does h.svc view laws keeps m w.store))
  ]

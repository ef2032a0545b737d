-- ===== src/Service/Updates.antt =====
-- Every update of the service is all or nothing, over any storage that keeps its promise.
use go_yandex_practicum_metr.Prelude.{
  if◌then◌else◌, String, ◌==◌, Option, none, some, ◌≡◌, ◌≢◌, ◌∙◌, refl, List, [], ◌∷◌, inl, inr,
  Bool-cases, Option-cases,
}
use go_yandex_practicum_metr.GoError.{wrap, GoError, Result, ok, err, Result-cases}
use go_yandex_practicum_metr.Int64.{Int64, parse_int}
use go_yandex_practicum_metr.Model.{Metrics, Float64, counter_type, gauge_type}
use go_yandex_practicum_metr.FloatText.{FloatText}
use go_yandex_practicum_metr.Repository.Spec.{
  View, IsStorage, sum, set_gauge, add_counter, apply_batch, last_gauge, total_delta,
}
use go_yandex_practicum_metr.Service.{
  MetricService, notify_update, notify_if_done, update_metric, update_metric_from_model,
  update_batch,
}

-- What an update that began at the view `v` has done, by how it ended: with no error, exactly the
-- effect `f`; with an error, nothing. A request that asks for no effect cannot end without an error.
abbrev pub Does :
    {S : Type 0} → (S → View) → View → Option (View → View) → Option GoError × S → Type 0
Does view v none (none, s) = ⊥
Does view v (some f) (none, s) = view s ≡ f v
Does view v none (some e, s) = view s ≡ v
Does view v (some f) (some e, s) = view s ≡ v

-- What an item of the wire format asks for.
abbrev pub effect_of : Metrics → Option (View → View)
effect_of m =
    if m.mtype == gauge_type
    then elim m.value [ none ↦ none | some v ↦ some (set_gauge m.id v) ]
    else if m.mtype == counter_type
    then elim m.delta [ none ↦ none | some d ↦ some (add_counter m.id d) ]
    else none

abbrev gauge_effect : String → Result Float64 → Option (View → View)
gauge_effect name (ok v) = some (set_gauge name v)
gauge_effect name (err e) = none

abbrev counter_effect : String → Result Int64 → Option (View → View)
counter_effect name (ok d) = some (add_counter name d)
counter_effect name (err e) = none

-- What a text request for a type, a name and a value asks for.
abbrev pub text_effect : FloatText → String → String → String → Option (View → View)
text_effect ft mtype name value =
    if mtype == gauge_type
    then gauge_effect name (ft.parse_float value)
    else if mtype == counter_type
    then counter_effect name (parse_int value)
    else none

module _ {S : Type 0} (svc : MetricService S) (view : S → View) (laws : IsStorage svc.storage view)
    (keeps : (s : S) → view (notify_update svc s) ≡ view s) where
  notify_if_done-Does :
      (h : GoError → GoError) (v : View) (f : View → View) (r : Option GoError × S)
      → (r.0 ≡ none → view r.1 ≡ f v)
      → (r.0 ≢ none → view r.1 ≡ v)
      → Does view v (some f) (notify_if_done svc h r)
  unfolding notify_if_done
  notify_if_done-Does h v f (none, s) done failed = keeps s ∙ done refl
  notify_if_done-Does h v f (some e, s) done failed = failed (λ p. cc)

  gauge-Does :
      (h : GoError → GoError) (n : String) (v : Float64) (s : S)
      → Does view
          (view s)
          (some (set_gauge n v))
          (notify_if_done svc h (svc.storage.update_gauge n v s))
  gauge-Does h n v s =
      notify_if_done-Does h (view s) (set_gauge n v) _ (laws.gauge_done n v s)
        (laws.gauge_failed n v s)

  counter-Does :
      (h : GoError → GoError) (n : String) (d : Int64) (s : S)
      → Does view
          (view s)
          (some (add_counter n d))
          (notify_if_done svc h (svc.storage.update_counter n d s))
  counter-Does h n d s =
      notify_if_done-Does h (view s) (add_counter n d) _ (laws.counter_done n d s)
        (laws.counter_failed n d s)

  -- UpdateMetricFromModel, over a storage that keeps its promise and with a callback that leaves the
  -- metrics alone, has the whole effect of the metric, or ends with an error and has none. An unknown
  -- type, a gauge with no value and a counter with no delta always end with an error.
  pub update_metric_from_model-Does :
      (m : Metrics) (s : S) → Does view (view s) (effect_of m) (update_metric_from_model svc m s)
  unfolding update_metric_from_model
  update_metric_from_model-Does m s = elim (Bool-cases (m.mtype == gauge_type)) [
    | inl g ↦ elim (Option-cases m.value) [
      | inl missing ↦ simp (g, missing) refl
      | inr (v, e) ↦ simp (g, e) (gauge-Does _ m.id v s)
    ]
    | inr g ↦ elim (Bool-cases (m.mtype == counter_type)) [
      | inl c ↦ elim (Option-cases m.delta) [
        | inl missing ↦ simp (g, c, missing) refl
        | inr (d, e) ↦ simp (g, c, e) (counter-Does _ m.id d s)
      ]
      | inr c ↦ simp (g, c) refl
    ]
  ]

  -- UpdateMetric, over a storage that keeps its promise and with a callback that leaves the metrics
  -- alone, has the whole effect of the text request, or ends with an error and has none. An unknown
  -- type and a value that does not parse always end with an error.
  pub update_metric-Does :
      (ft : FloatText) (mtype name value : String) (s : S)
      → Does view
          (view s)
          (text_effect ft mtype name value)
          (update_metric svc ft mtype name value s)
  unfolding update_metric
  update_metric-Does ft mtype name value s = elim (Bool-cases (mtype == gauge_type)) [
    | inl g ↦ elim (Result-cases (ft.parse_float value)) [
      | inl (e, bad) ↦ rw (g, bad) refl
      | inr (v, e) ↦ rw (g, e) (gauge-Does _ name v s)
    ]
    | inr g ↦ elim (Bool-cases (mtype == counter_type)) [
      | inl c ↦ elim (Result-cases (parse_int value)) [
        | inl (e, bad) ↦ rw (g, c, bad) refl
        | inr (d, e) ↦ rw (g, c, e) (counter-Does _ name d s)
      ]
      | inr c ↦ rw (g, c) refl
    ]
  ]

  -- UpdateBatch of the service, over a storage that keeps its promise and with a callback that leaves
  -- the metrics alone, has the effect of the whole batch, or ends with an error and has none.
  pub update_batch-Does :
      (ms : List Metrics) (s : S)
      → Does view (view s) (some (apply_batch ms)) (update_batch svc ms s)
  unfolding update_batch last_gauge total_delta sum
  update_batch-Does [] s = refl
  update_batch-Does (m ∷ ms) s =
      notify_if_done-Does (wrap "batch update failed") (view s) (apply_batch (m ∷ ms)) _
        (laws.batch_done (m ∷ ms) s) (laws.batch_failed (m ∷ ms) s)

-- ===== src/Server/Requests.antt =====
-- Every update that a server is asked for is all or nothing, over any storage that keeps its promise.
use go_yandex_practicum_metr.Prelude.{Option, some, ◌≡◌}
use go_yandex_practicum_metr.FloatText.{FloatText}
use go_yandex_practicum_metr.Repository.Spec.{View, IsStorage, apply_batch}
use go_yandex_practicum_metr.Service.{MetricService, notify_update}
use go_yandex_practicum_metr.Service.Updates.{
  Does, effect_of, text_effect, update_metric_from_model-Does, update_metric-Does,
  update_batch-Does,
}
use go_yandex_practicum_metr.Server.{Update, by_text, by_model, by_batch, apply_update}

-- What an update asks for.
abbrev pub effect_of_update : FloatText → Update → Option (View → View)
effect_of_update ft (by_text mtype name value) = text_effect ft mtype name value
effect_of_update ft (by_model m) = effect_of m
effect_of_update ft (by_batch ms) = some (apply_batch ms)

-- Over a storage that keeps its promise and with a callback that leaves the metrics alone, an update
-- by text, by a metric or by a batch has its whole effect, or ends with an error and has none. An
-- unknown type, a text that does not parse, a gauge with no value and a counter with no delta always
-- end with an error.
pub apply_update-Does :
    {S : Type 0} (svc : MetricService S) (view : S → View)
    → IsStorage svc.storage view
    → ((s : S) → view (notify_update svc s) ≡ view s)
    → (ft : FloatText) (u : Update) (s : S)
    → Does view (view s) (effect_of_update ft u) (apply_update svc ft u s)
unfolding apply_update
apply_update-Does svc view laws keeps ft (by_text mtype name value) s =
    update_metric-Does svc view laws keeps ft mtype name value s
apply_update-Does svc view laws keeps ft (by_model m) s =
    update_metric_from_model-Does svc view laws keeps m s
apply_update-Does svc view laws keeps ft (by_batch ms) s =
    update_batch-Does svc view laws keeps ms s

-- ===== src/Repository/Memory/Batch.antt =====
-- A batch on MemStorage has the effect of its closed form.
use go_yandex_practicum_metr.Prelude.{
  String, eq_iff, Option, none, some, or_else, ◌≡◌, ◌≢◌, ◌∙◌, refl, ap, List, [], ◌∷◌, arith,
}
use go_yandex_practicum_metr.GoMap.{lookup}
use go_yandex_practicum_metr.GoMap.Laws.{lookup-insert}
use go_yandex_practicum_metr.Int64.{Int64, add}
use go_yandex_practicum_metr.Model.{Metrics, gauge_type, counter_type}
use go_yandex_practicum_metr.Repository.Spec.{
  View, sum, gauge_of, delta_of, last_gauge, total_delta, apply_batch,
}
use go_yandex_practicum_metr.Repository.Memory.{
  MemStorage, store_gauge, bump_counter, apply_metric, apply_metrics,
}

-- What a client can read.
abbrev pub view : MemStorage → View
view s = record { gauge = λ k. lookup k s.gauges; counter = λ k. lookup k s.counters }

pub gauge-ne-counter : gauge_type ≢ counter_type
gauge-ne-counter = ground (arith, eq_iff "gauge" "counter")

pub sum_assoc : (a b c : Option Int64) → sum (sum a b) c ≡ sum a (sum b c)
unfolding sum add
sum_assoc a b none = refl
sum_assoc a none (some c) = ground arith
sum_assoc none (some b) (some c) = ground arith
sum_assoc (some a) (some b) (some c) = ground arith

gauges-apply_metric :
    (k : String) (m : Metrics) (s : MemStorage)
    → lookup k (apply_metric m s).gauges ≡ or_else (gauge_of k m) (lookup k s.gauges)
unfolding apply_metric store_gauge bump_counter
gauges-apply_metric k m s = grind (arith, lookup-insert, eq_iff)

counters-apply_metric :
    (k : String) (m : Metrics) (s : MemStorage)
    → lookup k (apply_metric m s).counters ≡ sum (lookup k s.counters) (delta_of k m)
unfolding apply_metric store_gauge bump_counter sum
counters-apply_metric k m s = grind (
  arith,
  lookup-insert,
  eq_iff,
  eq_iff m.mtype gauge_type,
  eq_iff m.mtype counter_type,
  gauge-ne-counter,
)

-- After a batch every gauge has the last value that the batch gives it, or its old one.
pub gauges-apply_metrics :
    (k : String) (ms : List Metrics) (s : MemStorage)
    → lookup k (apply_metrics ms s).gauges ≡ or_else (last_gauge k ms) (lookup k s.gauges)
unfolding apply_metrics last_gauge
gauges-apply_metrics k [] s = refl
gauges-apply_metrics k (m ∷ ms) s =
    ground (arith, gauges-apply_metrics k ms (apply_metric m s), gauges-apply_metric k m s)

-- After a batch every counter has grown by the sum of what the batch adds to it.
pub counters-apply_metrics :
    (k : String) (ms : List Metrics) (s : MemStorage)
    → lookup k (apply_metrics ms s).counters ≡ sum (lookup k s.counters) (total_delta k ms)
unfolding apply_metrics total_delta
counters-apply_metrics k [] s = unfold sum in refl
counters-apply_metrics k (m ∷ ms) s =
    counters-apply_metrics k ms (apply_metric m s)
    ∙ ap (λ c. sum c (total_delta k ms)) (counters-apply_metric k m s)
    ∙ sum_assoc (lookup k s.counters) (delta_of k m) (total_delta k ms)

-- The loop of UpdateBatch has the effect that the closed form describes: each gauge takes the last
-- value that the batch gives it, each counter grows by the sum of its deltas, all else is kept.
pub view-apply_metrics :
    (ms : List Metrics) (s : MemStorage) → view (apply_metrics ms s) ≡ apply_batch ms (view s)
view-apply_metrics ms s = λ i. record {
  gauge = λ k. gauges-apply_metrics k ms s i;
  counter = λ k. counters-apply_metrics k ms s i;
}

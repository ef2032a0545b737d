-- ===== src/Repository/Memory/Refines.antt =====
-- MemStorage is a `Storage` in the sense of the specification, and never fails.
use go_yandex_practicum_metr.Prelude.{String, eq_iff, ◌≡◌, refl, arith}
use go_yandex_practicum_metr.GoMap.{lookup}
use go_yandex_practicum_metr.GoMap.Laws.{lookup-insert}
use go_yandex_practicum_metr.Int64.{Int64}
use go_yandex_practicum_metr.Model.{Float64}
use go_yandex_practicum_metr.FloatText.{FloatText}
use go_yandex_practicum_metr.Repository.Spec.{IsStorage, sum, set_gauge, add_counter, metric_of}
use go_yandex_practicum_metr.Repository.Memory.{
  MemStorage, store_gauge, bump_counter, update_gauge, update_counter, update_batch, get_metric,
  mem_storage,
}
use go_yandex_practicum_metr.Repository.Memory.Batch.{view, view-apply_metrics}

view-store_gauge :
    (n : String) (v : Float64) (s : MemStorage) → view (store_gauge n v s) ≡ set_gauge n v (view s)
unfolding store_gauge
view-store_gauge n v s =
    λ i. record { gauge = λ k. lookup-insert n k v s.gauges i; counter = λ k. lookup k s.counters }

counter-bump_counter :
    (n k : String) (d : Int64) (s : MemStorage)
    → lookup k (bump_counter n d s).counters ≡ (add_counter n d (view s)).counter k
unfolding bump_counter sum
counter-bump_counter n k d s = grind (arith, lookup-insert, eq_iff)

view-bump_counter :
    (n : String) (d : Int64) (s : MemStorage) → view (bump_counter n d s) ≡ add_counter n d (view s)
unfolding bump_counter
view-bump_counter n d s =
    λ i. record { gauge = λ k. lookup k s.gauges; counter = λ k. counter-bump_counter n k d s i }

-- GetMetric returns exactly the metric of that name and type.
pub get_metric-eq-metric_of :
    (n t : String) (s : MemStorage) → get_metric n t s ≡ metric_of (view s) n t
unfolding get_metric
get_metric-eq-metric_of n t s = ground (arith, eq_iff t "gauge", eq_iff t "counter")

-- MemStorage implements the specification of a storage: each update and each batch has its whole
-- effect or an error and none, a metric that is found is the stored one, and reads change nothing.
pub mem_storage-IsStorage : (ft : FloatText) → IsStorage (mem_storage ft) view
unfolding update_gauge update_counter update_batch
mem_storage-IsStorage ft = record {
  gauge_done = λ n v s e. view-store_gauge n v s;
  gauge_failed = λ n v s e. absurd (e refl);
  counter_done = λ n d s e. view-bump_counter n d s;
  counter_failed = λ n d s e. absurd (e refl);
  batch_done = λ ms s e. view-apply_metrics ms s;
  batch_failed = λ ms s e. absurd (e refl);
  metric_found = λ n t s m e. rw get_metric-eq-metric_of at e;
  metric_kept = λ n t s. refl;
  value_kept = λ t n s. refl;
  all_kept = λ s. refl;
}

-- ===== src/Repository/Memory/Valid.antt =====
-- The invariant of MemStorage: no name twice in a map, and every counter an int64.
use go_yandex_practicum_metr.Prelude.{String, some, ◌≡◌, List, [], ◌∷◌, arith}
use go_yandex_practicum_metr.GoMap.{GoMap, lookup, insert, NodupKeys}
use go_yandex_practicum_metr.GoMap.Laws.{insert-NodupKeys}
use go_yandex_practicum_metr.Int64.{Int64, IsInt64, add}
use go_yandex_practicum_metr.Model.{Metrics, Float64}
use go_yandex_practicum_metr.Repository.Memory.{
  MemStorage, new_mem_storage, store_gauge, bump_counter, apply_metric, apply_metrics,
}

abbrev pub AllInt64 : GoMap Int64 → Type 0
AllInt64 [] = Unit
AllInt64 ((k, v) ∷ m) = IsInt64 v × AllInt64 m

pub record IsValid (s : MemStorage) : Type 0 where
  pub gauges : NodupKeys s.gauges
  pub counters : NodupKeys s.counters
  pub in_range : AllInt64 s.counters

insert-AllInt64 :
    (k : String) (v : Int64) (m : GoMap Int64) → IsInt64 v → AllInt64 m → AllInt64 (insert k v m)
unfolding insert
insert-AllInt64 k v [] h a = (h, tt)
insert-AllInt64 k v ((j, w) ∷ m) h a = ground (arith, insert-AllInt64 k v m h a.1)

pub store_gauge-IsValid :
    (n : String) (v : Float64) {s : MemStorage} → IsValid s → IsValid (store_gauge n v s)
unfolding store_gauge
store_gauge-IsValid n v {s} h = record {
  gauges = insert-NodupKeys n v s.gauges h.gauges;
  counters = h.counters;
  in_range = h.in_range;
}

add-IsInt64 : (a b : Int64) → IsInt64 (add a b)
unfolding add
add-IsInt64 a b = omega arith

pub bump_counter-IsValid :
    (n : String) (d : Int64) {s : MemStorage} → IsValid s → IsValid (bump_counter n d s)
unfolding bump_counter
bump_counter-IsValid n d {s} h = record {
  gauges = h.gauges;
  counters = insert-NodupKeys n _ s.counters h.counters;
  in_range = insert-AllInt64 n _ s.counters (add-IsInt64 _ d) h.in_range;
}

pub apply_metric-IsValid : (m : Metrics) {s : MemStorage} → IsValid s → IsValid (apply_metric m s)
unfolding apply_metric
apply_metric-IsValid m {s} h = grind (arith, store_gauge-IsValid, bump_counter-IsValid)

-- Whatever the batch, UpdateBatch keeps the invariant.
pub apply_metrics-IsValid :
    (ms : List Metrics) (s : MemStorage) → IsValid s → IsValid (apply_metrics ms s)
unfolding apply_metrics
apply_metrics-IsValid [] s h = h
apply_metrics-IsValid (m ∷ ms) s h =
    apply_metrics-IsValid ms (apply_metric m s) (apply_metric-IsValid m h)

pub new_mem_storage-IsValid : IsValid new_mem_storage
new_mem_storage-IsValid = record { gauges = tt; counters = tt; in_range = tt }

pub lookup-IsInt64 :
    (k : String) (m : GoMap Int64) (v : Int64) → AllInt64 m → lookup k m ≡ some v → IsInt64 v
unfolding lookup
lookup-IsInt64 k [] v h e = cc
lookup-IsInt64 k ((j, w) ∷ m) v h e = ground (arith, lookup-IsInt64 k m v h.1)

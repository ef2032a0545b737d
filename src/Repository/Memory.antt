-- ===== src/Repository/Memory.antt =====
-- MemStorage of internal/repository/storage.go. Each method holds the mutex for all of its body, so
-- one call is one step on the state.
pub mod Batch
pub mod Valid
pub mod Refines
pub mod Listing
pub mod Snapshot
use Prim.Native.String
use go_yandex_practicum_metr.Prelude.{
  String, ◌==◌, Option, none, some, get_or, List, [], ◌∷◌, if◌then◌else◌,
}
use go_yandex_practicum_metr.GoError.{GoError}
use go_yandex_practicum_metr.GoMap.{GoMap, lookup, insert}
use go_yandex_practicum_metr.Int64.{Int64, add, format_int}
use go_yandex_practicum_metr.Model.{Metrics, Float64, counter_type, gauge_type}
use go_yandex_practicum_metr.FloatText.{FloatText}
use go_yandex_practicum_metr.Repository.{Storage}

pub record MemStorage : Type 0 where
  pub gauges : GoMap Float64
  pub counters : GoMap Int64

abbrev pub new_mem_storage : MemStorage
new_mem_storage = record { gauges = []; counters = [] }

-- `s.gauges[name] = value`
unfoldable pub store_gauge : String → Float64 → MemStorage → MemStorage
store_gauge name value s = record s { gauges = insert name value s.gauges }

-- `s.counters[name] += value`: a missing key reads as zero
unfoldable pub bump_counter : String → Int64 → MemStorage → MemStorage
bump_counter name value s = record s {
  counters = insert name (add (get_or (lookup name s.counters) 0) value) s.counters;
}

unfoldable pub update_gauge : String → Float64 → MemStorage → Option GoError × MemStorage
update_gauge name value s = (none, store_gauge name value s)

unfoldable pub update_counter : String → Int64 → MemStorage → Option GoError × MemStorage
update_counter name value s = (none, bump_counter name value s)

-- one round of the loop of UpdateBatch
unfoldable pub apply_metric : Metrics → MemStorage → MemStorage
apply_metric m s =
    if m.mtype == gauge_type
    then elim m.value [ none ↦ s | some v ↦ store_gauge m.id v s ]
    else if m.mtype == counter_type
    then elim m.delta [ none ↦ s | some d ↦ bump_counter m.id d s ]
    else s

unfoldable pub apply_metrics : List Metrics → MemStorage → MemStorage
apply_metrics [] s = s
apply_metrics (m ∷ ms) s = apply_metrics ms (apply_metric m s)

unfoldable pub update_batch : List Metrics → MemStorage → Option GoError × MemStorage
update_batch ms s = (none, apply_metrics ms s)

unfoldable pub get_metric : String → String → MemStorage → Option Metrics
get_metric name mtype s =
    if mtype == gauge_type
    then elim (lookup name s.gauges) [
      | none ↦ none
      | some v ↦ some (record { id = name; mtype = mtype; delta = none; value = some v; hash = "" })
    ]
    else if mtype == counter_type
    then elim (lookup name s.counters) [
      | none ↦ none
      | some d ↦ some (record { id = name; mtype = mtype; delta = some d; value = none; hash = "" })
    ]
    else none

-- Snapshot: the gauges, then the counters
unfoldable pub snapshot_gauges : GoMap Float64 → List Metrics → List Metrics
snapshot_gauges [] rest = rest
snapshot_gauges ((name, val) ∷ m) rest =
    record { id = name; mtype = gauge_type; delta = none; value = some val; hash = "" }
    ∷ snapshot_gauges m rest

unfoldable pub snapshot_counters : GoMap Int64 → List Metrics
snapshot_counters [] = []
snapshot_counters ((name, val) ∷ m) =
    record { id = name; mtype = counter_type; delta = some val; value = none; hash = "" }
    ∷ snapshot_counters m

unfoldable pub snapshot : MemStorage → List Metrics
unfolding snapshot_gauges snapshot_counters
snapshot s = snapshot_gauges s.gauges (snapshot_counters s.counters)

module _ (ft : FloatText) where
  unfoldable pub get_value : String → String → MemStorage → Option String
  get_value mtype name s =
      if mtype == gauge_type
      then elim (lookup name s.gauges) [ none ↦ none | some v ↦ some (ft.format_float v) ]
      else if mtype == counter_type
      then elim (lookup name s.counters) [ none ↦ none | some d ↦ some (format_int d) ]
      else none

  -- the two loops of GetAllMetrics
  unfoldable pub list_gauges : GoMap Float64 → GoMap String → GoMap String
  list_gauges [] result = result
  list_gauges ((name, val) ∷ m) result =
      list_gauges m (insert (String.◌++◌ "gauge/" name) (ft.format_float val) result)

  unfoldable pub list_counters : GoMap Int64 → GoMap String → GoMap String
  list_counters [] result = result
  list_counters ((name, val) ∷ m) result =
      list_counters m (insert (String.◌++◌ "counter/" name) (format_int val) result)

  unfoldable pub get_all_metrics : MemStorage → GoMap String
  get_all_metrics s = list_counters s.counters (list_gauges s.gauges [])

  -- MemStorage as a `Storage`; its reads leave the state alone
  abbrev pub mem_storage : Storage MemStorage
  mem_storage = record {
    update_gauge = update_gauge;
    update_counter = update_counter;
    update_batch = update_batch;
    get_metric = λ name mtype s. (get_metric name mtype s, s);
    get_value = λ mtype name s. (get_value mtype name s, s);
    get_all_metrics = λ s. (get_all_metrics s, s);
  }

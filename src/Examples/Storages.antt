-- ===== src/Examples/Storages.antt =====
-- The storages and the service at concrete inputs.
use go_yandex_practicum_metr.Prelude.{◌≡◌, ◌≢◌, refl, none, some, List, [], ◌∷◌, ◌++◌, ◌^◌, ◌-◌}
use go_yandex_practicum_metr.GoError.{GoError, ok}
use go_yandex_practicum_metr.GoMap.{lookup, insert}
use go_yandex_practicum_metr.Int64.{
  add, parse_int, format_int, format_uint, digits_from, digit_char, parse_uint, scan,
}
use go_yandex_practicum_metr.Model.{Metrics}
use go_yandex_practicum_metr.Repository.Json.{has_unsupported, is_finite}
use go_yandex_practicum_metr.Repository.Spec.{IsStorage}
use go_yandex_practicum_metr.Repository.Memory.{
  MemStorage, mem_storage, snapshot, snapshot_gauges, snapshot_counters, apply_metrics,
  apply_metric, store_gauge, bump_counter, get_all_metrics,
}
use go_yandex_practicum_metr.Repository.Memory.Batch.{view}
use go_yandex_practicum_metr.Repository.Memory.Refines.{mem_storage-IsStorage}
use go_yandex_practicum_metr.Repository.Memory.Listing.{prefixed, get_all_metrics-eq-prefixed}
use go_yandex_practicum_metr.Repository.File.{FileBackedStorage, save, write_file}
use go_yandex_practicum_metr.Repository.File.Recovery.{Restores, restart-save}
use go_yandex_practicum_metr.Repository.File.Faults.{save_blocked}
use go_yandex_practicum_metr.Service.{MetricService, new_metric_service, notify_update}
use go_yandex_practicum_metr.Server.{by_model, apply_update}
use go_yandex_practicum_metr.Server.Requests.{effect_of_update, apply_update-Does}
use go_yandex_practicum_metr.Service.Updates.{Does}
use go_yandex_practicum_metr.Examples.Fixtures.{
  float_text, json, json-laws, gauge_item, counter_item, broken_item, store, store-IsValid,
}

format_int_minus_five : format_int (2 ^ 64 - 5) ≡ "-5"
unfolding format_int format_uint digits_from digit_char
format_int_minus_five = refl

parse_int_out_of_range : parse_int "9223372036854775808" ≢ ok 0
unfolding parse_int parse_uint scan
parse_int_out_of_range = λ e. cc

-- The item with no delta changes nothing.
batch_run :
    apply_metrics (gauge_item ∷ counter_item ∷ broken_item ∷ counter_item ∷ []) store
    ≡ record { gauges = ("Alloc", 7) ∷ ("Sys", 9) ∷ []; counters = ("PollCount", 50) ∷ [] }
unfolding apply_metrics apply_metric store_gauge bump_counter lookup insert add
batch_run = refl

mem_storage-IsStorage_example : IsStorage (mem_storage float_text) view
mem_storage-IsStorage_example = mem_storage-IsStorage float_text

get_all_metrics-eq-prefixed_example :
    get_all_metrics float_text store
    ≡ prefixed "gauge/" format_int store.gauges ++ prefixed "counter/" format_int store.counters
get_all_metrics-eq-prefixed_example = get_all_metrics-eq-prefixed float_text store store-IsValid

abbrev file_store : FileBackedStorage (List Metrics)
file_store = record {
  mem = store;
  disk = record { file = none; write_fault = none; read_fault = none };
  logged = [];
}

restart-save_example : Restores json (save json file_store).1 file_store
unfolding save write_file snapshot snapshot_gauges snapshot_counters has_unsupported is_finite
restart-save_example = restart-save json json-laws file_store store-IsValid refl refl

-- 0x7ff0… is +Inf.
abbrev infinite_store : FileBackedStorage (List Metrics)
infinite_store = record file_store {
  mem = record { gauges = ("Alloc", 3) ∷ ("Ratio", 0x7ff0000000000000) ∷ []; counters = [] };
}

save_blocked_example : (e : GoError) × (save json infinite_store ≡ (some e, infinite_store))
unfolding lookup is_finite
save_blocked_example =
    save_blocked json json-laws infinite_store "Ratio" 0x7ff0000000000000 refl refl

abbrev service : MetricService MemStorage
service = new_metric_service (mem_storage float_text)

apply_update-Does_example :
    Does view
      (view store)
      (effect_of_update float_text (by_model gauge_item))
      (apply_update service float_text (by_model gauge_item) store)
unfolding notify_update
apply_update-Does_example =
    apply_update-Does service view (mem_storage-IsStorage float_text) (λ s. refl) float_text
      (by_model gauge_item) store

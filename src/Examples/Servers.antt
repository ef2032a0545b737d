-- ===== src/Examples/Servers.antt =====
-- The wiring of the server and its audit, at concrete inputs.
use go_yandex_practicum_metr.Prelude.{
  eq_iff, ◌≡◌, ◌≢◌, refl, inl, false, true, none, some, List, [], ◌∷◌, ◌++◌, arith, get_elem?,
}
use go_yandex_practicum_metr.GoError.{ok, err, text}
use go_yandex_practicum_metr.Model.{Metrics}
use mathlib.Core.List.{Perm}
use go_yandex_practicum_metr.Service.{new_metric_service}
use go_yandex_practicum_metr.Int64.{format_int}
use go_yandex_practicum_metr.Server.{Backend, backend_storage}
use go_yandex_practicum_metr.Server.Dashboard.{list_metrics-rows}
use go_yandex_practicum_metr.Handler.Dashboard.{IsSorted, rows}
use go_yandex_practicum_metr.Handler.{
  Event, MetricHandler, World, respond, page, list_metrics, sort_rows, rows_of,
}
use go_yandex_practicum_metr.Repository.Memory.{get_all_metrics}
use go_yandex_practicum_metr.Examples.Http.{no_port, request}
use go_yandex_practicum_metr.Config.Server.{ServerConfig}
use go_yandex_practicum_metr.Repository.Json.{has_unsupported, is_finite}
use go_yandex_practicum_metr.Repository.Memory.{
  store_gauge, bump_counter, apply_metrics, apply_metric, snapshot, snapshot_gauges,
  snapshot_counters,
}
use go_yandex_practicum_metr.Repository.Memory
use go_yandex_practicum_metr.Service
use go_yandex_practicum_metr.Service.{update_metric_from_model, notify_if_done, notify_update}
use go_yandex_practicum_metr.GoMap.{insert, lookup}
use go_yandex_practicum_metr.Int64.{add}
use go_yandex_practicum_metr.Repository.File.{
  Disk, FileBackedStorage, save_on_update, save, load, read_file, load_metrics, write_file,
}
use go_yandex_practicum_metr.Repository.File.Recovery.{file_view}
use go_yandex_practicum_metr.Server.Shutdown.{serve-shut_down}
use go_yandex_practicum_metr.Repository.File.{periodic_save}
use go_yandex_practicum_metr.Server.{
  asked, ticked, serve, tick, shut_down, apply_update, open_file, open_storage, open_service,
  in_file, by_model, by_batch, apply_updates,
}
use go_yandex_practicum_metr.Server.Durability.{apply_updates-survive}
use go_yandex_practicum_metr.Audit.{Observer, to_url, AuditLib, Publisher}
use go_yandex_practicum_metr.Audit.Trail.{trail, waiting, sound_file, AuditReach-IsTrailed}
use go_yandex_practicum_metr.Audit.Delivery.{
  Auditing, delivered, AuditReach, start, emits, moves, emit, deliver,
}
use go_yandex_practicum_metr.Crypto.{Bytes}
use go_yandex_practicum_metr.Examples.Databases.{retry_lib, pg_lib}
use go_yandex_practicum_metr.Examples.Fixtures.{
  float_text, json, json-laws, gauge_item, counter_item, store, store-IsValid,
}

abbrev config : ServerConfig
config = record {
  addr = "localhost:8080";
  store_interval = 0;
  file_storage_path = "/tmp/metrics-db.json";
  restore = true;
  database_dsn = "";
  key = "";
  audit_file = "audit.log";
  audit_url = "";
  crypto_key = "";
  trusted_subnet = "";
  grpc_addr = "";
}

abbrev disk : Disk (List Metrics)
disk = record { file = some (counter_item ∷ []); write_fault = none; read_fault = none }

path_set : config.file_storage_path ≢ ""
path_set e = ground (arith, eq_iff config.file_storage_path "")

apply_updates-survive_example :
    (s t : FileBackedStorage (List Metrics)) × (apply_updates
        (open_service json retry_lib pg_lib float_text config
          (open_storage json config (err (text "no database")) disk))
        float_text
        (by_model counter_item ∷ by_batch (gauge_item ∷ []) ∷ [])
        (open_storage json config (err (text "no database")) disk)
      ≡ in_file s)
    × (open_storage json config (err (text "no database")) s.disk ≡ in_file t)
    × (file_view t ≡ file_view s)
unfolding apply_update update_metric_from_model notify_if_done open_storage Memory.update_counter
    notify_update has_unsupported snapshot save_on_update save bump_counter open_file load read_file
    load_metrics insert write_file lookup add is_finite snapshot_counters snapshot_gauges
    store_gauge Memory.update_gauge Memory.update_batch apply_metrics apply_metric
    Service.update_batch apply_updates open_service
apply_updates-survive_example =
    apply_updates-survive json json-laws retry_lib pg_lib float_text config
      (err (text "no database")) disk (by_model counter_item ∷ by_batch (gauge_item ∷ []) ∷ [])
      (inl refl) path_set refl refl refl refl refl

-- saved every 300 seconds, by a server that does not restore its file
abbrev periodic_config : ServerConfig
periodic_config = record config { store_interval = 300; restore = false }

serve-shut_down_example :
    (last stopped next : FileBackedStorage (List Metrics)) × (serve json periodic_config
        (open_service json retry_lib pg_lib float_text periodic_config
          (open_storage json periodic_config (err (text "no database")) disk))
        float_text
        (asked (by_model counter_item) ∷ ticked ∷ asked (by_batch (gauge_item ∷ [])) ∷ [])
        (open_storage json periodic_config (err (text "no database")) disk)
      ≡ in_file last)
    × (shut_down json (in_file last) ≡ (none, in_file stopped))
    × (open_storage json config (err (text "no database")) stopped.disk ≡ in_file next)
    × (file_view next ≡ file_view last)
unfolding serve tick periodic_save open_service apply_update update_metric_from_model notify_if_done
    open_storage Memory.update_counter notify_update has_unsupported snapshot save bump_counter
    open_file load read_file load_metrics insert write_file lookup add is_finite snapshot_counters
    snapshot_gauges store_gauge Memory.update_gauge Memory.update_batch apply_metrics apply_metric
    Service.update_batch
serve-shut_down_example =
    serve-shut_down json json-laws retry_lib pg_lib float_text periodic_config
      (err (text "no database")) disk
      (asked (by_model counter_item) ∷ ticked ∷ asked (by_batch (gauge_item ∷ [])) ∷ []) config
      (err (text "no database")) (inl refl) path_set refl refl (inl refl) refl refl refl

-- the metrics of a server with a file
abbrev stored : FileBackedStorage (List Metrics)
stored = record { mem = store; disk = disk; logged = [] }

abbrev file_handler : MetricHandler (Backend (List Metrics))
file_handler = record {
  svc = new_metric_service (backend_storage retry_lib pg_lib float_text);
  pinger = none;
  publisher = false;
}

abbrev file_world : World (Backend (List Metrics))
file_world = record { store = in_file stored; events = []; log = [] }

list_metrics-rows_example :
    let shown = sort_rows (rows_of (get_all_metrics float_text store)) in
    (list_metrics json float_text no_port file_handler (request "" "" "" []) file_world
      ≡ (respond 200 (page shown), file_world))
    × Perm shown (rows "gauge" format_int store.gauges ++ rows "counter" format_int store.counters)
    × IsSorted shown
list_metrics-rows_example =
    list_metrics-rows retry_lib pg_lib float_text json no_port file_handler (request "" "" "" [])
      file_world store refl refl store-IsValid

abbrev audit_lib : AuditLib
audit_lib = record { marshal_event = λ e. ok (7 ∷ []); parse_url = λ u. none }

abbrev event : Event
event = record { ts = 1700000000; metrics = "Alloc" ∷ []; ip_address = "10.0.0.7" }

abbrev failing_url : Observer
failing_url =
    to_url
      (record { url = "http://audit"; posted = []; answers = ok 500 ∷ err (text "timeout") ∷ [] })

abbrev later_event : Event
later_event = record { ts = 1700000001; metrics = "PollCount" ∷ []; ip_address = "10.0.0.7" }

abbrev file_with : Bytes → Observer
file_with = sound_file audit_lib (λ e. 7 ∷ []) (λ e. refl) 1 (1 ∷ []) none

abbrev audit : Publisher
audit = record { observers = failing_url ∷ file_with (1 ∷ []) ∷ []; logged = some [] }

abbrev past_url : Publisher
past_url = delivered audit_lib later_event 0 failing_url audit

abbrev past_file : Publisher
past_file = delivered audit_lib later_event 1 (file_with (1 ∷ [])) past_url

-- The later event overtakes the first.
abbrev overtaken : Auditing
overtaken = record { publisher = past_file; running = (later_event, 2) ∷ (event, 0) ∷ [] }

run_of_audit : AuditReach audit_lib audit (later_event ∷ event ∷ []) overtaken
run_of_audit =
    moves
      (moves (emits later_event (emits event start (emit event)) (emit later_event))
        (deliver [] ((event, 0) ∷ []) later_event 0 failing_url refl refl))
      (deliver [] ((event, 0) ∷ []) later_event 1 (file_with (1 ∷ [])) refl refl)

AuditReach-IsTrailed_example :
    (done : List Event) × (get_elem? past_file.observers 1
      ≡ some (file_with ((1 ∷ []) ++ trail (λ e. 7 ∷ []) done)))
    × Perm (done ++ waiting 1 overtaken.running) (later_event ∷ event ∷ [])
AuditReach-IsTrailed_example =
    AuditReach-IsTrailed audit_lib (λ e. 7 ∷ []) (λ e. refl) 1 (1 ∷ []) none run_of_audit refl

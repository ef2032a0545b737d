-- ===== src/Server.antt =====
-- main of cmd/server/main.go, as far as it chooses and wires the storage: the database, else the
-- file, else memory; when it is saved; and what stands behind /ping. The router is
-- Middleware.new_router.
pub mod Saved
pub mod Updates
pub mod Durability
pub mod Shutdown
pub mod Requests
pub mod Dashboard
pub mod Start
pub mod Guarded
pub mod Refusals
pub mod Stopping
use go_yandex_practicum_metr.Prelude.{
  String, ◌==◌, Bool, true, false, not, ◌&&◌, eqb, ltb, ◌^◌, Option, none, some, List, [], ◌∷◌,
  if◌then◌else◌,
}
use go_yandex_practicum_metr.GoError.{GoError, Result, ok, err}
use go_yandex_practicum_metr.Model.{Metrics, Float64}
use go_yandex_practicum_metr.Int64.{Int64}
use go_yandex_practicum_metr.FloatText.{FloatText}
use go_yandex_practicum_metr.Retry.{RetryLib}
use go_yandex_practicum_metr.Repository.{Storage}
use go_yandex_practicum_metr.Repository.Json.{Json}
use go_yandex_practicum_metr.Repository.Memory.{MemStorage, new_mem_storage, mem_storage}
use go_yandex_practicum_metr.Repository.File.{
  Disk, FileBackedStorage, new_file_backed_storage, file_storage, load, save_on_update,
  periodic_save, close,
}
use go_yandex_practicum_metr.Repository.Database.{Database, PgLib, db_storage}
use go_yandex_practicum_metr.Service.{
  MetricService, new_metric_service, set_on_update, update_metric, update_metric_from_model,
  update_batch,
}
use go_yandex_practicum_metr.Config.Server.{ServerConfig}

-- The dynamic type behind the variable `storage`, with its state.
pub data Backend (Text : Type 0) : Type 0 where
  in_database : Database → Backend Text
  in_file : FileBackedStorage Text → Backend Text
  in_memory : MemStorage → Backend Text

-- a call through the interface
abbrev pub on_backend {ℓ} :
    {A : Type ℓ} {Text : Type 0}
    → (Database → A × Database)
    → (FileBackedStorage Text → A × FileBackedStorage Text)
    → (MemStorage → A × MemStorage)
    → Backend Text
    → A × Backend Text
on_backend on_db on_file on_mem (in_database db) =
    let (a, after) = on_db db in (a, in_database after)
on_backend on_db on_file on_mem (in_file s) = let (a, after) = on_file s in (a, in_file after)
on_backend on_db on_file on_mem (in_memory s) = let (a, after) = on_mem s in (a, in_memory after)

module _ {Text : Type 0} (retry : RetryLib) (pg : PgLib) (ft : FloatText) where
  abbrev pub backend_storage : Storage (Backend Text)
  backend_storage =
      let db = db_storage retry pg ft in
      let file : Storage (FileBackedStorage Text) = file_storage ft in
      let mem = mem_storage ft in
      record {
        update_gauge = λ name value.
            on_backend (db.update_gauge name value) (file.update_gauge name value)
              (mem.update_gauge name value);
        update_counter = λ name value.
            on_backend (db.update_counter name value) (file.update_counter name value)
              (mem.update_counter name value);
        update_batch = λ metrics.
            on_backend (db.update_batch metrics) (file.update_batch metrics)
              (mem.update_batch metrics);
        get_metric = λ name mtype.
            on_backend (db.get_metric name mtype) (file.get_metric name mtype)
              (mem.get_metric name mtype);
        get_value = λ mtype name.
            on_backend (db.get_value mtype name) (file.get_value mtype name)
              (mem.get_value mtype name);
        get_all_metrics = on_backend db.get_all_metrics file.get_all_metrics mem.get_all_metrics;
      }

-- `cfg.StoreInterval > 0`
abbrev pub is_positive : Int64 → Bool
is_positive n = ltb 0 n && ltb n (2 ^ 63)

module _ {Text : Type 0} (json : Json Text) where
  -- NewFileBackedStorage and, where it is asked for, Load; an error of Load is only logged
  unfoldable pub open_file : Bool → Disk Text → FileBackedStorage Text
  open_file restore disk =
      if restore then (load json (new_file_backed_storage disk)).1 else new_file_backed_storage disk

  abbrev pub file_or_memory : ServerConfig → Disk Text → Backend Text
  file_or_memory cfg disk =
      if cfg.file_storage_path == ""
      then in_memory new_mem_storage
      else in_file (open_file cfg.restore disk)

  -- the choice of the storage, where `connected` is what NewDBStorage would return
  unfoldable pub open_storage : ServerConfig → Result Database → Disk Text → Backend Text
  open_storage cfg connected disk =
      if cfg.database_dsn == ""
      then file_or_memory cfg disk
      else elim connected [ ok db ↦ in_database db | err e ↦ file_or_memory cfg disk ]

  -- fileSt.SaveOnUpdate, where fileSt is the storage
  abbrev pub save_backend : Backend Text → Backend Text
  save_backend (in_database db) = in_database db
  save_backend (in_file s) = in_file (save_on_update json s)
  save_backend (in_memory s) = in_memory s

  -- one tick of the periodic save, if main has started it
  unfoldable pub tick : ServerConfig → Backend Text → Backend Text
  tick cfg (in_database db) = in_database db
  tick cfg (in_file s) =
      if is_positive cfg.store_interval then in_file (periodic_save json s) else in_file s
  tick cfg (in_memory s) = in_memory s

  -- the end of main
  unfoldable pub shut_down : Backend Text → Option GoError × Backend Text
  shut_down (in_database db) = (none, in_database db)
  shut_down (in_file s) = let (e, after) = close json s in (e, in_file after)
  shut_down (in_memory s) = (none, in_memory s)

  module _ (retry : RetryLib) (pg : PgLib) (ft : FloatText) where
    -- NewMetricService and SetOnUpdate, where `opened` is the storage that main has opened
    unfoldable pub open_service : ServerConfig → Backend Text → MetricService (Backend Text)
    open_service cfg (in_database db) = new_metric_service (backend_storage retry pg ft)
    open_service cfg (in_file s) =
        if eqb cfg.store_interval 0
        then set_on_update save_backend (new_metric_service (backend_storage retry pg ft))
        else new_metric_service (backend_storage retry pg ft)
    open_service cfg (in_memory s) = new_metric_service (backend_storage retry pg ft)

-- what handler.New is given as its Pinger
unfoldable pub pinger_of : {Text : Type 0} → Backend Text → Option Database
pinger_of (in_database db) = some db
pinger_of (in_file s) = none
pinger_of (in_memory s) = none

-- The updates that a server is asked for, over HTTP or gRPC.
pub data Update : Type 0 where
  by_text : String → String → String → Update
  by_model : Metrics → Update
  by_batch : List Metrics → Update

unfoldable pub apply_update :
    {S : Type 0} → MetricService S → FloatText → Update → S → Option GoError × S
apply_update svc ft (by_text mtype name value) s = update_metric svc ft mtype name value s
apply_update svc ft (by_model m) s = update_metric_from_model svc m s
apply_update svc ft (by_batch ms) s = update_batch svc ms s

unfoldable pub apply_updates : {S : Type 0} → MetricService S → FloatText → List Update → S → S
apply_updates svc ft [] s = s
apply_updates svc ft (u ∷ us) s = apply_updates svc ft us (apply_update svc ft u s).1

-- What happens to the storage of a running server: updates, and ticks of the periodic save.
pub data Action : Type 0 where
  asked : Update → Action
  ticked : Action

unfoldable pub serve :
    {Text : Type 0}
    → Json Text
    → ServerConfig
    → MetricService (Backend Text)
    → FloatText
    → List Action
    → Backend Text
    → Backend Text
serve json cfg svc ft [] b = b
serve json cfg svc ft (asked u ∷ acts) b = serve json cfg svc ft acts (apply_update svc ft u b).1
serve json cfg svc ft (ticked ∷ acts) b = serve json cfg svc ft acts (tick json cfg b)

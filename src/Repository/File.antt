-- ===== src/Repository/File.antt =====
-- FileBackedStorage of internal/repository/filestorage.go, with the one file that it keeps. A method
-- that saves or loads holds the mutex for all of its body.
pub mod Recovery
pub mod Faults
use go_yandex_practicum_metr.Prelude.{
  String, ◌==◌, Option, none, some, List, [], ◌∷◌, ◌++◌, if◌then◌else◌,
}
use go_yandex_practicum_metr.GoError.{GoError, Result, ok, err}
use go_yandex_practicum_metr.GoMap.{GoMap}
use go_yandex_practicum_metr.Int64.{Int64}
use go_yandex_practicum_metr.Model.{Metrics, Float64, counter_type, gauge_type}
use go_yandex_practicum_metr.FloatText.{FloatText}
use go_yandex_practicum_metr.Repository.{Storage}
use go_yandex_practicum_metr.Repository.Json.{Json}
use go_yandex_practicum_metr.Repository.Memory
use go_yandex_practicum_metr.Repository.Memory.{MemStorage, new_mem_storage, snapshot, mem_storage}

-- The file at `path`, and what the operating system will answer: `write_fault` is the error of the
-- next os.WriteFile with what it leaves in the file, `read_fault` that of the next os.ReadFile.
pub record Disk (Text : Type 0) : Type 0 where
  pub file : Option Text
  pub write_fault : Option (GoError × Option Text)
  pub read_fault : Option GoError

pub record FileBackedStorage (Text : Type 0) : Type 0 where
  pub mem : MemStorage
  pub disk : Disk Text
  pub logged : List String

-- os.ReadFile: os.IsNotExist tells a missing file from other errors
pub data FileRead (Text : Type 0) : Type 0 where
  contents : Text → FileRead Text
  not_exist : FileRead Text
  failed : GoError → FileRead Text

-- the loop of Load; the errors of UpdateGauge and UpdateCounter are dropped
unfoldable pub load_metrics : List Metrics → MemStorage → MemStorage
load_metrics [] mem = mem
load_metrics (m ∷ ms) mem = load_metrics ms (
    if m.mtype == gauge_type
    then elim m.value [ none ↦ mem | some v ↦ (Memory.update_gauge m.id v mem).1 ]
    else if m.mtype == counter_type
    then elim m.delta [ none ↦ mem | some d ↦ (Memory.update_counter m.id d mem).1 ]
    else mem)

module _ {Text : Type 0} where
  abbrev pub new_file_backed_storage : Disk Text → FileBackedStorage Text
  new_file_backed_storage disk = record { mem = new_mem_storage; disk = disk; logged = [] }

  -- os.WriteFile truncates the file before it writes
  unfoldable pub write_file : Text → Disk Text → Option GoError × Disk Text
  write_file text disk = elim disk.write_fault [
    | none ↦ (none, record disk { file = some text })
    | some (e, left) ↦ (some e, record disk { file = left })
  ]

  unfoldable pub read_file : Disk Text → FileRead Text
  read_file disk = elim disk.read_fault [
    | some e ↦ failed e
    | none ↦ elim disk.file [ none ↦ not_exist | some text ↦ contents text ]
  ]

  -- A method of the wrapped MemStorage, on the wrapper.
  abbrev pub delegate {ℓ} :
      {A : Type ℓ}
      → (MemStorage → A × MemStorage)
      → FileBackedStorage Text
      → A × FileBackedStorage Text
  delegate f s = let (a, mem) = f s.mem in (a, record s { mem = mem })

  -- FileBackedStorage as a `Storage`: its six methods delegate to the wrapped MemStorage
  abbrev pub file_storage : FloatText → Storage (FileBackedStorage Text)
  file_storage ft =
      let inner = mem_storage ft in
      record {
        update_gauge = λ name value. delegate (inner.update_gauge name value);
        update_counter = λ name value. delegate (inner.update_counter name value);
        update_batch = λ metrics. delegate (inner.update_batch metrics);
        get_metric = λ name mtype. delegate (inner.get_metric name mtype);
        get_value = λ mtype name. delegate (inner.get_value mtype name);
        get_all_metrics = delegate inner.get_all_metrics;
      }

module _ {Text : Type 0} (json : Json Text) where
  unfoldable pub save : FileBackedStorage Text → Option GoError × FileBackedStorage Text
  save s = elim (json.marshal_list (snapshot s.mem)) [
    | err e ↦ (some e, s)
    | ok text ↦ let (r, disk) = write_file text s.disk in (r, record s { disk = disk })
  ]

  unfoldable pub load : FileBackedStorage Text → Option GoError × FileBackedStorage Text
  load s = elim (read_file s.disk) [
    | not_exist ↦ (none, s)
    | failed e ↦ (some e, s)
    | contents text ↦ elim (json.unmarshal_list text) [
      | err e ↦ (some e, s)
      | ok metrics ↦ (none, record s { mem = load_metrics metrics s.mem })
    ]
  ]

  abbrev pub log_failure : String → Option GoError × FileBackedStorage Text → FileBackedStorage Text
  log_failure message (none, s) = s
  log_failure message (some e, s) = record s { logged = s.logged ++ message ∷ [] }

  unfoldable pub save_on_update : FileBackedStorage Text → FileBackedStorage Text
  save_on_update s = log_failure "sync save failed" (save s)

  -- one tick of the loop that StartPeriodicSave starts
  unfoldable pub periodic_save : FileBackedStorage Text → FileBackedStorage Text
  periodic_save s =
      let (r, t) = save s in
      let message : String = elim r [ none ↦ "metrics saved" | some e ↦ "periodic save failed" ] in
      record t { logged = t.logged ++ message ∷ [] }

  unfoldable pub close : FileBackedStorage Text → Option GoError × FileBackedStorage Text
  close s = save s

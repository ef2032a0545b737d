-- ===== src/Repository/File/Recovery.antt =====
-- A saved file restores the metrics after a restart.
use go_yandex_practicum_metr.Prelude.{
  Option, none, some, ◌≡◌, ◌∙◌, refl, ap, List, [], ◌∷◌, arith, inl, inr,
}
use go_yandex_practicum_metr.GoError.{GoError, ok, Result-cases}
use go_yandex_practicum_metr.Model.{Metrics}
use go_yandex_practicum_metr.Repository.Json.{Json, JsonLaws}
use go_yandex_practicum_metr.Repository.Spec.{View}
use go_yandex_practicum_metr.Repository.Memory.{
  MemStorage, new_mem_storage, snapshot, apply_metric, apply_metrics, update_gauge, update_counter,
}
use go_yandex_practicum_metr.Repository.Memory.Batch.{view}
use go_yandex_practicum_metr.Repository.Memory.Valid.{IsValid}
use go_yandex_practicum_metr.Repository.Memory.Snapshot.{view-apply_metrics-snapshot}
use go_yandex_practicum_metr.Repository.File.{
  FileBackedStorage, new_file_backed_storage, write_file, read_file, load_metrics, save, load,
}

-- Load applies the file as a batch.
pub load_metrics-eq-apply_metrics :
    (ms : List Metrics) (mem : MemStorage) → load_metrics ms mem ≡ apply_metrics ms mem
unfolding load_metrics apply_metrics apply_metric update_gauge update_counter
load_metrics-eq-apply_metrics [] mem = refl
load_metrics-eq-apply_metrics (m ∷ ms) mem = load_metrics-eq-apply_metrics ms _

-- What a client of the wrapper can read.
abbrev pub file_view : {Text : Type 0} → FileBackedStorage Text → View
file_view s = view s.mem

module _ {Text : Type 0} (json : Json Text) where
  -- A process that starts on the disk that another one left.
  abbrev pub restart : FileBackedStorage Text → Option GoError × FileBackedStorage Text
  restart s = load json (new_file_backed_storage s.disk)

  -- A Save that returns no error leaves a file from which a new process restores every metric, if
  -- the file can be read. The storage it saved is untouched.
  abbrev pub Restores : FileBackedStorage Text → FileBackedStorage Text → Type 0
  Restores t s = ((restart t).0 ≡ none) × (file_view (restart t).1 ≡ file_view s) × (t.mem ≡ s.mem)

  restart-written :
      (laws : JsonLaws json) (s : FileBackedStorage Text) (text : Text)
      → IsValid s.mem
      → json.marshal_list (snapshot s.mem) ≡ ok text
      → s.disk.read_fault ≡ none
      → Restores (record s { disk = record s.disk { file = some text } }) s
  unfolding load read_file
  restart-written laws s text valid written readable =
      let parsed = laws.unmarshal-marshal (snapshot s.mem) text written in
      let same : view (load_metrics (snapshot s.mem) new_mem_storage) ≡ view s.mem =
        ap view (load_metrics-eq-apply_metrics (snapshot s.mem) new_mem_storage)
        ∙ view-apply_metrics-snapshot s.mem valid in
      rw (readable, parsed) (refl, same, refl)

  -- What a Save without an error has done.
  save_done :
      (s : FileBackedStorage Text)
      → (save json s).0 ≡ none
      → (text : Text) × (json.marshal_list (snapshot s.mem) ≡ ok text)
        × ((save json s).1 ≡ record s { disk = record s.disk { file = some text } })
  unfolding save write_file
  save_done s saved = elim (Result-cases (json.marshal_list (snapshot s.mem))) [
    | inl (e, refused) ↦ absurd (ground arith)
    | inr (text, written) ↦ (text, written, ground arith)
  ]

  -- When Save ends without an error on a valid storage and the file can be read, a new process that
  -- loads the file holds exactly the gauges and the counters that were saved.
  pub restart-save :
      JsonLaws json
      → (s : FileBackedStorage Text) → IsValid s.mem
      → (save json s).0 ≡ none
      → s.disk.read_fault ≡ none
      → Restores (save json s).1 s
  restart-save laws s valid saved readable =
      let (text, written, done) = save_done s saved in
      rw done (restart-written laws s text valid written readable)

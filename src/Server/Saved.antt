-- ===== src/Server/Saved.antt =====
-- What Load and SaveOnUpdate leave in memory and on the disk.
use mathlib.Core.Path.{subst}
use go_yandex_practicum_metr.Prelude.{
  Bool, true, false, Option, none, some, List, [], ◌≡◌, ◌∙◌, refl, sym, ap, arith,
}
use go_yandex_practicum_metr.GoError.{GoError, Result, ok, err}
use go_yandex_practicum_metr.Model.{Metrics}
use go_yandex_practicum_metr.Repository.Json.{Json, JsonLaws, has_unsupported}
use go_yandex_practicum_metr.Repository.Memory.{new_mem_storage, snapshot}
use go_yandex_practicum_metr.Repository.Memory.Valid.{
  IsValid, new_mem_storage-IsValid, apply_metrics-IsValid,
}
use go_yandex_practicum_metr.Repository.File.{
  Disk, FileBackedStorage, new_file_backed_storage, load, load_metrics, save, save_on_update,
  log_failure, read_file, write_file, FileRead, contents, not_exist, failed,
}
use go_yandex_practicum_metr.Repository.File.Recovery.{
  file_view, restart, restart-save, load_metrics-eq-apply_metrics,
}
use go_yandex_practicum_metr.Server.{open_file}

module _ {Text : Type 0} (json : Json Text) (laws : JsonLaws json) where
  -- A server that starts on the disk as it is would show the same metrics, unless they hold a gauge
  -- that has no JSON text.
  abbrev pub IsCovered : FileBackedStorage Text → Type 0
  IsCovered s =
      IsValid s.mem
      × (s.disk.read_fault ≡ none)
      × (s.disk.write_fault ≡ none)
      × (has_unsupported (snapshot s.mem) ≡ false
          → file_view (open_file json true s.disk) ≡ file_view s)

  load_metrics-IsValid : (ms : List Metrics) → IsValid (load_metrics ms new_mem_storage)
  load_metrics-IsValid ms =
      subst IsValid (sym (load_metrics-eq-apply_metrics ms new_mem_storage))
        (apply_metrics-IsValid ms new_mem_storage new_mem_storage-IsValid)

  -- What Load leaves: the disk as it was, and a valid memory.
  load-IsValid :
      (disk : Disk Text)
      → IsValid (load json (new_file_backed_storage disk)).1.mem
        × ((load json (new_file_backed_storage disk)).1.disk ≡ disk)
  unfolding load
  load-IsValid disk = by_read (read_file disk)
    where
      by_list :
          (r : Result (List Metrics))
          → let after =
              (elim r as (λ _. Option GoError × FileBackedStorage Text) [
                | err e ↦ (some e, new_file_backed_storage disk)
                | ok metrics ↦ (
                  none,
                  record { mem = load_metrics metrics new_mem_storage; disk = disk; logged = [] },
                )
              ]).1 in
            IsValid after.mem × (after.disk ≡ disk)
      by_list (err e) = (new_mem_storage-IsValid, refl)
      by_list (ok metrics) = (load_metrics-IsValid metrics, refl)

      by_read :
          (r : FileRead Text)
          → let after =
              (elim r as (λ _. Option GoError × FileBackedStorage Text) [
                | not_exist ↦ (none, new_file_backed_storage disk)
                | failed e ↦ (some e, new_file_backed_storage disk)
                | contents text ↦ elim (json.unmarshal_list text) [
                  | err e ↦ (some e, new_file_backed_storage disk)
                  | ok metrics ↦ (
                    none,
                    record { mem = load_metrics metrics new_mem_storage; disk = disk; logged = [] },
                  )
                ]
              ]).1 in
            IsValid after.mem × (after.disk ≡ disk)
      by_read not_exist = (new_mem_storage-IsValid, refl)
      by_read (failed e) = (new_mem_storage-IsValid, refl)
      by_read (contents text) = by_list (json.unmarshal_list text)

  pub open_file-IsCovered :
      (disk : Disk Text)
      → disk.read_fault ≡ none
      → disk.write_fault ≡ none
      → IsCovered (open_file json true disk)
  unfolding open_file
  open_file-IsCovered disk readable writable =
      let (valid, same) = load-IsValid disk in
      (
        valid,
        ap (λ d. d.read_fault) same ∙ readable,
        ap (λ d. d.write_fault) same ∙ writable,
        λ finite. ap (λ d. file_view (open_file json true d)) same,
      )

  -- A server that does not restore its file starts with an empty memory.
  pub open_file_sound :
      (restore : Bool) (disk : Disk Text)
      → disk.read_fault ≡ none
      → disk.write_fault ≡ none
      → let s = open_file json restore disk in
        IsValid s.mem × (s.disk.read_fault ≡ none) × (s.disk.write_fault ≡ none)
  unfolding open_file
  open_file_sound true disk readable writable =
      let (valid, same) = load-IsValid disk in
      (valid, ap (λ d. d.read_fault) same ∙ readable, ap (λ d. d.write_fault) same ∙ writable)
  open_file_sound false disk readable writable = (new_mem_storage-IsValid, readable, writable)

  abbrev pub written_to : FileBackedStorage Text → Text → FileBackedStorage Text
  written_to t text = record t { disk = record t.disk { file = some text } }

  pub save-writes :
      (t : FileBackedStorage Text) (text : Text)
      → json.marshal_list (snapshot t.mem) ≡ ok text
      → t.disk.write_fault ≡ none
      → save json t ≡ (none, written_to t text)
  unfolding save write_file
  save-writes t text written writable = ground arith

  save_on_update-shows :
      (t : FileBackedStorage Text)
      → IsValid t.mem
      → t.disk.read_fault ≡ none
      → t.disk.write_fault ≡ none
      → has_unsupported (snapshot t.mem) ≡ false
      → file_view (open_file json true (save_on_update json t).disk)
        ≡ file_view (save_on_update json t)
  unfolding open_file save_on_update
  save_on_update-shows t valid readable writable finite =
      let (text, written) = laws.marshal_supported (snapshot t.mem) finite in
      let saved = save-writes t text written writable in
      let (loaded, same, kept) = restart-save json laws t valid (ap (λ r. r.0) saved) readable in
      let done : save_on_update json t ≡ written_to t text =
        ap (log_failure json "sync save failed") saved in
      subst (λ u. file_view (open_file json true u.disk) ≡ file_view u) (sym done)
        (sym (ap (λ r. file_view (restart json r.1).1) saved) ∙ same)

  pub save_on_update-mem : (t : FileBackedStorage Text) → (save_on_update json t).mem ≡ t.mem
  unfolding save_on_update save
  save_on_update-mem t = ground arith

  pub save_on_update-IsSound :
      (t : FileBackedStorage Text)
      → IsValid t.mem
      → t.disk.read_fault ≡ none
      → t.disk.write_fault ≡ none
      → let s = save_on_update json t in
        IsValid s.mem × (s.disk.read_fault ≡ none) × (s.disk.write_fault ≡ none)
  unfolding save_on_update save write_file
  save_on_update-IsSound t valid readable writable =
      let mem : (save_on_update json t).mem ≡ t.mem = ground arith in
      let read : (save_on_update json t).disk.read_fault ≡ t.disk.read_fault = ground arith in
      let write : (save_on_update json t).disk.write_fault ≡ t.disk.write_fault = ground arith in
      (subst IsValid (sym mem) valid, read ∙ readable, write ∙ writable)

  pub save_on_update-IsCovered :
      (t : FileBackedStorage Text)
      → IsValid t.mem
      → t.disk.read_fault ≡ none
      → t.disk.write_fault ≡ none
      → IsCovered (save_on_update json t)
  save_on_update-IsCovered t valid readable writable =
      let (ok_mem, read, write) = save_on_update-IsSound t valid readable writable in
      (
        ok_mem,
        read,
        write,
        λ finite.
            save_on_update-shows t valid readable writable
              (subst (λ m. has_unsupported (snapshot m) ≡ false) (save_on_update-mem t) finite),
      )

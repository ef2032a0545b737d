-- ===== src/Server/Shutdown.antt =====
-- A server that shuts down in order loses nothing, whenever it saves.
use mathlib.Core.Path.{subst}
use go_yandex_practicum_metr.Prelude.{
  arith, Bool, true, false, eqb, Option, none, some, List, [], ◌∷◌, ◌≡◌, ◌≢◌, ◌⊎◌, inl, inr, ◌∙◌,
  refl, sym, ap, if◌then◌else◌,
}
use go_yandex_practicum_metr.GoError.{GoError, Result, err}
use go_yandex_practicum_metr.FloatText.{FloatText}
use go_yandex_practicum_metr.Retry.{RetryLib}
use go_yandex_practicum_metr.Repository.Json.{Json, JsonLaws}
use go_yandex_practicum_metr.Repository.Memory.{snapshot}
use go_yandex_practicum_metr.Repository.Memory.Valid.{IsValid}
use go_yandex_practicum_metr.Repository.File.{Disk, FileBackedStorage, save_on_update}
use go_yandex_practicum_metr.Repository.File.Recovery.{file_view}
use go_yandex_practicum_metr.Repository.Database.{Database, PgLib}
use go_yandex_practicum_metr.Service.{new_metric_service, set_on_update, notify_update}
use go_yandex_practicum_metr.Config.Server.{ServerConfig}
use go_yandex_practicum_metr.Server.{
  Backend, in_file, backend_storage, open_file, open_storage, save_backend, open_service,
  apply_update,
}
use go_yandex_practicum_metr.Server.Updates.{IsSaved, apply_update-IsSaved}
use go_yandex_practicum_metr.Server.Updates.{the_service}
use go_yandex_practicum_metr.Server.Saved.{
  save-writes, written_to, open_file_sound, save_on_update-IsSound,
}
use go_yandex_practicum_metr.Server.Durability.{HasFiniteGauges, opens-in_file}
use go_yandex_practicum_metr.Server.{Action, asked, ticked, serve, tick, shut_down, is_positive}
use go_yandex_practicum_metr.Repository.File.{periodic_save, close, save, write_file}
use go_yandex_practicum_metr.Repository.File.Recovery.{restart, restart-save}

-- A valid memory, and a disk without faults.
abbrev pub IsSound : {Text : Type 0} → FileBackedStorage Text → Type 0
IsSound s = IsValid s.mem × (s.disk.read_fault ≡ none) × (s.disk.write_fault ≡ none)

module _ {Text : Type 0} (json : Json Text) (laws : JsonLaws json) where
  periodic_save-IsSound : (t : FileBackedStorage Text) → IsSound t → IsSound (periodic_save json t)
  unfolding periodic_save save write_file
  periodic_save-IsSound t (valid, readable, writable) =
      let mem : (periodic_save json t).mem ≡ t.mem = ground arith in
      let read : (periodic_save json t).disk.read_fault ≡ t.disk.read_fault = ground arith in
      let write : (periodic_save json t).disk.write_fault ≡ t.disk.write_fault = ground arith in
      (subst IsValid (sym mem) valid, read ∙ readable, write ∙ writable)

  tick-IsSound :
      (cfg : ServerConfig) (s : FileBackedStorage Text)
      → IsSound s
      → (t : FileBackedStorage Text) × (tick json cfg (in_file s) ≡ in_file t) × IsSound t
  unfolding tick
  tick-IsSound cfg s sound = by_test (is_positive cfg.store_interval)
    where
      by_test :
          (b : Bool)
          → (t : FileBackedStorage Text) × ((if b
                then in_file (periodic_save json s)
                else in_file s)
              ≡ in_file t)
            × IsSound t
      by_test true = (periodic_save json s, refl, periodic_save-IsSound s sound)
      by_test false = (s, refl, sound)

  module _ (retry : RetryLib) (pg : PgLib) (ft : FloatText) (cfg : ServerConfig) where
    module _ (g : FileBackedStorage Text → FileBackedStorage Text)
        (o : Option (Backend Text → Backend Text))
        (notified : (t : FileBackedStorage Text)
          → notify_update (the_service g retry pg ft o) (in_file t) ≡ in_file (g t))
        (keeps : (t : FileBackedStorage Text) → IsSound t → IsSound (g t)) where
      IsSaved-IsSound :
          (s : FileBackedStorage Text) (r : Option GoError × Backend Text)
          → IsSound s
          → IsSaved g s r
          → (t : FileBackedStorage Text) × (r.1 ≡ in_file t) × IsSound t
      IsSaved-IsSound s r sound (inl same) = (s, same, sound)
      IsSaved-IsSound s r (valid, readable, writable) (inr (mem, ok_mem, done)) = (
        g (record s { mem = mem }),
        done,
        keeps (record s { mem = mem }) (ok_mem, readable, writable),
      )

      serve-IsSound :
          (acts : List Action) (s : FileBackedStorage Text)
          → IsSound s
          → (t : FileBackedStorage Text) × (serve json cfg
                (the_service g retry pg ft o)
                ft
                acts
                (in_file s)
              ≡ in_file t)
            × IsSound t
      unfolding serve
      serve-IsSound [] s sound = (s, refl, sound)
      serve-IsSound (asked u ∷ acts) s sound =
          let (t, done, next) =
            IsSaved-IsSound s (apply_update (the_service g retry pg ft o) ft u (in_file s)) sound
              (apply_update-IsSaved g retry pg ft o notified u s sound.0) in
          let (v, ran, last) = serve-IsSound acts t next in
          (v, ap (serve json cfg (the_service g retry pg ft o) ft acts) done ∙ ran, last)
      serve-IsSound (ticked ∷ acts) s sound =
          let (t, done, next) = tick-IsSound cfg s sound in
          let (v, ran, last) = serve-IsSound acts t next in
          (v, ap (serve json cfg (the_service g retry pg ft o) ft acts) done ∙ ran, last)

    open_service-IsSound :
        (acts : List Action) (s : FileBackedStorage Text)
        → IsSound s
        → (t : FileBackedStorage Text) × (serve json cfg
              (open_service json retry pg ft cfg (in_file s))
              ft
              acts
              (in_file s)
            ≡ in_file t)
          × IsSound t
    unfolding open_service
    open_service-IsSound acts s sound = by_test (eqb cfg.store_interval 0)
      where
        by_test :
            (b : Bool)
            → (t : FileBackedStorage Text) × (serve json cfg
                  (if b
                    then set_on_update
                        (save_backend json)
                        (new_metric_service (backend_storage retry pg ft))
                    else new_metric_service (backend_storage retry pg ft))
                  ft
                  acts
                  (in_file s)
                ≡ in_file t)
              × IsSound t
        by_test true =
            serve-IsSound (save_on_update json) (some (save_backend json))
              (λ t. unfold notify_update in refl)
              (λ t h. save_on_update-IsSound json laws t h.0 h.1 h.2) acts s sound
        by_test false =
            serve-IsSound (λ t. t) none (λ t. unfold notify_update in refl) (λ t h. h) acts s sound

    -- A server with a storage in a file (no database that answers), which may or may not restore it,
    -- may run any updates and ticks, at any interval of saving, and shut down in order: if the disk
    -- has no faults and no gauge is NaN or infinite at the end, the last save succeeds, and the next
    -- server that keeps its metrics in that file and restores it, whatever its other settings, shows
    -- what this one showed last.
    pub serve-shut_down :
        (connected : Result Database) (disk : Disk Text) (acts : List Action)
        (next_cfg : ServerConfig) (next_connected : Result Database)
        → (cfg.database_dsn ≡ "") ⊎ ((e : GoError) × (connected ≡ err e))
        → cfg.file_storage_path ≢ ""
        → disk.read_fault ≡ none
        → disk.write_fault ≡ none
        → (next_cfg.database_dsn ≡ "") ⊎ ((e : GoError) × (next_connected ≡ err e))
        → next_cfg.file_storage_path ≡ cfg.file_storage_path
        → next_cfg.restore ≡ true
        → HasFiniteGauges (
            serve json cfg
              (open_service json retry pg ft cfg (open_storage json cfg connected disk))
              ft
              acts
              (open_storage json cfg connected disk))
        → (last stopped next : FileBackedStorage Text) × (serve json cfg
              (open_service json retry pg ft cfg (open_storage json cfg connected disk))
              ft
              acts
              (open_storage json cfg connected disk)
            ≡ in_file last)
          × (shut_down json (in_file last) ≡ (none, in_file stopped))
          × (open_storage json next_cfg next_connected stopped.disk ≡ in_file next)
          × (file_view next ≡ file_view last)
    unfolding shut_down close open_file
    serve-shut_down connected disk acts next_cfg next_connected no_db path readable writable next_db
          same_path restores finite =
        let started = opens-in_file json laws retry pg ft cfg connected no_db path in
        let next_path : next_cfg.file_storage_path ≢ "" = λ empty. path (sym same_path ∙ empty) in
        let next_started =
          opens-in_file json laws retry pg ft next_cfg next_connected next_db next_path in
        let (last, ran, (valid, can_read, can_write)) =
          open_service-IsSound acts (open_file json cfg.restore disk)
            (open_file_sound json laws cfg.restore disk readable writable) in
        let done =
          ap (λ b. serve json cfg (open_service json retry pg ft cfg b) ft acts b) (started disk)
          ∙ ran in
        let (text, marshalled) =
          laws.marshal_supported (snapshot last.mem) (subst HasFiniteGauges done finite) in
        let saved = save-writes json laws last text marshalled can_write in
        let (loaded, same, kept) =
          restart-save json laws last valid (ap (λ r. r.0) saved) can_read in
        (
          last,
          written_to json laws last text,
          open_file json true (written_to json laws last text).disk,
          done,
          ap (λ r. (r.0, in_file r.1)) saved,
          next_started (written_to json laws last text).disk
              ∙ ap (λ r. in_file (open_file json r (written_to json laws last text).disk)) restores,
          sym (ap (λ r. file_view (restart json r.1).1) saved) ∙ same,
        )

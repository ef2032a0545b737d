-- ===== src/Server/Durability.antt =====
-- A server that saves its metrics on every update survives a crash at any moment between updates.
use mathlib.Core.Path.{subst}
use go_yandex_practicum_metr.Prelude.{
  ◌==◌, eq_iff, Bool, true, false, eqb, Option, none, some, List, [], ◌∷◌, ◌≡◌, ◌≢◌, ◌⊎◌, inl, inr,
  ◌∙◌, refl, sym, ap, if◌then◌else◌,
}
use go_yandex_practicum_metr.GoError.{GoError, Result, ok, err}
use go_yandex_practicum_metr.FloatText.{FloatText}
use go_yandex_practicum_metr.Retry.{RetryLib}
use go_yandex_practicum_metr.Repository.Json.{Json, JsonLaws, has_unsupported}
use go_yandex_practicum_metr.Repository.Memory.{new_mem_storage, snapshot}
use go_yandex_practicum_metr.Repository.File.{Disk, FileBackedStorage, save_on_update}
use go_yandex_practicum_metr.Repository.File.Recovery.{file_view}
use go_yandex_practicum_metr.Repository.Database.{Database, PgLib}
use go_yandex_practicum_metr.Service.{
  MetricService, new_metric_service, set_on_update, notify_update,
}
use go_yandex_practicum_metr.Config.Server.{ServerConfig}
use go_yandex_practicum_metr.Server.{
  Backend, in_database, in_file, in_memory, backend_storage, open_file, open_storage, save_backend,
  open_service, Update, apply_update, apply_updates, file_or_memory,
}
use go_yandex_practicum_metr.Server.Saved.{IsCovered, open_file-IsCovered, save_on_update-IsCovered}
use go_yandex_practicum_metr.Server.Updates.{IsSaved, apply_update-IsSaved}

-- Every gauge has a JSON text.
abbrev pub HasFiniteGauges : {Text : Type 0} → Backend Text → Type 0
HasFiniteGauges (in_database db) = Unit
HasFiniteGauges (in_file s) = has_unsupported (snapshot s.mem) ≡ false
HasFiniteGauges (in_memory s) = has_unsupported (snapshot s) ≡ false

module _ {Text : Type 0} (json : Json Text) (laws : JsonLaws json) where
  module _ (retry : RetryLib) (pg : PgLib) (ft : FloatText) where
    abbrev sync_service : MetricService (Backend Text)
    sync_service =
        set_on_update (save_backend json) (new_metric_service (backend_storage retry pg ft))

    sync_service-notified :
        (t : FileBackedStorage Text)
        → notify_update sync_service (in_file t) ≡ in_file (save_on_update json t)
    unfolding notify_update
    sync_service-notified t = refl

    -- One update keeps the promise of the file: it is kept for a memory that has a JSON text.
    IsSaved-IsCovered :
        (s : FileBackedStorage Text) (r : Option GoError × Backend Text)
        → IsCovered json laws s
        → IsSaved (save_on_update json) s r
        → (t : FileBackedStorage Text) × (r.1 ≡ in_file t) × IsCovered json laws t
    IsSaved-IsCovered s r covered (inl same) = (s, same, covered)
    IsSaved-IsCovered s r (valid, readable, writable, shown) (inr (mem, ok_mem, done)) =
        let t : FileBackedStorage Text = record s { mem = mem } in
        (save_on_update json t, done, save_on_update-IsCovered json laws t ok_mem readable writable)

    apply_updates-IsCovered :
        (us : List Update) (s : FileBackedStorage Text)
        → IsCovered json laws s
        → (t : FileBackedStorage Text) × (apply_updates sync_service ft us (in_file s) ≡ in_file t)
          × IsCovered json laws t
    unfolding apply_updates
    apply_updates-IsCovered [] s covered = (s, refl, covered)
    apply_updates-IsCovered (u ∷ us) s covered =
        let (t, done, next) =
          IsSaved-IsCovered s (apply_update sync_service ft u (in_file s)) covered (
            apply_update-IsSaved (save_on_update json) retry pg ft (some (save_backend json))
              sync_service-notified u s covered.0) in
        let (v, ran, last) = apply_updates-IsCovered us t next in
        (v, ap (apply_updates sync_service ft us) done ∙ ran, last)

    pub opens-in_file :
        (cfg : ServerConfig) (connected : Result Database)
        → (cfg.database_dsn ≡ "") ⊎ ((e : GoError) × (connected ≡ err e))
        → cfg.file_storage_path ≢ ""
        → (disk : Disk Text)
        → open_storage json cfg connected disk ≡ in_file (open_file json cfg.restore disk)
    unfolding open_storage
    opens-in_file cfg connected no_db path disk =
        by_test (cfg.database_dsn == "") connected refl no_db
        ∙ by_path (cfg.file_storage_path == "") refl
      where
        by_test :
            (b : Bool) (c : Result Database)
            → (cfg.database_dsn == "") ≡ b
            → (cfg.database_dsn ≡ "") ⊎ ((e : GoError) × (c ≡ err e))
            → (if b
                then file_or_memory json cfg disk
                else elim c [ ok db ↦ in_database db | err e ↦ file_or_memory json cfg disk ])
              ≡ file_or_memory json cfg disk
        by_test true c e h = refl
        by_test false (err x) e h = refl
        by_test false (ok db) e (inl empty) =
            let clash : false ≡ true = sym e ∙ (eq_iff cfg.database_dsn "").1 empty in cc
        by_test false (ok db) e (inr (x, broken)) = cc

        by_path :
            (b : Bool)
            → (cfg.file_storage_path == "") ≡ b
            → (if b then in_memory new_mem_storage else in_file (open_file json cfg.restore disk))
              ≡ in_file (open_file json cfg.restore disk)
        by_path true e = absurd (path ((eq_iff cfg.file_storage_path "").0 e))
        by_path false e = refl

    open_service-sync :
        (cfg : ServerConfig) (s : FileBackedStorage Text)
        → cfg.store_interval ≡ 0
        → open_service json retry pg ft cfg (in_file s) ≡ sync_service
    unfolding open_service
    open_service-sync cfg s sync =
        ap (λ n. if eqb n 0 then sync_service else new_metric_service (backend_storage retry pg ft))
          sync

    -- A server with a storage in a file (no database that answers), which restores it and saves it
    -- on every update, may stop without notice after any updates, whatever gauges were NaN or
    -- infinite on the way: if the disk has no faults and no gauge is NaN or infinite when it stops,
    -- the next server that starts on that disk shows the same metrics.
    pub apply_updates-survive :
        (cfg : ServerConfig) (connected : Result Database) (disk : Disk Text) (us : List Update)
        → (cfg.database_dsn ≡ "") ⊎ ((e : GoError) × (connected ≡ err e))
        → cfg.file_storage_path ≢ ""
        → cfg.restore ≡ true
        → cfg.store_interval ≡ 0
        → disk.read_fault ≡ none
        → disk.write_fault ≡ none
        → HasFiniteGauges (
            apply_updates
              (open_service json retry pg ft cfg (open_storage json cfg connected disk))
              ft
              us
              (open_storage json cfg connected disk))
        → (s t : FileBackedStorage Text) × (apply_updates
              (open_service json retry pg ft cfg (open_storage json cfg connected disk))
              ft
              us
              (open_storage json cfg connected disk)
            ≡ in_file s)
          × (open_storage json cfg connected s.disk ≡ in_file t)
          × (file_view t ≡ file_view s)
    apply_updates-survive cfg connected disk us no_db path restores sync readable writable finite =
        let started : (d : Disk Text)
            → open_storage json cfg connected d ≡ in_file (open_file json true d) =
          λ d.
            opens-in_file cfg connected no_db path d
            ∙ ap (λ r. in_file (open_file json r d)) restores in
        let (s, ran, covered) =
          apply_updates-IsCovered us (open_file json true disk)
            (open_file-IsCovered json laws disk readable writable) in
        let done =
          ap (λ b. apply_updates (open_service json retry pg ft cfg b) ft us b) (started disk)
          ∙ ap (λ svc. apply_updates svc ft us (in_file (open_file json true disk)))
              (open_service-sync cfg (open_file json true disk) sync)
          ∙ ran in
        (
          s,
          open_file json true s.disk,
          done,
          started s.disk,
          covered.3 (subst HasFiniteGauges done finite),
        )

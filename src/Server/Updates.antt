-- ===== src/Server/Updates.antt =====
-- What an update of the service does to a storage in a file, with or without a callback.
use go_yandex_practicum_metr.Prelude.{
  String, ◌==◌, Bool, true, false, Option, none, some, List, [], ◌∷◌, ◌≡◌, ◌⊎◌, inl, inr, refl,
  if◌then◌else◌,
}
use go_yandex_practicum_metr.GoError.{GoError, Result, ok, err}
use go_yandex_practicum_metr.Model.{Metrics, Float64, gauge_type, counter_type}
use go_yandex_practicum_metr.Int64.{Int64, parse_int}
use go_yandex_practicum_metr.FloatText.{FloatText}
use go_yandex_practicum_metr.Retry.{RetryLib}
use go_yandex_practicum_metr.Repository.Memory.{
  MemStorage, new_mem_storage, snapshot, store_gauge, bump_counter, apply_metrics,
}
use go_yandex_practicum_metr.Repository.Memory.Valid.{
  IsValid, store_gauge-IsValid, bump_counter-IsValid, apply_metrics-IsValid,
}
use go_yandex_practicum_metr.Repository.File.{FileBackedStorage}
use go_yandex_practicum_metr.Repository.Database.{PgLib}
use go_yandex_practicum_metr.Service
use go_yandex_practicum_metr.Repository.Memory
use go_yandex_practicum_metr.Service.{
  MetricService, new_metric_service, set_on_update, notify_update, notify_if_done, update_metric,
  update_metric_from_model,
}
use go_yandex_practicum_metr.Server.{
  Backend, in_file, backend_storage, Update, by_text, by_model, by_batch, apply_update,
}

module _ {Text : Type 0} (g : FileBackedStorage Text → FileBackedStorage Text) where
  -- Nothing, or a new valid memory and what the callback then does.
  abbrev pub IsSaved : FileBackedStorage Text → Option GoError × Backend Text → Type 0
  IsSaved s r =
      (r.1 ≡ in_file s)
      ⊎ ((mem : MemStorage) × IsValid mem × (r.1 ≡ in_file (g (record s { mem = mem }))))

  module _ (retry : RetryLib) (pg : PgLib) (ft : FloatText)
      (o : Option (Backend Text → Backend Text)) where
    abbrev pub the_service : MetricService (Backend Text)
    the_service = record { storage = backend_storage retry pg ft; on_update = o }

    module _
        (notified : (t : FileBackedStorage Text)
          → notify_update the_service (in_file t) ≡ in_file (g t)) where
      gauge-IsSaved :
          (h : GoError → GoError) (n : String) (v : Float64) (s : FileBackedStorage Text)
          → IsValid s.mem
          → IsSaved s
              (notify_if_done the_service h (the_service.storage.update_gauge n v (in_file s)))
      unfolding notify_if_done Memory.update_gauge
      gauge-IsSaved h n v s valid =
          inr (store_gauge n v s.mem, store_gauge-IsValid n v valid, notified _)

      counter-IsSaved :
          (h : GoError → GoError) (n : String) (d : Int64) (s : FileBackedStorage Text)
          → IsValid s.mem
          → IsSaved s
              (notify_if_done the_service h (the_service.storage.update_counter n d (in_file s)))
      unfolding notify_if_done Memory.update_counter
      counter-IsSaved h n d s valid =
          inr (bump_counter n d s.mem, bump_counter-IsValid n d valid, notified _)

      batch-IsSaved :
          (ms : List Metrics) (s : FileBackedStorage Text)
          → IsValid s.mem
          → IsSaved s (Service.update_batch the_service ms (in_file s))
      unfolding Service.update_batch notify_if_done Memory.update_batch
      batch-IsSaved [] s valid = inl refl
      batch-IsSaved (m ∷ ms) s valid =
          inr (apply_metrics (m ∷ ms) s.mem, apply_metrics-IsValid (m ∷ ms) s.mem valid, notified _)

      module _ (s : FileBackedStorage Text) where
        if-IsSaved :
            (b : Bool) (r t : Option GoError × Backend Text)
            → IsSaved s r
            → IsSaved s t
            → IsSaved s (if b then r else t)
        if-IsSaved true r t hr ht = hr
        if-IsSaved false r t hr ht = ht

        result-IsSaved :
            {A : Type 0} (x : Result A) (f : GoError → GoError)
            (g : A → Option GoError × Backend Text)
            → ((a : A) → IsSaved s (g a))
            → IsSaved s (elim x [ err e ↦ (some (f e), in_file s) | ok a ↦ g a ])
        result-IsSaved (err e) f g h = inl refl
        result-IsSaved (ok a) f g h = h a

        option-IsSaved :
            {A : Type 0} (x : Option A) (e : GoError) (g : A → Option GoError × Backend Text)
            → ((a : A) → IsSaved s (g a))
            → IsSaved s (elim x [ none ↦ (some e, in_file s) | some a ↦ g a ])
        option-IsSaved none e g h = inl refl
        option-IsSaved (some a) e g h = h a

      pub apply_update-IsSaved :
          (u : Update) (s : FileBackedStorage Text)
          → IsValid s.mem
          → IsSaved s (apply_update the_service ft u (in_file s))
      unfolding apply_update update_metric update_metric_from_model
      apply_update-IsSaved (by_text mtype name value) s valid =
          if-IsSaved s (mtype == gauge_type) _ _
            (result-IsSaved s (ft.parse_float value) _ _
              (λ v. gauge-IsSaved (λ e. e) name v s valid))
            (if-IsSaved s (mtype == counter_type) _ _
              (result-IsSaved s (parse_int value) _ _
                (λ d. counter-IsSaved (λ e. e) name d s valid))
              (inl refl))
      apply_update-IsSaved (by_model m) s valid =
          if-IsSaved s (m.mtype == gauge_type) _ _
            (option-IsSaved s m.value _ _ (λ v. gauge-IsSaved _ m.id v s valid))
            (if-IsSaved s (m.mtype == counter_type) _ _
              (option-IsSaved s m.delta _ _ (λ d. counter-IsSaved _ m.id d s valid)) (inl refl))
      apply_update-IsSaved (by_batch ms) s valid = batch-IsSaved ms s valid

-- ===== src/Repository/Database/Refines.antt =====
-- DBStorage against the specification of a storage.
use go_yandex_practicum_metr.Prelude.{String, none, some, ◌≡◌, ◌≢◌, List, [], refl}
use go_yandex_practicum_metr.FloatText.{FloatText}
use go_yandex_practicum_metr.Model.{Metrics, Float64}
use go_yandex_practicum_metr.Int64.{Int64}
use go_yandex_practicum_metr.Retry.{Outcome, RetryLib, RetryLaws}
use go_yandex_practicum_metr.Retry.Loop.{Ends, retry_do-Ends}
use go_yandex_practicum_metr.Repository.Restrict.{Keeps, restrict}
use go_yandex_practicum_metr.Repository.Spec.{View, IsStorage, apply_batch, set_gauge, add_counter}
use go_yandex_practicum_metr.Repository.Database.{
  Database, PgLib, update_gauge, update_counter, update_batch, get_metric, get_value,
  get_all_metrics, db_storage,
}
use go_yandex_practicum_metr.Repository.Database.Rows.{upsert_gauge, upsert_counter}
use go_yandex_practicum_metr.Repository.Database.Lookups.{
  upsert_gauge-HasEffect, upsert_counter-HasEffect,
}
use go_yandex_practicum_metr.Repository.Database.Statements.{
  IsSound, db_view, Shows, exec_context-Ends,
}
use go_yandex_practicum_metr.Repository.Database.Batches.{try_batch-Ends}
use go_yandex_practicum_metr.Repository.Database.Reads.{
  Reads, result-Reads, try_get-Ends, try_list-Ends,
}

-- The two outcomes of an update, read off what it ends in.
Ends-done :
    (v w : View) (r : Outcome Database) → Ends (Shows v) (Shows w) r → r.0 ≡ none → db_view r.1 ≡ w
Ends-done v w (none, db) (sound, is) e = is
Ends-done v w (some x, db) h e = cc

Ends-failed :
    (v w : View) (r : Outcome Database) → Ends (Shows v) (Shows w) r → r.0 ≢ none → db_view r.1 ≡ v
Ends-failed v w (none, db) h e = absurd (e refl)
Ends-failed v w (some x, db) (sound, is) e = is

Ends-IsSound :
    {S : Type 0}
    → (db_of : S → Database) (v w : View) (P Q : S → Type 0) (r : Outcome S)
    → ((s : S) → P s → Shows v (db_of s))
    → ((s : S) → Q s → Shows w (db_of s))
    → Ends P Q r
    → IsSound (db_of r.1)
Ends-IsSound db_of v w P Q (none, s) hp hq h = (hq s h).0
Ends-IsSound db_of v w P Q (some e, s) hp hq h = (hp s h).0

Ends-kept :
    {A : Type 0} (v : View) (r : Outcome (Database × A))
    → Ends (λ s. Shows v s.0) (λ s. Shows v s.0) r
    → Shows v r.1.0
Ends-kept v (none, s) h = h
Ends-kept v (some e, s) h = h

module _ (retry : RetryLib) (laws : RetryLaws retry) (pg : PgLib) where
  update_gauge-Ends :
      (n : String) (v : Float64) (db : Database)
      → IsSound db
      → Ends
          (Shows (db_view db))
          (Shows (set_gauge n v (db_view db)))
          (update_gauge retry pg n v db)
  unfolding update_gauge
  update_gauge-Ends n v db h =
      retry_do-Ends retry laws _ _ _ _
        (exec_context-Ends (upsert_gauge n v) (set_gauge n v) (db_view db)
          (upsert_gauge-HasEffect n v))
        db (h, refl)

  update_counter-Ends :
      (n : String) (d : Int64) (db : Database)
      → IsSound db
      → Ends
          (Shows (db_view db))
          (Shows (add_counter n d (db_view db)))
          (update_counter retry pg n d db)
  unfolding update_counter
  update_counter-Ends n d db h =
      retry_do-Ends retry laws _ _ _ _
        (exec_context-Ends (upsert_counter n d) (add_counter n d) (db_view db)
          (upsert_counter-HasEffect n d))
        db (h, refl)

  update_batch-Ends :
      (ms : List Metrics) (db : Database)
      → IsSound db
      → Ends
          (Shows (db_view db))
          (Shows (apply_batch ms (db_view db)))
          (update_batch retry pg ms db)
  unfolding update_batch
  update_batch-Ends ms db h =
      retry_do-Ends retry laws _ _ _ _ (try_batch-Ends ms (db_view db)) db (h, refl)

  get_metric-Reads :
      (n t : String) (db : Database)
      → IsSound db
      → Shows (db_view db) (get_metric retry pg n t db).1
        × Reads (db_view db) n t (get_metric retry pg n t db).0
  unfolding get_metric
  get_metric-Reads n t db h = result-Reads n t (db_view db) _ (
      retry_do-Ends retry laws _ _ _ _ (try_get-Ends n t (db_view db)) (db, none) ((h, refl), refl))

  module _ (ft : FloatText) where
    get_value-Shows :
        (t n : String) (db : Database)
        → IsSound db
        → Shows (db_view db) (get_value retry pg ft t n db).1
    unfolding get_value
    get_value-Shows t n db h = (get_metric-Reads n t db h).0

    get_all_metrics-Shows :
        (db : Database) → IsSound db → Shows (db_view db) (get_all_metrics retry pg ft db).1
    unfolding get_all_metrics
    get_all_metrics-Shows db h =
        Ends-kept (db_view db) _
          (retry_do-Ends retry laws _ _ _ _ (try_list-Ends ft (db_view db)) (db, []) (h, refl))

    pub db_storage-Keeps : Keeps (db_storage retry pg ft) IsSound
    db_storage-Keeps = record {
      keeps_gauge = λ n v db h.
          Ends-IsSound (λ s. s) _ _ _ _ _ (λ s x. x) (λ s x. x) (update_gauge-Ends n v db h);
      keeps_counter = λ n d db h.
          Ends-IsSound (λ s. s) _ _ _ _ _ (λ s x. x) (λ s x. x) (update_counter-Ends n d db h);
      keeps_batch = λ ms db h.
          Ends-IsSound (λ s. s) _ _ _ _ _ (λ s x. x) (λ s x. x) (update_batch-Ends ms db h);
      keeps_metric = λ n t db h. (get_metric-Reads n t db h).0.0;
      keeps_value = λ t n db h. (get_value-Shows t n db h).0;
      keeps_all = λ db h. (get_all_metrics-Shows db h).0;
    }

    -- DBStorage implements the specification of a storage wherever the table holds rows that the
    -- program writes and the connection loses no reply of a statement that the server executed,
    -- whatever else fails: with all retries, each update and each batch has its whole effect or an
    -- error and none, a metric that is found is the stored one, reads change no metric, and every
    -- operation keeps the rows in that form.
    pub db_storage-IsStorage :
        IsStorage (restrict (db_storage retry pg ft) IsSound db_storage-Keeps) (λ s. db_view s.0)
    db_storage-IsStorage = record {
      gauge_done = λ n v s e. Ends-done _ _ _ (update_gauge-Ends n v s.0 s.1) e;
      gauge_failed = λ n v s e. Ends-failed _ _ _ (update_gauge-Ends n v s.0 s.1) e;
      counter_done = λ n d s e. Ends-done _ _ _ (update_counter-Ends n d s.0 s.1) e;
      counter_failed = λ n d s e. Ends-failed _ _ _ (update_counter-Ends n d s.0 s.1) e;
      batch_done = λ ms s e. Ends-done _ _ _ (update_batch-Ends ms s.0 s.1) e;
      batch_failed = λ ms s e. Ends-failed _ _ _ (update_batch-Ends ms s.0 s.1) e;
      metric_found = λ n t s m e. (get_metric-Reads n t s.0 s.1).1 m e;
      metric_kept = λ n t s. (get_metric-Reads n t s.0 s.1).0.1;
      value_kept = λ t n s. (get_value-Shows t n s.0 s.1).1;
      all_kept = λ s. (get_all_metrics-Shows s.0 s.1).1;
    }

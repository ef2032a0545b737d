-- ===== src/Examples/Databases.antt =====
-- The retries and the storage in a database at concrete inputs.
use go_yandex_practicum_metr.Prelude.{
  ℕ, zero, suc, ◌≤◌, String, ◌==◌, Bool, true, ◌≡◌, refl, none, some, [], ◌∷◌, arith, inl, inr,
}
use go_yandex_practicum_metr.GoError.{GoError, pg_error, text}
use go_yandex_practicum_metr.Int64.{add}
use go_yandex_practicum_metr.Retry.{
  Outcome, RetryLib, RetryLaws, after_attempt, retry_do, do_with_delays,
}
use go_yandex_practicum_metr.Retry.Loop.{Ends, counted, retry_do-succeeds, retry_do-counted}
use go_yandex_practicum_metr.Repository.Spec.{IsStorage}
use go_yandex_practicum_metr.Repository.Restrict.{restrict}
use go_yandex_practicum_metr.Repository.Database.{
  Database, PgLib, refused, lost, is_retriable_pg_error, pg_code, update_gauge, update_counter,
  update_batch, db_storage, exec_metrics, tx_exec, try_batch, after_exec, commit,
}
use go_yandex_practicum_metr.Repository.Database.Connection.{Answers, up_failed}
use go_yandex_practicum_metr.Repository.Database.Rows.{
  Table, upsert_gauge, upsert_counter, put_gauge, put_counter, find_row, add_bigint,
}
use go_yandex_practicum_metr.Repository.Database.Views.{IsTable, counter_delta, table_view}
use go_yandex_practicum_metr.Repository.Database.Statements.{IsSound, db_view}
use go_yandex_practicum_metr.Repository.Database.Refines.{db_storage-Keeps, db_storage-IsStorage}
use go_yandex_practicum_metr.Repository.Database.Lost.{
  Sets, MaySet, update_gauge-Ends, update_counter-repeats, lost_replies,
}
use go_yandex_practicum_metr.Examples.Fixtures.{float_text, gauge_item, counter_item}

-- retry-go as a loop
unfoldable pub loop_run :
    {S : Type 0} → ℕ → (GoError → Bool) → (ℕ → ℕ) → (S → Outcome S) → S → Outcome S
loop_run zero p delay fn s = fn s
loop_run (suc n) p delay fn s = after_attempt n p (loop_run n p (λ k. delay (suc k)) fn) (fn s)

abbrev pub retry_lib : RetryLib
retry_lib = record { run = loop_run }

pub retry_lib-laws : RetryLaws retry_lib
unfolding loop_run
retry_lib-laws = record { run-suc = λ n p delay fn s. refl }

-- the class 08 of PostgreSQL, by its codes
abbrev connection_code : String → Bool
connection_code c = c == "08006"

abbrev pub pg_lib : PgLib
pg_lib = record { is_connection_exception = connection_code }

abbrev rows : Table
rows =
    record { id = "Alloc"; mtype = "gauge"; delta = none; value = some 3 }
    ∷ record { id = "PollCount"; mtype = "counter"; delta = some 40; value = none }
    ∷ []

rows-IsTable : IsTable rows
rows-IsTable = (inl (refl, refl, refl), (inr (refl, refl, refl), tt))

-- a call that fails as often as its state says
abbrev flaky : ℕ → Outcome ℕ
flaky zero = (none, 0)
flaky (suc n) = (some (pg_error "08006"), n)

db_storage-IsStorage_example :
    IsStorage
      (restrict
        (db_storage retry_lib pg_lib float_text)
        IsSound
        (db_storage-Keeps retry_lib retry_lib-laws pg_lib float_text))
      (λ s. db_view s.0)
db_storage-IsStorage_example = db_storage-IsStorage retry_lib retry_lib-laws pg_lib float_text

update_gauge-Ends_example :
    Ends (MaySet "Alloc" 7 (table_view rows)) (Sets "Alloc" 7 (table_view rows)) (
      update_gauge retry_lib pg_lib "Alloc" 7
        (record { table = rows; replies = lost 0 (pg_error "08006") ∷ [] }))
update_gauge-Ends_example =
    update_gauge-Ends retry_lib retry_lib-laws pg_lib "Alloc" 7
      (record { table = rows; replies = lost 0 (pg_error "08006") ∷ [] })

-- A batch whose first attempt is refused and whose second one is committed.
batch_retried :
    (update_batch retry_lib pg_lib
      (gauge_item ∷ counter_item ∷ [])
      (record { table = rows; replies = refused (pg_error "08006") ∷ [] })).0
    ≡ none
unfolding loop_run update_batch retry_do do_with_delays is_retriable_pg_error pg_code try_batch
    exec_metrics tx_exec after_exec commit upsert_gauge upsert_counter put_gauge put_counter
    find_row add_bigint add
batch_retried = refl

update_counter-repeats_example :
    (after : Database) × (update_counter retry_lib pg_lib "PollCount" 5
        (record { table = rows; replies = lost_replies (pg_error "08006" ∷ []) })
      ≡ (none, after))
    × (counter_delta "PollCount" after.table ≡ some 50)
unfolding is_retriable_pg_error pg_code counter_delta
update_counter-repeats_example =
    update_counter-repeats retry_lib retry_lib-laws pg_lib "PollCount" 5 (pg_error "08006" ∷ []) 40
      rows rows-IsTable (refl, tt) (omega arith) refl (omega arith)

retry_do-succeeds_example :
    retry_do retry_lib flaky (is_retriable_pg_error retry_lib pg_lib) 2 ≡ (none, 0)
unfolding is_retriable_pg_error pg_code
retry_do-succeeds_example =
    retry_do-succeeds retry_lib retry_lib-laws (is_retriable_pg_error retry_lib pg_lib) flaky 2 2 0
      (omega arith) (pg_error "08006", 1, refl, refl, (pg_error "08006", 0, refl, refl, refl))

retry_do-counted_example :
    ((retry_do retry_lib (counted flaky) (λ e. true) (7, 0)).0
      ≡ (retry_do retry_lib flaky (λ e. true) 7).0)
    × ((retry_do retry_lib (counted flaky) (λ e. true) (7, 0)).1.0
        ≡ (retry_do retry_lib flaky (λ e. true) 7).1)
    × (1 ≤ (retry_do retry_lib (counted flaky) (λ e. true) (7, 0)).1.1)
    × ((retry_do retry_lib (counted flaky) (λ e. true) (7, 0)).1.1 ≤ 4)
retry_do-counted_example = retry_do-counted retry_lib retry_lib-laws (λ e. true) flaky 7

-- Four calls, and the error of the last one.
gives_up : retry_do retry_lib flaky (λ e. true) 7 ≡ (some (pg_error "08006"), 3)
unfolding loop_run retry_do do_with_delays
gives_up = refl

-- A database that answers and cannot be migrated.
abbrev not_migrated : Answers
not_migrated = record {
  open_error = none;
  ping_error = none;
  source_error = none;
  driver_error = none;
  init_error = none;
  up = up_failed (text "dirty database");
}

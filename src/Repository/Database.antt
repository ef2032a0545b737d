-- ===== src/Repository/Database.antt =====
-- DBStorage of internal/repository/db.go over the table of migrations/sql/000001: what its SQL
-- statements do to the rows. The server and the connection answer by replies that the environment
-- chooses; the error classes of pgerrcode and the retries of retry-go are parameters.
pub mod Rows
pub mod Views
pub mod Lookups
pub mod Items
pub mod Statements
pub mod Batches
pub mod Reads
pub mod Refines
pub mod Lost
pub mod Connection
use Prim.Native.String
use go_yandex_practicum_metr.Prelude.{
  ℕ, ◌+◌, ◌%◌, ◌^◌, String, ◌==◌, Bool, true, false, not, ◌&&◌, leb, Option, none, some, List, [],
  ◌∷◌, take, if◌then◌else◌,
}
use go_yandex_practicum_metr.GoError.{GoError, text, sentinel, wrap, pg_error, url_error}
use go_yandex_practicum_metr.GoMap.{GoMap, insert}
use go_yandex_practicum_metr.Int64.{Int64, add, format_int}
use go_yandex_practicum_metr.Model.{Metrics, Float64, counter_type, gauge_type}
use go_yandex_practicum_metr.FloatText.{FloatText}
use go_yandex_practicum_metr.Retry.{Outcome, RetryLib, retry_do}
use go_yandex_practicum_metr.Repository.{Storage}
use Rows.{Row, Table, Change, upsert_gauge, upsert_counter, find_row}

-- How the next statement fares: it is executed and its reply arrives; it is not executed; or it is
-- executed and the connection fails after `n` rows of its reply.
pub data Reply : Type 0 where
  arrives : Reply
  refused : GoError → Reply
  lost : ℕ → GoError → Reply

pub record Database : Type 0 where
  pub table : Table
  pub replies : List Reply

abbrev next_reply : List Reply → Reply
next_reply [] = arrives
next_reply (r ∷ rs) = r

abbrev later_replies : List Reply → List Reply
later_replies [] = []
later_replies (r ∷ rs) = rs

-- The database with one reply used up.
abbrev pub spend : Database → Database
spend db = record db { replies = later_replies db.replies }

abbrev pub reply_of : Database → Reply
reply_of db = next_reply db.replies

-- numeric_value_out_of_range
abbrev pub out_of_range : GoError
out_of_range = pg_error "22003"

-- a statement that changes the table or fails in the server
abbrev pub changed : Option Table → Database → Outcome Database
changed none db = (some out_of_range, db)
changed (some t) db = (none, record db { table = t })

-- ExecContext outside a transaction
unfoldable pub exec_context : Change → Database → Outcome Database
exec_context change db = elim (reply_of db) [
  | arrives ↦ changed (change db.table) (spend db)
  | refused e ↦ (some e, spend db)
  | lost n e ↦ (some e, (changed (change db.table) (spend db)).1)
]

-- A transaction: the rows as it sees them, and the database.
abbrev pub Tx : Type 0
Tx = Table × Database

abbrev pub tx_changed : Option Table → Tx → Outcome Tx
tx_changed none tx = (some out_of_range, tx)
tx_changed (some t) (u, db) = (none, (t, db))

-- tx.ExecContext
unfoldable pub tx_exec : Change → Tx → Outcome Tx
tx_exec change (t, db) = elim (reply_of db) [
  | arrives ↦ tx_changed (change t) (t, spend db)
  | refused e ↦ (some e, (t, spend db))
  | lost n e ↦ (some e, (t, spend db))
]

-- `if err != nil { return fmt.Errorf("exec metric ...") }`, then the rest of the loop
unfoldable pub after_exec : String → (Tx → Outcome Tx) → Outcome Tx → Outcome Tx
after_exec id rest (none, tx) = rest tx
after_exec id rest (some e, tx) = (some (wrap (String.◌++◌ "exec metric " id) e), tx)

-- the loop of UpdateBatch; for another type `err` is still the nil of BeginTx
unfoldable pub exec_metrics : List Metrics → Tx → Outcome Tx
exec_metrics [] tx = (none, tx)
exec_metrics (m ∷ ms) tx =
    if m.mtype == gauge_type
    then elim m.value [
      | none ↦ exec_metrics ms tx
      | some v ↦ after_exec m.id (exec_metrics ms) (tx_exec (upsert_gauge m.id v) tx)
    ]
    else if m.mtype == counter_type
    then elim m.delta [
      | none ↦ exec_metrics ms tx
      | some d ↦ after_exec m.id (exec_metrics ms) (tx_exec (upsert_counter m.id d) tx)
    ]
    else exec_metrics ms tx

-- tx.Commit, or the deferred tx.Rollback where the loop has returned an error
unfoldable pub commit : Outcome Tx → Outcome Database
commit (some e, (t, db)) = (some e, db)
commit (none, (t, db)) = elim (reply_of db) [
  | arrives ↦ (none, record (spend db) { table = t })
  | refused e ↦ (some e, spend db)
  | lost n e ↦ (some e, record (spend db) { table = t })
]

-- one attempt of UpdateBatch
unfoldable pub try_batch : List Metrics → Database → Outcome Database
try_batch ms db = elim (reply_of db) [
  | arrives ↦ commit (exec_metrics ms (db.table, spend db))
  | refused e ↦ (some (wrap "begin tx" e), spend db)
  | lost n e ↦ (some (wrap "begin tx" e), spend db)
]

-- `errors.As(err, &pgErr)`, with its Code
unfoldable pub pg_code : GoError → Option String
pg_code (sentinel s) = none
pg_code (text m) = none
pg_code (wrap m e) = pg_code e
pg_code (pg_error code) = some code
pg_code (url_error timeout temporary) = none

-- pgerrcode.IsConnectionException
pub record PgLib : Type 0 where
  pub is_connection_exception : String → Bool

-- what a row becomes for a client
abbrev pub row_metric : Row → Metrics
row_metric r = record { id = r.id; mtype = r.mtype; delta = r.delta; value = r.value; hash = "" }

-- a row that is found is kept in `result`; no row is no error
abbrev pub found : Option Row → Option Metrics → Option Metrics
found none result = result
found (some r) result = some (row_metric r)

-- one attempt of GetMetric, on the database and the captured `result`
unfoldable pub try_get :
    String → String → Database × Option Metrics → Outcome (Database × Option Metrics)
try_get name mtype (db, result) = elim (reply_of db) [
  | arrives ↦ (none, (spend db, found (find_row name mtype db.table) result))
  | refused e ↦ (some e, (spend db, result))
  | lost n e ↦ (some e, (spend db, result))
]

-- `if err != nil || result == nil`
abbrev pub result_or_none : Outcome (Database × Option Metrics) → Option Metrics × Database
result_or_none (some e, (db, result)) = (none, db)
result_or_none (none, (db, result)) = (result, db)

module _ (ft : FloatText) where
  -- the loop of GetAllMetrics
  unfoldable pub list_rows : Table → GoMap String → GoMap String
  list_rows [] result = result
  list_rows (r ∷ rows) result =
      if r.mtype == gauge_type
      then elim r.value [
        | none ↦ list_rows rows result
        | some v ↦ list_rows rows (insert (String.◌++◌ "gauge/" r.id) (ft.format_g v) result)
      ]
      else if r.mtype == counter_type
      then elim r.delta [
        | none ↦ list_rows rows result
        | some d ↦ list_rows rows (insert (String.◌++◌ "counter/" r.id) (format_int d) result)
      ]
      else list_rows rows result

  -- one attempt of GetAllMetrics, on the database and the captured `result`
  unfoldable pub try_list : Database × GoMap String → Outcome (Database × GoMap String)
  try_list (db, result) = elim (reply_of db) [
    | arrives ↦ (none, (spend db, list_rows db.table []))
    | refused e ↦ (some e, (spend db, result))
    | lost n e ↦ (some e, (spend db, list_rows (take n db.table) []))
  ]

  -- the end of GetValue
  unfoldable pub value_of_metric : String → Option Metrics → Option String
  value_of_metric mtype none = none
  value_of_metric mtype (some m) =
      if mtype == gauge_type
      then elim m.value [ none ↦ none | some v ↦ some (ft.format_g v) ]
      else if mtype == counter_type
      then elim m.delta [ none ↦ none | some d ↦ some (format_int d) ]
      else none

module _ (retry : RetryLib) (pg : PgLib) where
  -- isRetriablePgError
  unfoldable pub is_retriable_pg_error : GoError → Bool
  is_retriable_pg_error e = elim (pg_code e) [
    | none ↦ false
    | some code ↦ pg.is_connection_exception code
  ]

  unfoldable pub update_gauge : String → Float64 → Database → Outcome Database
  update_gauge name value =
      retry_do retry (exec_context (upsert_gauge name value)) is_retriable_pg_error

  unfoldable pub update_counter : String → Int64 → Database → Outcome Database
  update_counter name value =
      retry_do retry (exec_context (upsert_counter name value)) is_retriable_pg_error

  unfoldable pub update_batch : List Metrics → Database → Outcome Database
  update_batch metrics = retry_do retry (try_batch metrics) is_retriable_pg_error

  -- name, then type
  unfoldable pub get_metric : String → String → Database → Option Metrics × Database
  get_metric name mtype db =
      result_or_none (retry_do retry (try_get name mtype) is_retriable_pg_error (db, none))

  module _ (ft : FloatText) where
    -- type, then name
    unfoldable pub get_value : String → String → Database → Option String × Database
    get_value mtype name db =
        let (m, after) = get_metric name mtype db in (value_of_metric ft mtype m, after)

    -- the error of the last attempt is dropped
    unfoldable pub get_all_metrics : Database → GoMap String × Database
    get_all_metrics db =
        let (e, (after, result)) = retry_do retry (try_list ft) is_retriable_pg_error (db, []) in
        (result, after)

    -- DBStorage as a `Storage`
    abbrev pub db_storage : Storage Database
    db_storage = record {
      update_gauge = update_gauge;
      update_counter = update_counter;
      update_batch = update_batch;
      get_metric = get_metric;
      get_value = get_value;
      get_all_metrics = get_all_metrics;
    }

-- Ping, by the reply alone
unfoldable pub ping : Database → Outcome Database
ping db = elim (reply_of db) [
  | arrives ↦ (none, spend db)
  | refused e ↦ (some e, spend db)
  | lost n e ↦ (some e, spend db)
]

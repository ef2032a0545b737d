-- ===== src/Handler.antt =====
-- MetricHandler of internal/handler/handler.go. A handler takes the request and the world (the
-- state behind the storage, the audit events that were dispatched, the lines that were logged) and
-- gives the response and the new world. The router, HTTP itself and the HTML template are not
-- modelled: a request brings its URL parameters, and the dashboard is the list of its rows.
pub mod Rows
pub mod Outcomes
pub mod ReadBack
pub mod Reads
pub mod Routes
pub mod Http
pub mod Dashboard
use go_yandex_practicum_metr.Prelude.{
  ℕ, String, ◌==◌, Bool, true, false, not, Option, none, some, List, [], ◌∷◌, ◌++◌, map, is_empty,
  if◌then◌else◌,
}
use text.Mathlib.Text.{is_lt}
use Prim.Native.String.{compare}
use go_yandex_practicum_metr.GoError.{
  GoError, Result, ok, err, is_error, metric_not_found, unknown_type, metric_name_empty,
  value_required, delta_required,
}
use go_yandex_practicum_metr.GoMap.{GoMap}
use go_yandex_practicum_metr.GoText.{trim_space, cut}
use go_yandex_practicum_metr.Model.{Metrics}
use go_yandex_practicum_metr.FloatText.{FloatText}
use go_yandex_practicum_metr.Repository.Json.{Json}
use go_yandex_practicum_metr.Service
use go_yandex_practicum_metr.Service.{MetricService}
pub use Rows.{MetricView, row_less}
unfoldable pub use Rows.{insert_row, sort_rows, rows_of}

-- audit.Event
pub record Event : Type 0 where
  pub ts : ℕ
  pub metrics : List String
  pub ip_address : String

-- MetricHandler: `pinger` is what the database answers, if there is one; `publisher` is whether an
-- audit publisher is configured.
pub record MetricHandler (S : Type 0) : Type 0 where
  pub svc : MetricService S
  pub pinger : Option (S → Option GoError)
  pub publisher : Bool

pub record Request (Text : Type 0) : Type 0 where
  -- chi.URLParam of "type", "name" and "value"
  pub url_type : String
  pub url_name : String
  pub url_value : String
  pub body : Text
  pub real_ip : String
  pub forwarded_for : String
  pub remote_addr : String
  -- time.Now().Unix() while the request is handled
  pub now : ℕ

pub data Body (Text : Type 0) : Type 0 where
  empty : Body Text
  message : String → Body Text
  -- `err.Error()`, and "invalid json: " in front of it
  error_text : GoError → Body Text
  invalid_json : GoError → Body Text
  plain : String → Body Text
  json_text : Text → Body Text
  page : List MetricView → Body Text

pub record Response (Text : Type 0) : Type 0 where
  pub status : ℕ
  pub body : Body Text

pub record World (S : Type 0) : Type 0 where
  pub store : S
  pub events : List Event
  pub log : List String

-- httpStatusForError
unfoldable pub http_status_for_error : GoError → ℕ
http_status_for_error e =
    if is_error e metric_not_found
    then 404
    else if is_error e unknown_type
    then 400
    else if is_error e metric_name_empty
    then 400
    else if is_error e value_required
    then 400
    else if is_error e delta_required
    then 400
    else 400

module _ {Text : Type 0} where
  abbrev pub respond : ℕ → Body Text → Response Text
  respond status body = record { status = status; body = body }

  -- clientIP; `split_host_port` is net.SplitHostPort, `none` for its error
  unfoldable pub client_ip : (String → Option String) → Request Text → String
  client_ip split_host_port r =
      let ip = trim_space r.real_ip in
      if not (ip == "")
      then ip
      else if not (r.forwarded_for == "")
      then elim (cut 44 r.forwarded_for) [
        | some (first, rest) ↦ trim_space first
        | none ↦ trim_space r.forwarded_for
      ]
      else elim (split_host_port r.remote_addr) [ none ↦ r.remote_addr | some host ↦ host ]

module _ {S Text : Type 0} (json : Json Text) (ft : FloatText)
    (split_host_port : String → Option String) (h : MetricHandler S) where
  unfoldable pub emit_audit : Request Text → List String → World S → World S
  emit_audit r metrics w =
      if h.publisher
      then record w {
        events =
            w.events
            ++ record { ts = r.now; metrics = metrics; ip_address = client_ip split_host_port r }
              ∷ [];
      }
      else w

  -- internalError
  unfoldable pub internal_error : String → World S → Response Text × World S
  internal_error msg w =
      (respond 500 (message "Internal Server Error"), record w { log = w.log ++ msg ∷ [] })

  -- Ping
  unfoldable pub ping : Request Text → World S → Response Text × World S
  ping r w = elim h.pinger [
    | none ↦ (respond 500 (message "database not configured"), w)
    | some answer ↦ elim (answer w.store) [
      | some e ↦ internal_error "db ping failed" w
      | none ↦ (respond 200 empty, w)
    ]
  ]

  -- the end of UpdateMetric
  unfoldable pub after_update_metric :
      Request Text → World S → Option GoError × S → Response Text × World S
  after_update_metric r w (some e, s) =
      (respond (http_status_for_error e) (error_text e), record w { store = s })
  after_update_metric r w (none, s) =
      (respond 200 empty, emit_audit r (r.url_name ∷ []) (record w { store = s }))

  -- UpdateMetric: POST /update/{type}/{name}/{value}
  unfoldable pub update_metric : Request Text → World S → Response Text × World S
  update_metric r w =
      if r.url_name == ""
      then (respond 404 (message "404 page not found"), w)
      else after_update_metric r w
          (Service.update_metric h.svc ft r.url_type r.url_name r.url_value w.store)

  -- the end of GetValue
  unfoldable pub after_get_value : World S → Result String × S → Response Text × World S
  after_get_value w (err e, s) =
      (respond (http_status_for_error e) (error_text e), record w { store = s })
  after_get_value w (ok val, s) = (respond 200 (plain val), record w { store = s })

  -- GetValue: GET /value/{type}/{name}
  unfoldable pub get_value : Request Text → World S → Response Text × World S
  get_value r w =
      if r.url_name == ""
      then (respond 404 (message "404 page not found"), w)
      else after_get_value w (Service.get_value h.svc r.url_type r.url_name w.store)

  -- WriteHeader(200) and Encode: the status has been sent when the encoder fails
  unfoldable pub write_metric : Metrics → World S → Response Text × World S
  write_metric m w = elim (json.encode m) [
    | ok text ↦ (respond 200 (json_text text), w)
    | err e ↦ (respond 200 empty, record w { log = w.log ++ "failed to encode response" ∷ [] })
  ]

  -- the end of UpdateMetricJSON, from GetMetric on
  unfoldable pub after_read_back :
      Request Text → Metrics → World S → Result Metrics × S → Response Text × World S
  after_read_back r m w (err e, s) =
      internal_error "failed to get metric after update" (record w { store = s })
  after_read_back r m w (ok updated, s) =
      write_metric updated (emit_audit r (m.id ∷ []) (record w { store = s }))

  -- the part of UpdateMetricJSON that follows UpdateMetricFromModel
  unfoldable pub after_update_json :
      Request Text → Metrics → World S → Option GoError × S → Response Text × World S
  after_update_json r m w (some e, s) =
      (respond (http_status_for_error e) (error_text e), record w { store = s })
  after_update_json r m w (none, s) =
      after_read_back r m w (Service.get_metric h.svc m.mtype m.id s)

  -- UpdateMetricJSON: POST /update
  unfoldable pub update_metric_json : Request Text → World S → Response Text × World S
  update_metric_json r w = elim (json.decode r.body) [
    | err e ↦ (respond 400 (invalid_json e), w)
    | ok m ↦
        if m.id == ""
        then (respond 400 (message "id is required"), w)
        else after_update_json r m w (Service.update_metric_from_model h.svc m w.store)
  ]

  -- the end of GetValueJSON
  unfoldable pub after_get_json : World S → Result Metrics × S → Response Text × World S
  after_get_json w (err e, s) =
      (respond (http_status_for_error e) (error_text e), record w { store = s })
  after_get_json w (ok m, s) = write_metric m (record w { store = s })

  -- GetValueJSON: POST /value
  unfoldable pub get_value_json : Request Text → World S → Response Text × World S
  get_value_json r w = elim (json.decode r.body) [
    | err e ↦ (respond 400 (invalid_json e), w)
    | ok req ↦
        if req.id == ""
        then (respond 400 (message "id is required"), w)
        else after_get_json w (Service.get_metric h.svc req.mtype req.id w.store)
  ]

  -- the end of UpdateMetricsBatch
  unfoldable pub after_batch :
      Request Text → List Metrics → World S → Option GoError × S → Response Text × World S
  after_batch r metrics w (some e, s) =
      internal_error "batch update failed" (record w { store = s })
  after_batch r metrics w (none, s) =
      (respond 200 empty, emit_audit r (map (λ m. m.id) metrics) (record w { store = s }))

  -- UpdateMetricsBatch: POST /updates/
  unfoldable pub update_metrics_batch : Request Text → World S → Response Text × World S
  update_metrics_batch r w = elim (json.decode_list r.body) [
    | err e ↦ (respond 400 (invalid_json e), w)
    | ok metrics ↦
        if is_empty metrics
        then (respond 200 empty, w)
        else after_batch r metrics w (Service.update_batch h.svc metrics w.store)
  ]

  -- ListMetrics: GET /
  unfoldable pub list_metrics : Request Text → World S → Response Text × World S
  list_metrics r w =
      let (all, s) = Service.get_all_metrics h.svc w.store in
      (respond 200 (page (sort_rows (rows_of all))), record w { store = s })

-- ===== src/Handler/Routes.antt =====
-- Routes of internal/handler/handler.go: the table of the endpoints, and the handler that a request
-- is given to. How chi matches a method and a path against the table is a parameter.
pub mod Kept
pub mod Settling
pub mod Answers
use mathlib.Core.List.{Memᴰ}
use go_yandex_practicum_metr.Prelude.{String, Option, List, [], ◌∷◌, ◌≡◌}
use go_yandex_practicum_metr.FloatText.{FloatText}
use go_yandex_practicum_metr.Repository.Json.{Json}
use go_yandex_practicum_metr.Handler
use go_yandex_practicum_metr.Handler.{MetricHandler, Request, Response, World}

-- the methods of MetricHandler that Routes mounts
pub data Endpoint : Type 0 where
  list_metrics ping update_metric_json get_value_json : Endpoint
  update_metrics_batch update_metric get_value : Endpoint

pub record Route : Type 0 where
  pub method : String
  pub pattern : String
  pub endpoint : Endpoint

abbrev route : String → String → Endpoint → Route
route method pattern endpoint = record { method = method; pattern = pattern; endpoint = endpoint }

-- Routes
abbrev pub routes : List Route
routes =
    route "GET" "/" list_metrics
    ∷ route "GET" "/ping" ping
    ∷ route "POST" "/update" update_metric_json
    ∷ route "POST" "/update/" update_metric_json
    ∷ route "POST" "/value" get_value_json
    ∷ route "POST" "/value/" get_value_json
    ∷ route "POST" "/updates/" update_metrics_batch
    ∷ route "POST" "/update/{type}/{name}/{value}" update_metric
    ∷ route "GET" "/value/{type}/{name}" get_value
    ∷ []

-- What chi finds for a request: a route with its URL parameters, or none for the path or for the
-- method.
pub data Routed : Type 0 where
  matched : Route → (String → String) → Routed
  not_found method_not_allowed : Routed

pub record Chi (Text : Type 0) : Type 0 where
  pub find : List Route → String → String → Routed
  pub not_found_answer : Response Text
  pub not_allowed_answer : Response Text

-- What the documentation of chi says: a route is one of the table, registered for the method of the
-- request; a path that is the whole pattern of a route, where no pattern with parameters fits, has
-- that route, which is stated for the path of the batches.
pub record ChiLaws {Text : Type 0} (chi : Chi Text) : Type 0 where
  pub found_route :
      (table : List Route) (method path : String) (r : Route) (param : String → String)
      → chi.find table method path ≡ matched r param
      → Memᴰ r table × (r.method ≡ method)
  pub found_batches :
      (param : String → String) × (chi.find routes "POST" "/updates/"
        ≡ matched (route "POST" "/updates/" update_metrics_batch) param)

-- the request with what chi.URLParam gives
abbrev pub with_params : {Text : Type 0} → (String → String) → Request Text → Request Text
with_params param r = record r {
  url_type = param "type";
  url_name = param "name";
  url_value = param "value";
}

module _ {S Text : Type 0} (json : Json Text) (ft : FloatText)
    (split_host_port : String → Option String) (h : MetricHandler S) where
  abbrev pub run_endpoint : Endpoint → Request Text → World S → Response Text × World S
  run_endpoint list_metrics = Handler.list_metrics json ft split_host_port h
  run_endpoint ping = Handler.ping json ft split_host_port h
  run_endpoint update_metric_json = Handler.update_metric_json json ft split_host_port h
  run_endpoint get_value_json = Handler.get_value_json json ft split_host_port h
  run_endpoint update_metrics_batch = Handler.update_metrics_batch json ft split_host_port h
  run_endpoint update_metric = Handler.update_metric json ft split_host_port h
  run_endpoint get_value = Handler.get_value json ft split_host_port h

  abbrev pub run_routed : Chi Text → Routed → Request Text → World S → Response Text × World S
  run_routed chi (matched r param) req w = run_endpoint r.endpoint (with_params param req) w
  run_routed chi not_found req w = (chi.not_found_answer, w)
  run_routed chi method_not_allowed req w = (chi.not_allowed_answer, w)

  -- a request to the router that Routes returns
  unfoldable pub serve_routes :
      Chi Text → String → String → Request Text → World S → Response Text × World S
  serve_routes chi method path req w = run_routed chi (chi.find routes method path) req w

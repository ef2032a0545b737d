-- ===== src/Examples/Http.antt =====
-- The HTTP handlers at concrete inputs.
use go_yandex_practicum_metr.Prelude.{String, ◌≡◌, refl, Option, none, List, [], ◌∷◌, true}
use go_yandex_practicum_metr.GoMap.{lookup}
use go_yandex_practicum_metr.Int64.{add, parse_int, format_int, parse_uint, scan}
use go_yandex_practicum_metr.Model.{Metrics}
use go_yandex_practicum_metr.Repository.Memory.{MemStorage, mem_storage}
use go_yandex_practicum_metr.Repository.Memory.Batch.{view}
use go_yandex_practicum_metr.Repository.Memory.Refines.{mem_storage-IsStorage}
use go_yandex_practicum_metr.Service.{new_metric_service, notify_update}
use go_yandex_practicum_metr.Handler.{
  MetricHandler, Request, World, respond, plain, update_metric, get_value, update_metric_json,
}
use go_yandex_practicum_metr.Handler.ReadBack.{Finishes, update_metric_json-Finishes}
use go_yandex_practicum_metr.Handler.Reads.{get_value-update_metric_counter}
use go_yandex_practicum_metr.Examples.Fixtures.{float_text, json, gauge_item, store}

abbrev pub no_port : String → Option String
no_port s = none

abbrev pub handler : MetricHandler MemStorage
handler = record {
  svc = new_metric_service (mem_storage float_text);
  pinger = none;
  publisher = true;
}

abbrev pub world : World MemStorage
world = record { store = store; events = []; log = [] }

abbrev pub request : String → String → String → List Metrics → Request (List Metrics)
request type name value body = record {
  url_type = type;
  url_name = name;
  url_value = value;
  body = body;
  real_ip = "";
  forwarded_for = "";
  remote_addr = "10.0.0.1";
  now = 1700000000;
}

update_metric_json-Finishes_example :
    Finishes json no_port handler view (request "" "" "" (gauge_item ∷ [])) gauge_item world (
      update_metric_json json float_text no_port handler (request "" "" "" (gauge_item ∷ [])) world)
unfolding notify_update
update_metric_json-Finishes_example =
    update_metric_json-Finishes json float_text no_port handler view
      (mem_storage-IsStorage float_text) (λ s. refl) (request "" "" "" (gauge_item ∷ [])) gauge_item
      world refl

get_value-update_metric_counter_example :
    (get_value json float_text no_port handler
      (request "counter" "PollCount" "2" [])
      (update_metric json float_text no_port handler
        (request "counter" "PollCount" "2" [])
        world).1).0
    ≡ respond 200 (plain (format_int (add 40 2)))
unfolding parse_int parse_uint scan lookup
get_value-update_metric_counter_example =
    get_value-update_metric_counter json float_text no_port handler
      (request "counter" "PollCount" "2" []) world refl refl 2 refl refl

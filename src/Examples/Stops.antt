-- ===== src/Examples/Stops.antt =====
-- A server that starts and one that stops, at concrete inputs.
use go_yandex_practicum_metr.Prelude.{
  String, ◌==◌, eq_iff, Bool, true, false, none, some, List, [], ◌∷◌, ◌≡◌, ◌≢◌, ◌⊎◌, refl, arith,
}
use go_yandex_practicum_metr.GoError.{ok, err, text}
use go_yandex_practicum_metr.Model.{Metrics}
use go_yandex_practicum_metr.Crypto.{Bytes, Ciphers, or_wrap}
use go_yandex_practicum_metr.Crypto.Keys.{KeyLib, rsa, load_private_key}
use go_yandex_practicum_metr.Repository.Memory.{new_mem_storage}
use go_yandex_practicum_metr.Service.{new_metric_service}
use go_yandex_practicum_metr.Handler.Http.{HttpIo}
use go_yandex_practicum_metr.Audit.{build_audit_publisher}
use go_yandex_practicum_metr.Config.Server.{ServerConfig}
use go_yandex_practicum_metr.Server.{
  Backend, in_memory, open_storage, open_service, backend_storage,
}
use go_yandex_practicum_metr.Server.Start.{
  Running, up, Environment, parsed_subnet, private_key, start_grpc, wire, start_server,
}
use go_yandex_practicum_metr.Server.Guarded.{IsGuarded, start_server-IsGuarded}
use go_yandex_practicum_metr.Server.Refusals.{Refuses, start_server-Refuses}
use go_yandex_practicum_metr.Server.Stopping.{
  Process, ProcessReach, start, later, waiting, returned, signal, http_begin, grpc_begin, shut,
  expire, shut_late, graceful_stop, stopped, listener_returns, server_returns, wait,
}
use go_yandex_practicum_metr.Server.Stopping.Ends.{Ends, ProcessReach-Ends}
use go_yandex_practicum_metr.Server.Stopping.Quiet.{ProcessReach-quiet}
use go_yandex_practicum_metr.Examples.Databases.{retry_lib, pg_lib}
use go_yandex_practicum_metr.Examples.Fixtures.{float_text, json}
use go_yandex_practicum_metr.Examples.Http.{no_port}
use go_yandex_practicum_metr.Examples.Routing.{server_json, chi}
use go_yandex_practicum_metr.Examples.Stubs.{http_lib, ciphers}

-- Every block is the pair of keys of the stubs.
abbrev server_keys : KeyLib Bytes (Ciphers Bytes)
server_keys = record {
  read_file = λ path. ok (0 ∷ []);
  pem_decode = some;
  parse_pkix_public_key = λ b. ok (rsa b);
  parse_pkcs1_public_key = ok;
  parse_pkcs1_private_key = λ b. ok ciphers;
  parse_pkcs8_private_key = λ b. ok (rsa ciphers);
  quoted = λ s. s;
}

abbrev fenced_config : ServerConfig
fenced_config = record {
  addr = "localhost:8080";
  store_interval = 300;
  file_storage_path = "";
  restore = false;
  database_dsn = "";
  key = "secret";
  audit_file = "";
  audit_url = "";
  crypto_key = "private.pem";
  trusted_subnet = "10.0.0.7";
  grpc_addr = "localhost:3200";
}

abbrev environment : Environment (List Metrics)
environment = record {
  logger = none;
  connected = err (text "no database");
  disk = record { file = none; write_fault = none; read_fault = none };
  audit_opened = err (text "no file");
  audit_answers = [];
  listened = none;
}

abbrev running : Running (List Metrics) String Bytes
running = record {
  cfg = fenced_config;
  backend = in_memory new_mem_storage;
  svc = new_metric_service (backend_storage retry_lib pg_lib float_text);
  publisher = none;
  priv_key = some ciphers;
  subnet = some (λ a. a == "10.0.0.7");
  grpc = some (some (λ a. a == "10.0.0.7"));
}

started :
    start_server json retry_lib pg_lib float_text http_lib server_keys environment
      (ok fenced_config)
    ≡ up running
unfolding start_server wire start_grpc parsed_subnet private_key load_private_key open_storage
    open_service build_audit_publisher or_wrap
started = refl

start_server-IsGuarded_example :
    (cfg : ServerConfig) × (ok fenced_config ≡ ok cfg)
    × IsGuarded json retry_lib pg_lib float_text http_lib server_keys environment cfg running
start_server-IsGuarded_example =
    start_server-IsGuarded json retry_lib pg_lib float_text http_lib server_keys environment
      (ok fenced_config) running started

abbrev server_io : HttpIo (Backend (List Metrics))
server_io = record {
  write = λ r h. record { status = r.status; header = h; body = [] };
  remote_addr = λ req. "10.0.0.9:5000";
  now = λ w. 1700000000;
}

subnet_set : fenced_config.trusted_subnet ≢ ""
subnet_set e = ground (arith, eq_iff fenced_config.trusted_subnet "")

start_server-Refuses_example :
    (network : String → Bool) × (http_lib.parse_cidr "10.0.0.7" ≡ ok network)
    × Refuses server_json float_text no_port chi server_io http_lib running network
start_server-Refuses_example =
    start_server-Refuses server_json float_text no_port chi server_io http_lib json retry_lib pg_lib
      server_keys environment fenced_config running subnet_set started

-- A call over HTTP that does not end: the budget runs out, and main goes on without it.
abbrev late : Process
late = record {
  cancelled = true;
  deadline = true;
  http_open = false;
  http_calls = 1;
  grpc_on = true;
  grpc_open = false;
  grpc_calls = 0;
  listener_ended = true;
  server_ended = true;
  closer = returned;
  waited = true;
}

late_reached : ProcessReach true late
late_reached =
    later
      (later
        (later
          (later
            (later
              (later
                (later (later (later (later start (http_begin refl)) signal) (shut refl refl))
                  (graceful_stop (λ e. ground arith) refl))
                (expire (λ e. ground arith)))
              (shut_late refl refl))
            (stopped refl refl refl refl))
          (listener_returns refl))
        (server_returns refl))
      (wait refl refl refl)

ProcessReach-quiet_example :
    (late.http_open ≡ false)
    × (late.grpc_open ≡ false)
    × (late.grpc_calls ≡ 0)
    × ((late.http_calls ≡ 0) ⊎ (late.deadline ≡ true))
ProcessReach-quiet_example = ProcessReach-quiet true late late_reached refl

-- a call over HTTP and one over gRPC run when the signal comes
abbrev busy : Process
busy = record {
  cancelled = true;
  deadline = false;
  http_open = true;
  http_calls = 1;
  grpc_on = true;
  grpc_open = true;
  grpc_calls = 1;
  listener_ended = false;
  server_ended = false;
  closer = waiting;
  waited = false;
}

busy_reached : ProcessReach true busy
busy_reached = later (later (later start (http_begin refl)) (grpc_begin refl)) signal

ProcessReach-Ends_example : Ends busy
ProcessReach-Ends_example = ProcessReach-Ends true busy busy_reached refl

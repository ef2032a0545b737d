-- ===== src/Server/Refusals.antt =====
-- What a server that listens does with a caller from outside of its trusted subnet.
use go_yandex_practicum_metr.Prelude.{
  String, Bool, false, Option, none, some, is_some, List, ◌∷◌, ◌≡◌, ◌≢◌, ◌⊎◌, inl, inr, sym, length,
}
use mathlib.Core.Path.{subst}
use go_yandex_practicum_metr.GoError.{GoError, ok}
use go_yandex_practicum_metr.GoMap.{GoMap}
use go_yandex_practicum_metr.FloatText.{FloatText}
use go_yandex_practicum_metr.Crypto.{Ciphers}
use go_yandex_practicum_metr.Crypto.Keys.{KeyLib}
use go_yandex_practicum_metr.Retry.{RetryLib}
use go_yandex_practicum_metr.Repository.Json.{Json}
use go_yandex_practicum_metr.Repository.Database
use go_yandex_practicum_metr.Repository.Database.{PgLib}
use go_yandex_practicum_metr.Handler.{MetricHandler, World}
use go_yandex_practicum_metr.Handler.Routes.{Chi}
use go_yandex_practicum_metr.Handler.Http.{HttpIo, http_routes}
use go_yandex_practicum_metr.Middleware.{
  Reader, HttpRequest, HttpLib, HttpHandler, LogEntry, get_header, new_router,
}
use go_yandex_practicum_metr.Middleware.Guards.{new_router-untrusted}
use go_yandex_practicum_metr.Grpc.{PbMetric, Status, permission_denied, update_metrics}
use go_yandex_practicum_metr.Grpc.Subnet.{raw_ip, interceptor-refuses}
use go_yandex_practicum_metr.Grpc.Sending.{optional_interceptor}
use go_yandex_practicum_metr.Config.Server.{ServerConfig}
use go_yandex_practicum_metr.Server.{Backend, in_database, in_file, in_memory}
use go_yandex_practicum_metr.Server.Start.{Running, Environment, up, start_server}
use go_yandex_practicum_metr.Server.Guarded.{SubnetOf, IsGuarded, start_server-IsGuarded}

-- Ping of a storage that is a database
abbrev ping_backend : {Text : Type 0} → Backend Text → Option GoError
ping_backend (in_database db) = (Database.ping db).0
ping_backend (in_file s) = none
ping_backend (in_memory s) = none

-- the Pinger that newRouter is given
abbrev pub chosen_pinger : {Text : Type 0} → Backend Text → Option (Backend Text → Option GoError)
chosen_pinger (in_database db) = some ping_backend
chosen_pinger (in_file s) = none
chosen_pinger (in_memory s) = none

-- An address that is none, or that is outside of the network.
abbrev pub IsOutside : {Ip : Type 0} → HttpLib Ip → (Ip → Bool) → String → Type 0
IsOutside {Ip} lib network a = (ip : Ip) → lib.parse_ip a ≡ some ip → network ip ≡ false

module _ {Text Ip Block : Type 0} (http_json : Json Reader) (ft : FloatText)
    (split_host_port : String → Option String) (chi : Chi Reader) (io : HttpIo (Backend Text))
    (lib : HttpLib Ip) where
  -- NewMetricHandler, as newRouter calls it
  abbrev pub metric_handler : Running Text Ip Block → MetricHandler (Backend Text)
  metric_handler r = record {
    svc = r.svc;
    pinger = chosen_pinger r.backend;
    publisher = is_some r.publisher;
  }

  -- the Handler of the http.Server, for a method and a path
  unfoldable pub serve_http :
      Running Text Ip Block → String → String → HttpHandler (World (Backend Text) × List LogEntry)
  serve_http r method path =
      new_router lib r.cfg.key r.priv_key r.subnet
        (http_routes http_json ft split_host_port (metric_handler r) chi io method path)

  -- the gRPC server, with its interceptor if it has one
  unfoldable pub serve_grpc :
      Running Text Ip Block
      → Option (Ip → Bool)
      → Option (List String)
      → List PbMetric
      → Backend Text
      → Status × Backend Text
  serve_grpc r network metadata req =
      optional_interceptor lib network metadata (update_metrics r.svc req)

  -- Over HTTP: forbidden, and one line in the log. Over gRPC, if it is served: permission denied.
  abbrev pub Refuses : Running Text Ip Block → (Ip → Bool) → Type 0
  Refuses r network =
      ((method path : String) (req : HttpRequest) (h : GoMap String) (w : World (Backend Text))
          (log : List LogEntry)
        → IsOutside lib network (get_header "X-Real-IP" req.header)
        → serve_http r method path req h (w, log) ≡ (
          some (lib.http_error 403 h),
          (w, ((lib.http_error 403 h).status, length (lib.http_error 403 h).body) ∷ log),
        ))
      × ((served : Option (Ip → Bool)) (metadata : Option (List String)) (calls : List PbMetric)
            (s : Backend Text)
          → r.grpc ≡ some served
          → IsOutside lib network (raw_ip metadata)
          → serve_grpc r served metadata calls s ≡ (permission_denied, s))

  guarded-Refuses :
      (r : Running Text Ip Block) (network : Ip → Bool)
      → r.subnet ≡ some network
      → (r.grpc ≡ none) ⊎ (r.grpc ≡ some r.subnet)
      → Refuses r network
  unfolding serve_http serve_grpc
  guarded-Refuses r network fenced mirrored = (
    λ method path req h w log outside.
        subst
          (λ subnet.
            new_router lib r.cfg.key r.priv_key subnet
              (http_routes http_json ft split_host_port (metric_handler r) chi io method path) req h
              (w, log)
            ≡ (
              some (lib.http_error 403 h),
              (w, ((lib.http_error 403 h).status, length (lib.http_error 403 h).body) ∷ log),
            ))
          (sym fenced)
          (new_router-untrusted lib r.cfg.key r.priv_key network _ req h w log outside),
    λ served metadata calls s on outside.
        subst
          (λ n.
            optional_interceptor lib n metadata (update_metrics r.svc calls) s
            ≡ (permission_denied, s))
          (sym (served_is served on))
          (interceptor-refuses lib network metadata (update_metrics r.svc calls) s outside),
  )
    where
      served_is : (served : Option (Ip → Bool)) → r.grpc ≡ some served → served ≡ some network
      served_is served on = by_mirror mirrored
        where
          by_mirror : (r.grpc ≡ none) ⊎ (r.grpc ≡ some r.subnet) → served ≡ some network
          by_mirror (inl off) = cc
          by_mirror (inr same) = cc

  -- A server that listens with a trusted subnet in its settings refuses, with the network that was
  -- parsed from them, every caller that gives no address or one outside of it, whatever the method
  -- and the path: 403 over HTTP, permission denied over gRPC, and the storage and the audit events
  -- are as they were.
  pub start_server-Refuses :
      {Pub : Type 0} (json : Json Text) (retry : RetryLib) (pg : PgLib)
      (keys : KeyLib Pub (Ciphers Block)) (env : Environment Text) (cfg : ServerConfig)
      (r : Running Text Ip Block)
      → cfg.trusted_subnet ≢ ""
      → start_server json retry pg ft lib keys env (ok cfg) ≡ up r
      → (network : Ip → Bool) × (lib.parse_cidr cfg.trusted_subnet ≡ ok network) × Refuses r network
  start_server-Refuses json retry pg keys env cfg r asked e =
      let (cfg', same, guarded) =
        start_server-IsGuarded json retry pg ft lib keys env (ok cfg) r e in
      fenced
        (subst (λ (c : ServerConfig). IsGuarded json retry pg ft lib keys env c r) (cc) guarded)
    where
      fenced :
          IsGuarded json retry pg ft lib keys env cfg r
          → (network : Ip → Bool) × (lib.parse_cidr cfg.trusted_subnet ≡ ok network)
            × Refuses r network
      fenced g = by_subnet g.fenced (by_mirror g.mirrored)
        where
          by_mirror :
              ((cfg.grpc_addr ≡ "") × (r.grpc ≡ none))
                ⊎ ((cfg.grpc_addr ≢ "") × (r.grpc ≡ some r.subnet))
              → (r.grpc ≡ none) ⊎ (r.grpc ≡ some r.subnet)
          by_mirror (inl (a, off)) = inl off
          by_mirror (inr (a, on)) = inr on

          by_subnet :
              SubnetOf lib cfg.trusted_subnet r.subnet
              → (r.grpc ≡ none) ⊎ (r.grpc ≡ some r.subnet)
              → (network : Ip → Bool) × (lib.parse_cidr cfg.trusted_subnet ≡ ok network)
                × Refuses r network
          by_subnet (inl (unset, no_net)) m = absurd (asked unset)
          by_subnet (inr (set, network, parsed, is)) m =
              (network, parsed, guarded-Refuses r network is m)

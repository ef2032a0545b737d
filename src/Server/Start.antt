-- ===== src/Server/Start.antt =====
-- main of cmd/server/main.go from its settings to a server that listens, over HTTP and gRPC; every
-- step that can end the process. The listeners, signals and the log are left out.
use go_yandex_practicum_metr.Grpc.Subnet.{interceptor_for, trusted_subnet_interceptor}
use go_yandex_practicum_metr.Middleware.{trusted_subnet, trusted_subnet_middleware}
use go_yandex_practicum_metr.Prelude.{
  ◌≡◌, refl, inl, inr, Bool-cases, String, ◌==◌, Bool, true, false, not, Option, none, some, List,
  if◌then◌else◌, ℕ,
}
use go_yandex_practicum_metr.GoError.{GoError, Result, ok, err, wrap, Result-cases}
use go_yandex_practicum_metr.FloatText.{FloatText}
use go_yandex_practicum_metr.Crypto.{Ciphers, or_wrap}
use go_yandex_practicum_metr.Crypto.Keys.{KeyLib, load_private_key}
use go_yandex_practicum_metr.Retry.{RetryLib}
use go_yandex_practicum_metr.Repository.Json.{Json}
use go_yandex_practicum_metr.Repository.File.{Disk}
use go_yandex_practicum_metr.Repository.Database.{Database, PgLib}
use go_yandex_practicum_metr.Service.{MetricService}
use go_yandex_practicum_metr.Middleware.{HttpLib}
use go_yandex_practicum_metr.Audit.{Publisher, FileObserver, build_audit_publisher}
use go_yandex_practicum_metr.Config.Server.{ServerConfig}
use go_yandex_practicum_metr.Server.{Backend, open_storage, open_service}

-- A server that listens: `subnet` is the network in the closures of the HTTP middleware, and `grpc`,
-- if there is a gRPC server, the one in its interceptor.
pub record Running (Text Ip Block : Type 0) : Type 0 where
  pub cfg : ServerConfig
  pub backend : Backend Text
  pub svc : MetricService (Backend Text)
  pub publisher : Option Publisher
  pub priv_key : Option (Ciphers Block)
  pub subnet : Option (Ip → Bool)
  pub grpc : Option (Option (Ip → Bool))

-- `fatal` with whether the HTTP server has begun to serve
pub data Start (Text Ip Block : Type 0) : Type 0 where
  fatal : Bool → GoError → Start Text Ip Block
  up : Running Text Ip Block → Start Text Ip Block

-- What the environment answers while main runs: zap.NewProduction, NewDBStorage, the file of the
-- metrics, NewFileObserver, the remote server of the audit, and net.Listen for gRPC.
pub record Environment (Text : Type 0) : Type 0 where
  pub logger : Option GoError
  pub connected : Result Database
  pub disk : Disk Text
  pub audit_opened : Result FileObserver
  pub audit_answers : List (Result ℕ)
  pub listened : Option GoError

abbrev pub or_fatal :
    {A Text Ip Block : Type 0}
    → Bool
    → String
    → Result A
    → (A → Start Text Ip Block)
    → Start Text Ip Block
or_fatal serving message (err e) next = fatal serving (wrap message e)
or_fatal serving message (ok a) next = next a

module _ {Ip : Type 0} (lib : HttpLib Ip) where
  -- TrustedSubnetMiddleware and TrustedSubnetInterceptor, up to the closure: the network of a setting
  unfoldable pub parsed_subnet : String → Result (Option (Ip → Bool))
  parsed_subnet cidr =
      if cidr == ""
      then ok none
      else or_wrap "trusted_subnet: invalid CIDR" (lib.parse_cidr cidr)
          (λ network. ok (some network))

abbrev closed_over : {X Y : Type 0} → (X → Y) → Result (Option X) → Result (Option Y)
closed_over f (err e) = err e
closed_over f (ok none) = ok none
closed_over f (ok (some x)) = ok (some (f x))

-- The closures of both transports are over that network, and their errors are the same.
parsed_subnet-closures :
    {Ip S T : Type 0} (lib : HttpLib Ip) (cidr : String)
    → (trusted_subnet_middleware lib {S = S} cidr
        ≡ closed_over (trusted_subnet lib) (parsed_subnet lib cidr))
      × (interceptor_for {S = T} lib cidr
          ≡ closed_over (trusted_subnet_interceptor lib) (parsed_subnet lib cidr))
unfolding parsed_subnet or_wrap trusted_subnet_middleware interceptor_for
parsed_subnet-closures lib cidr = elim (Bool-cases (cidr == "")) [
  | inl unset ↦ rw unset (refl, refl)
  | inr set ↦ elim (Result-cases (lib.parse_cidr cidr)) [
    | inl (e, failed) ↦ rw (set, failed) (refl, refl)
    | inr (network, parsed) ↦ rw (set, parsed) (refl, refl)
  ]
]

module _ {Block Pub : Type 0} (keys : KeyLib Pub (Ciphers Block)) where
  -- the private key of main, if a path is set
  unfoldable pub private_key : ServerConfig → Result (Option (Ciphers Block))
  private_key cfg =
      if not (cfg.crypto_key == "")
      then elim (load_private_key keys cfg.crypto_key) [ err e ↦ err e | ok k ↦ ok (some k) ]
      else ok none

module _ {Text Ip Block Pub : Type 0} (json : Json Text) (retry : RetryLib) (pg : PgLib)
    (ft : FloatText) (lib : HttpLib Ip) (keys : KeyLib Pub (Ciphers Block)) where
  -- the gRPC server of main, after the HTTP server has begun to serve
  unfoldable pub start_grpc : Environment Text → Running Text Ip Block → Start Text Ip Block
  start_grpc env r =
      if not (r.cfg.grpc_addr == "")
      then or_fatal true "grpc trusted subnet" (parsed_subnet lib r.cfg.trusted_subnet) (λ subnet.
        elim env.listened [
          | some e ↦ fatal true (wrap "grpc listen" e)
          | none ↦ up (record r { grpc = some subnet })
        ])
      else up r

  -- main from the audit on, where `backend` is the storage that it has opened
  unfoldable pub wire : Environment Text → ServerConfig → Backend Text → Start Text Ip Block
  wire env cfg backend =
      or_fatal false "failed to init audit publisher"
        (build_audit_publisher cfg env.audit_opened env.audit_answers)
        (λ publisher. or_fatal false "load crypto private key" (private_key keys cfg) (λ priv_key.
          or_fatal false "trusted subnet" (parsed_subnet lib cfg.trusted_subnet) (λ subnet.
            start_grpc env (record {
              cfg = cfg;
              backend = backend;
              svc = open_service json retry pg ft cfg backend;
              publisher = publisher;
              priv_key = priv_key;
              subnet = subnet;
              grpc = none;
            }))))

  -- main, where `parsed` is what ParseServerConfig returns
  unfoldable pub start_server : Environment Text → Result ServerConfig → Start Text Ip Block
  start_server env (err e) = fatal false (wrap "invalid config" e)
  start_server env (ok cfg) = elim env.logger [
    | some e ↦ fatal false (wrap "failed to init logger" e)
    | none ↦ wire env cfg (open_storage json cfg env.connected env.disk)
  ]

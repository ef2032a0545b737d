-- ===== src/Agent/Main.antt =====
-- main of cmd/agent/main.go with the constructors of internal/agent/agent.go: which sender the agent
-- gets, and with which keys. Signals and the log are left out.
use Prim.Native.String
use mathlib.Core.Path.{subst}
use go_yandex_practicum_metr.Prelude.{
  ◌*◌, ◌%◌, ◌^◌, ltb, ◌&&◌, not, String, ◌==◌, Bool, true, Option, none, some, List, ◌≡◌, ◌≢◌, ◌⊎◌,
  inl, inr, refl, arith, if◌then◌else◌, Bool-cases, Option-cases, eq_iff, sym,
}
use go_yandex_practicum_metr.GoError.{GoError, Result, ok, err, wrap, text, Result-cases}
use go_yandex_practicum_metr.Int64.{Int64}
use go_yandex_practicum_metr.Crypto.{Ciphers}
use go_yandex_practicum_metr.Crypto.Keys.{KeyLib, load_public_key}
use go_yandex_practicum_metr.Config.Agent.{AgentConfig}
use go_yandex_practicum_metr.Agent.Sender.{Sender}
use go_yandex_practicum_metr.Agent.Address.{NetAddr, detect_local_ipv4, new_sender}
use go_yandex_practicum_metr.Agent.OverGrpc.{GrpcSender, new_grpc_sender}

-- BatchSender: the dynamic type, with the URL of the HTTP sender
pub data BatchSender (Block : Type 0) : Type 0 where
  by_http : String → Sender Block → BatchSender Block
  by_grpc : GrpcSender → BatchSender Block

pub record Agent (Block : Type 0) : Type 0 where
  pub sender : BatchSender Block
  pub poll_interval : Int64
  pub report_interval : Int64
  pub rate_limit : Int64

-- How main goes on: a fatal error ends the process, a ticker of no positive interval panics, or the
-- loops of the agent run.
pub data Launch (Block : Type 0) : Type 0 where
  fatal : GoError → Launch Block
  panics : Launch Block
  runs : Agent Block → Launch Block

-- `n > 0` for an int64
abbrev pub above_zero : Int64 → Bool
above_zero n = ltb 0 n && ltb n (2 ^ 63)

-- `time.Duration(n) * time.Second`
abbrev pub seconds : Int64 → Int64
seconds n = (n * 1000000000) % 2 ^ 64

module _ {Block : Type 0} where
  -- Run, as far as its tickers: time.NewTicker panics on a duration that is not positive
  unfoldable pub run : Agent Block → Launch Block
  run a = if above_zero a.poll_interval && above_zero a.report_interval then runs a else panics

  -- NewWithSender
  unfoldable pub new_with_sender : BatchSender Block → Int64 → Int64 → Int64 → Result (Agent Block)
  new_with_sender sender poll_interval report_interval rate_limit =
      if not (above_zero rate_limit)
      then err (text "rateLimit must be > 0")
      else ok (record {
        sender = sender;
        poll_interval = poll_interval;
        report_interval = report_interval;
        rate_limit = rate_limit;
      })

  -- NewWithConfig
  unfoldable pub new_with_config :
      String
      → Int64
      → Int64
      → String
      → Int64
      → Option (Ciphers Block)
      → Result (List NetAddr)
      → Result (Agent Block)
  new_with_config server_url poll_interval report_interval key rate_limit pub_key addrs =
      new_with_sender (by_http server_url (new_sender key pub_key addrs)) poll_interval
        report_interval rate_limit

  abbrev or_fatal : {A : Type 0} → Result A → (A → Launch Block) → Launch Block
  or_fatal (err e) next = fatal e
  or_fatal (ok a) next = next a

module _ {Block Priv : Type 0} (keys : KeyLib (Ciphers Block) Priv) (dial : String → Option GoError)
    (addrs : Result (List NetAddr)) where
  -- the public key of main, if a path is set
  unfoldable pub public_key : AgentConfig → Result (Option (Ciphers Block))
  public_key cfg =
      if not (cfg.crypto_key == "")
      then elim (load_public_key keys cfg.crypto_key) [
        | err e ↦ err (wrap "load crypto public key" e)
        | ok k ↦ ok (some k)
      ]
      else ok none

  -- the choice of the sender
  unfoldable pub build_agent : AgentConfig → Option (Ciphers Block) → Launch Block
  build_agent cfg pub_key =
      if not (cfg.grpc_addr == "")
      then or_fatal (new_grpc_sender dial cfg.grpc_addr addrs) (λ sender.
        or_fatal
          (new_with_sender (by_grpc sender) (seconds cfg.poll_interval)
            (seconds cfg.report_interval) cfg.rate_limit)
          run)
      else or_fatal
          (new_with_config (String.◌++◌ "http://" cfg.addr) (seconds cfg.poll_interval)
            (seconds cfg.report_interval) cfg.key cfg.rate_limit pub_key addrs)
          run

  -- main, where `parsed` is what ParseAgentConfig returns and `logger` the error of
  -- zap.NewProduction
  unfoldable pub main : Result AgentConfig → Option GoError → Launch Block
  main (err e) logger = fatal (wrap "invalid config" e)
  main (ok cfg) (some e) = fatal (wrap "failed to init logger" e)
  main (ok cfg) none = or_fatal (public_key cfg) (build_agent cfg)

module _ {Block Priv : Type 0} (keys : KeyLib (Ciphers Block) Priv) (dial : String → Option GoError)
    (addrs : Result (List NetAddr)) (cfg : AgentConfig) where
  -- What a running agent has of its settings: over gRPC a sender with no key; over HTTP a sender
  -- with the signing key and, if a path is set, with the public key that was loaded from it.
  abbrev pub IsConfigured : BatchSender Block → Type 0
  IsConfigured (by_grpc s) =
      (cfg.grpc_addr ≢ "") × (s.addr ≡ cfg.grpc_addr) × (s.local_ip ≡ detect_local_ipv4 addrs)
  IsConfigured (by_http url s) =
      (cfg.grpc_addr ≡ "")
      × (url ≡ String.◌++◌ "http://" cfg.addr)
      × (s.key ≡ cfg.key)
      × (s.local_ip ≡ detect_local_ipv4 addrs)
      × (((cfg.crypto_key ≡ "") × (s.pub_key ≡ none))
          ⊎ ((cfg.crypto_key ≢ "")
              × (k : Ciphers Block) × (load_public_key keys cfg.crypto_key ≡ ok k)
              × (s.pub_key ≡ some k)))

  abbrev pub KeyOf : Option (Ciphers Block) → Type 0
  KeyOf key =
      ((cfg.crypto_key ≡ "") × (key ≡ none))
      ⊎ ((cfg.crypto_key ≢ "")
          × (k : Ciphers Block) × (load_public_key keys cfg.crypto_key ≡ ok k)
          × (key ≡ some k))

  public_key-KeyOf :
      (key : Option (Ciphers Block)) → public_key keys dial addrs cfg ≡ ok key → KeyOf key
  unfolding public_key
  public_key-KeyOf key e = elim (Bool-cases (cfg.crypto_key == "")) [
    | inl unset ↦ inl ((eq_iff cfg.crypto_key "").0 unset, ground arith)
    | inr set ↦ elim (Result-cases (load_public_key keys cfg.crypto_key)) [
      | inl (x, failed) ↦ absurd (ground arith)
      | inr (k, loaded) ↦
          inr (λ same. ground (arith, eq_iff cfg.crypto_key ""), k, loaded, ground arith)
    ]
  ]

  new_with_sender-run :
      (sender : BatchSender Block) (a : Agent Block)
      → or_fatal
          (new_with_sender sender
            (seconds cfg.poll_interval)
            (seconds cfg.report_interval)
            cfg.rate_limit)
          run
        ≡ runs a
      → (a.sender ≡ sender)
        × (above_zero a.rate_limit ≡ true)
        × (above_zero a.poll_interval ≡ true)
        × (above_zero a.report_interval ≡ true)
  unfolding new_with_sender run
  new_with_sender-run sender a e = ground arith

  build_agent-IsConfigured :
      (key : Option (Ciphers Block)) (a : Agent Block)
      → KeyOf key
      → build_agent keys dial addrs cfg key ≡ runs a
      → IsConfigured a.sender
        × (above_zero a.rate_limit ≡ true)
        × (above_zero a.poll_interval ≡ true)
        × (above_zero a.report_interval ≡ true)
  unfolding build_agent new_grpc_sender new_with_config new_sender
  build_agent-IsConfigured key a known e = elim (Bool-cases (cfg.grpc_addr == "")) [
    | inl unset ↦
        let started =
          new_with_sender-run
            (by_http (String.◌++◌ "http://" cfg.addr) (new_sender cfg.key key addrs)) a
            (rw unset at e) in
        (
          subst IsConfigured (sym started.0)
              ((eq_iff cfg.grpc_addr "").0 unset, refl, refl, refl, known),
          started.1,
          started.2,
          started.3,
        )
    | inr set ↦ elim (Option-cases (dial cfg.grpc_addr)) [
      | inr (x, failed) ↦ absurd (ground arith)
      | inl dialled ↦
          let started =
            new_with_sender-run
              (by_grpc (record { addr = cfg.grpc_addr; local_ip = detect_local_ipv4 addrs })) a
              (ground arith) in
          (
            subst IsConfigured (sym started.0)
                (λ same. ground (arith, eq_iff cfg.grpc_addr ""), refl, refl),
            started.1,
            started.2,
            started.3,
          )
    ]
  ]

module _ {Block Priv : Type 0} (keys : KeyLib (Ciphers Block) Priv) (dial : String → Option GoError)
    (addrs : Result (List NetAddr)) where
  -- Whenever the agent gets to run its loops, its settings were read, its rate limit and its two
  -- intervals are positive, and it has the transport that the settings name: with a gRPC address, a
  -- sender for that address and with no key, whatever keys are set; with none, an HTTP sender with
  -- the signing key and, exactly if a path is set, with the public key that was loaded from it.
  pub main-IsConfigured :
      (parsed : Result AgentConfig) (logger : Option GoError) (a : Agent Block)
      → main keys dial addrs parsed logger ≡ runs a
      → (cfg : AgentConfig) × (parsed ≡ ok cfg)
        × IsConfigured keys dial addrs cfg a.sender
        × (above_zero a.rate_limit ≡ true)
        × (above_zero a.poll_interval ≡ true)
        × (above_zero a.report_interval ≡ true)
  unfolding main
  main-IsConfigured (err e) logger a h = cc
  main-IsConfigured (ok cfg) (some e) a h = cc
  main-IsConfigured (ok cfg) none a h = elim (Result-cases (public_key keys dial addrs cfg)) [
    | inl (x, failed) ↦ absurd (ground arith)
    | inr (key, loaded) ↦
        let all =
          build_agent-IsConfigured keys dial addrs cfg key a
            (public_key-KeyOf keys dial addrs cfg key loaded) (ground arith) in
        (cfg, refl, all.0, all.1, all.2, all.3)
  ]

-- ===== src/Server/Guarded.antt =====
-- A server that listens has every guard that its settings ask for.
use mathlib.Core.Path.{subst}
use go_yandex_practicum_metr.Prelude.{
  ℕ, String, ◌==◌, eq_iff, Bool, true, false, Option, none, some, ◌≡◌, ◌≢◌, ◌⊎◌, inl, inr, refl,
  arith, Bool-cases, Option-cases, List, [], ◌∷◌,
}
use go_yandex_practicum_metr.GoError.{Result, ok, err, Result-cases}
use go_yandex_practicum_metr.FloatText.{FloatText}
use go_yandex_practicum_metr.Crypto.{Ciphers, or_wrap}
use go_yandex_practicum_metr.Crypto.Keys.{KeyLib, load_private_key}
use go_yandex_practicum_metr.Retry.{RetryLib}
use go_yandex_practicum_metr.Repository.Json.{Json}
use go_yandex_practicum_metr.Repository.Database.{PgLib}
use go_yandex_practicum_metr.Middleware.{HttpLib}
use go_yandex_practicum_metr.Audit.{
  Observer, to_file, to_url, FileObserver, Publisher, build_audit_publisher,
}
use go_yandex_practicum_metr.Config.Server.{ServerConfig}
use go_yandex_practicum_metr.Server.{open_storage, open_service}
use go_yandex_practicum_metr.Server.Start.{
  Running, up, Environment, parsed_subnet, private_key, start_grpc, wire, start_server,
}

module _ {Block Pub : Type 0} (keys : KeyLib Pub (Ciphers Block)) where
  -- No key for an empty setting, and otherwise the one that was loaded.
  abbrev pub KeyOf : String → Option (Ciphers Block) → Type 0
  KeyOf path key =
      ((path ≡ "") × (key ≡ none))
      ⊎ ((path ≢ "") × (k : Ciphers Block) × (load_private_key keys path ≡ ok k) × (key ≡ some k))

  private_key-KeyOf :
      (cfg : ServerConfig) (key : Option (Ciphers Block))
      → private_key keys cfg ≡ ok key
      → KeyOf cfg.crypto_key key
  unfolding private_key
  private_key-KeyOf cfg key e = elim (Bool-cases (cfg.crypto_key == "")) [
    | inl unset ↦ inl ((eq_iff cfg.crypto_key "").0 unset, ground arith)
    | inr set ↦ elim (Result-cases (load_private_key keys cfg.crypto_key)) [
      | inl (x, failed) ↦ absurd (ground arith)
      | inr (k, loaded) ↦
          inr (λ same. ground (arith, eq_iff cfg.crypto_key ""), k, loaded, ground arith)
    ]
  ]

module _ {Ip : Type 0} (lib : HttpLib Ip) where
  -- No subnet for an empty setting, and otherwise the one that was parsed.
  abbrev pub SubnetOf : String → Option (Ip → Bool) → Type 0
  SubnetOf cidr subnet =
      ((cidr ≡ "") × (subnet ≡ none))
      ⊎ ((cidr ≢ "")
          × (network : Ip → Bool) × (lib.parse_cidr cidr ≡ ok network)
          × (subnet ≡ some network))

  parsed_subnet-SubnetOf :
      (cidr : String) (subnet : Option (Ip → Bool))
      → parsed_subnet lib cidr ≡ ok subnet
      → SubnetOf cidr subnet
  unfolding parsed_subnet or_wrap
  parsed_subnet-SubnetOf cidr subnet e = elim (Bool-cases (cidr == "")) [
    | inl unset ↦ inl ((eq_iff cidr "").0 unset, ground arith)
    | inr set ↦ elim (Result-cases (lib.parse_cidr cidr)) [
      | inl (x, failed) ↦ absurd (ground arith)
      | inr (network, parsed) ↦
          inr (λ same. ground (arith, eq_iff cidr ""), network, parsed, ground arith)
    ]
  ]

-- A publisher with these observers, which logs.
abbrev pub publishes_to : List Observer → Option Publisher
publishes_to observers = some (record { observers = observers; logged = some [] })

-- The observer that posts to a URL, to a server that answers so, and has posted nothing yet.
abbrev pub posting_to : String → List (Result ℕ) → Observer
posting_to url answers = to_url (record { url = url; posted = []; answers = answers })

-- No publisher where neither a file nor a URL is set for the audit, and otherwise one with exactly
-- the observers that are set: the file as it was opened, then the URL.
abbrev pub IsAudited : {Text : Type 0} → Environment Text → ServerConfig → Option Publisher → Type 0
IsAudited env cfg p =
    ((cfg.audit_file ≡ "") × (cfg.audit_url ≡ "") × (p ≡ none))
    ⊎ ((cfg.audit_file ≡ "")
        × (cfg.audit_url ≢ "")
        × (p ≡ publishes_to (posting_to cfg.audit_url env.audit_answers ∷ [])))
    ⊎ ((cfg.audit_file ≢ "")
        × (cfg.audit_url ≡ "")
        × (f : FileObserver) × (env.audit_opened ≡ ok f)
        × (p ≡ publishes_to (to_file f ∷ [])))
    ⊎ ((cfg.audit_file ≢ "")
        × (cfg.audit_url ≢ "")
        × (f : FileObserver) × (env.audit_opened ≡ ok f)
        × (p ≡ publishes_to (to_file f ∷ posting_to cfg.audit_url env.audit_answers ∷ [])))

set_text : (s : String) → (s == "") ≡ false → s ≢ ""
set_text s e same = ground (arith, eq_iff s "")

unset_text : (s : String) → (s == "") ≡ true → s ≡ ""
unset_text s e = (eq_iff s "").0 e

module _ {Text : Type 0} (env : Environment Text) (cfg : ServerConfig) (p : Option Publisher)
    (built : build_audit_publisher cfg env.audit_opened env.audit_answers ≡ ok p) where
  without_file : (cfg.audit_file == "") ≡ true → IsAudited env cfg p
  unfolding build_audit_publisher
  without_file no_file = elim (Bool-cases (cfg.audit_url == "")) [
    | inl no_url ↦
        inl (unset_text cfg.audit_file no_file, unset_text cfg.audit_url no_url, ground arith)
    | inr url ↦
        inr (inl (unset_text cfg.audit_file no_file, set_text cfg.audit_url url, ground arith))
  ]

  with_file :
      (cfg.audit_file == "") ≡ false
      → (f : FileObserver) → env.audit_opened ≡ ok f
      → IsAudited env cfg p
  unfolding build_audit_publisher
  with_file file f opened = elim (Bool-cases (cfg.audit_url == "")) [
    | inl no_url ↦ inr (
        inr (
          inl (
            set_text cfg.audit_file file,
            unset_text cfg.audit_url no_url,
            f,
            opened,
            ground arith,
          )))
    | inr url ↦ inr (
        inr
          (inr (set_text cfg.audit_file file, set_text cfg.audit_url url, f, opened, ground arith)))
  ]

  publisher-IsAudited : IsAudited env cfg p
  unfolding build_audit_publisher
  publisher-IsAudited = elim (Bool-cases (cfg.audit_file == "")) [
    | inl no_file ↦ without_file no_file
    | inr file ↦ elim (Result-cases env.audit_opened) [
      | inl (x, failed) ↦ absurd (ground arith)
      | inr (f, opened) ↦ with_file file f opened
    ]
  ]

module _ {Text Ip Block Pub : Type 0} (json : Json Text) (retry : RetryLib) (pg : PgLib)
    (ft : FloatText) (lib : HttpLib Ip) (keys : KeyLib Pub (Ciphers Block)) where
  -- What a server that listens has of its settings.
  pub record IsGuarded (env : Environment Text) (cfg : ServerConfig) (r : Running Text Ip Block)
      : Type 0 where
    pub same_cfg : r.cfg ≡ cfg
    pub keyed : KeyOf keys cfg.crypto_key r.priv_key
    pub fenced : SubnetOf lib cfg.trusted_subnet r.subnet
    pub audited : IsAudited env cfg r.publisher
    pub mirrored :
        ((cfg.grpc_addr ≡ "") × (r.grpc ≡ none)) ⊎ ((cfg.grpc_addr ≢ "") × (r.grpc ≡ some r.subnet))

  start_grpc-IsGuarded :
      (env : Environment Text) (r s : Running Text Ip Block)
      → KeyOf keys r.cfg.crypto_key r.priv_key
      → parsed_subnet lib r.cfg.trusted_subnet ≡ ok r.subnet
      → IsAudited env r.cfg r.publisher
      → r.grpc ≡ none
      → start_grpc json retry pg ft lib keys env r ≡ up s
      → IsGuarded env r.cfg s
  unfolding start_grpc
  start_grpc-IsGuarded env r s key net audit no_grpc e = elim (Bool-cases (r.cfg.grpc_addr == "")) [
    | inl unset ↦
        let same : r ≡ s = ground arith in
        subst (IsGuarded env r.cfg) same (record {
          same_cfg = refl;
          keyed = key;
          fenced = parsed_subnet-SubnetOf lib r.cfg.trusted_subnet r.subnet net;
          audited = audit;
          mirrored = inl ((eq_iff r.cfg.grpc_addr "").0 unset, no_grpc);
        })
    | inr set ↦ elim (Option-cases env.listened) [
      | inr (x, failed) ↦ absurd (ground (arith, net))
      | inl listens ↦
          let same : record r { grpc = some r.subnet } ≡ s = ground (arith, net) in
          subst (IsGuarded env r.cfg) same (record {
            same_cfg = refl;
            keyed = key;
            fenced = parsed_subnet-SubnetOf lib r.cfg.trusted_subnet r.subnet net;
            audited = audit;
            mirrored = inr (λ same. ground (arith, eq_iff r.cfg.grpc_addr ""), refl);
          })
    ]
  ]

  -- A server only gets to listen with every guard that its settings ask for: the private key that
  -- was loaded from the path, if one is set; the subnet that was parsed, if one is set, over HTTP
  -- and, where there is a gRPC address, over gRPC as well; and no audit publisher if
  -- neither a file nor a URL is set for the audit, and otherwise one with exactly the observers that
  -- are set, the file first. What cannot be loaded, parsed or opened ends the process.
  pub start_server-IsGuarded :
      (env : Environment Text) (parsed : Result ServerConfig) (r : Running Text Ip Block)
      → start_server json retry pg ft lib keys env parsed ≡ up r
      → (cfg : ServerConfig) × (parsed ≡ ok cfg) × IsGuarded env cfg r
  unfolding start_server wire start_grpc
  start_server-IsGuarded env (err x) r e = cc
  start_server-IsGuarded env (ok cfg) r e = elim (Option-cases env.logger) [
    | inr (x, failed) ↦ absurd (ground arith)
    | inl logs ↦ (cfg, refl, wired (rw logs at e))
  ]
    where
      wired :
          wire json retry pg ft lib keys env cfg (open_storage json cfg env.connected env.disk)
            ≡ up r
          → IsGuarded env cfg r
      wired w = elim (Result-cases (build_audit_publisher cfg env.audit_opened env.audit_answers)) [
        | inl (x, failed) ↦ absurd (ground arith)
        | inr (p, published) ↦ elim (Result-cases (private_key keys cfg)) [
          | inl (x, failed) ↦ absurd (ground arith)
          | inr (k, loaded) ↦ elim (Result-cases (parsed_subnet lib cfg.trusted_subnet)) [
            | inl (x, failed) ↦ absurd (ground arith)
            | inr (net, fenced) ↦
                start_grpc-IsGuarded env
                  (record {
                    cfg = cfg;
                    backend = open_storage json cfg env.connected env.disk;
                    svc =
                        open_service json retry pg ft cfg
                          (open_storage json cfg env.connected env.disk);
                    publisher = p;
                    priv_key = k;
                    subnet = net;
                    grpc = none;
                  })
                  r (private_key-KeyOf keys cfg k loaded) fenced
                  (publisher-IsAudited env cfg p published) refl (ground arith)
          ]
        ]
      ]

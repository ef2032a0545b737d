-- ===== src/Config/ServerPrecedence.antt =====
-- Where a setting of the server comes from.
use mathlib.Core.Path.{subst}
use go_yandex_practicum_metr.Prelude.{
  String, true, Option, none, some, get_or, List, [], ◌∷◌, ◌≡◌, sym,
}
use go_yandex_practicum_metr.GoError.{Result, ok}
use go_yandex_practicum_metr.Int64.{parse_int}
use go_yandex_practicum_metr.Config.{ConfigLib, file_seconds, converted}
use go_yandex_practicum_metr.Config.Precedence.{
  first_of, IsParsed, ok_inj, or_fail-ok, or_wrap-ok_same, seconds-IsParsed, first_of-eq,
}
use go_yandex_practicum_metr.Config.Server.{
  ServerConfig, ServerFile, server_file, server_env, parse_server_config,
}

-- A setting that only the environment gives as text.
abbrev pub IsRead {ℓ} : {A : Type ℓ} → (String → Result A) → Option String → A → A → Type ℓ
IsRead parse (some env) d v = parse env ≡ ok v
IsRead parse none d v = v ≡ d

converted-IsRead {ℓ} :
    {A : Type ℓ}
    → (parse : String → Result A) (message : String) (env : Option String) (flag file : Option A)
      (d v : A)
    → converted parse message env (get_or flag (get_or file d)) ≡ ok v
    → IsRead parse env (first_of (flag ∷ file ∷ []) d) v
unfolding converted
converted-IsRead parse m (some env) flag file d v e = or_wrap-ok_same m (parse env) v e
converted-IsRead parse m none (some x) file d v e = ok_inj v x (sym e)
converted-IsRead parse m none none (some x) d v e = ok_inj v x (sym e)
converted-IsRead parse m none none none d v e = ok_inj v d (sym e)

-- Every setting of the server, by its sources.
pub record IsServerSetting (lib : ConfigLib) (args : List String) (fc : ServerFile)
    (cfg : ServerConfig) : Type 0 where
  pub addr :
      cfg.addr
      ≡ first_of
          (lib.lookup_env "ADDRESS" ∷ lib.string_flag args "a" ∷ fc.address ∷ [])
          "localhost:8080"
  pub file_storage_path :
      cfg.file_storage_path
      ≡ first_of
          (lib.lookup_env "FILE_STORAGE_PATH" ∷ lib.string_flag args "f" ∷ fc.store_file ∷ [])
          "/tmp/metrics-db.json"
  pub database_dsn :
      cfg.database_dsn
      ≡ first_of
          (lib.lookup_env "DATABASE_DSN" ∷ lib.string_flag args "d" ∷ fc.database_dsn ∷ [])
          ""
  pub key : cfg.key ≡ first_of (lib.lookup_env "KEY" ∷ lib.string_flag args "k" ∷ none ∷ []) ""
  pub audit_file :
      cfg.audit_file
      ≡ first_of (lib.lookup_env "AUDIT_FILE" ∷ lib.string_flag args "audit-file" ∷ none ∷ []) ""
  pub audit_url :
      cfg.audit_url
      ≡ first_of (lib.lookup_env "AUDIT_URL" ∷ lib.string_flag args "audit-url" ∷ none ∷ []) ""
  pub crypto_key :
      cfg.crypto_key
      ≡ first_of
          (lib.lookup_env "CRYPTO_KEY" ∷ lib.string_flag args "crypto-key" ∷ fc.crypto_key ∷ [])
          ""
  pub trusted_subnet :
      cfg.trusted_subnet
      ≡ first_of
          (lib.lookup_env "TRUSTED_SUBNET" ∷ lib.string_flag args "t" ∷ fc.trusted_subnet ∷ [])
          ""
  pub grpc_addr :
      cfg.grpc_addr
      ≡ first_of
          (lib.lookup_env "GRPC_ADDRESS"
            ∷ lib.string_flag args "grpc-address"
            ∷ fc.grpc_address
            ∷ [])
          ""
  pub store_interval :
      IsParsed parse_int lib.parse_seconds
        (lib.lookup_env "STORE_INTERVAL")
        (lib.int_flag args "i")
        fc.store_interval
        300
        cfg.store_interval
  pub restore :
      IsRead lib.parse_bool
        (lib.lookup_env "RESTORE")
        (first_of (lib.bool_flag args "r" ∷ fc.restore ∷ []) true)
        cfg.restore

module _ (lib : ConfigLib) (args : List String) where
  -- When ParseServerConfig returns settings, each of them comes from the environment, else from its
  -- flag, else from the file that the path names, else from its default, whatever the other
  -- settings come from; a number and a truth value of the environment are its parsed text.
  pub parse_server_config-IsServerSetting :
      (unmarshal : String → Result ServerFile) (cfg : ServerConfig)
      → parse_server_config lib unmarshal args ≡ ok cfg
      → (fc : ServerFile) × (server_file lib unmarshal args ≡ ok fc)
        × IsServerSetting lib args fc cfg
  unfolding parse_server_config server_env
  parse_server_config-IsServerSetting unmarshal cfg e =
      let (fc, read, e1) = or_fail-ok (server_file lib unmarshal args) _ cfg e in
      let (interval_d, interval_file, e2) =
        or_fail-ok (file_seconds lib fc.store_interval 300) _ cfg e1 in
      let (interval, interval_env, e3) = or_fail-ok _ _ cfg e2 in
      let (restore, restore_env, e4) = or_fail-ok _ _ cfg e3 in
      (
        fc,
        read,
        subst (λ c. IsServerSetting lib args fc c) (ok_inj _ cfg e4)
            (record {
              addr =
                  first_of-eq (lib.lookup_env "ADDRESS") (lib.string_flag args "a") fc.address
                    "localhost:8080";
              file_storage_path =
                  first_of-eq (lib.lookup_env "FILE_STORAGE_PATH") (lib.string_flag args "f")
                    fc.store_file "/tmp/metrics-db.json";
              database_dsn =
                  first_of-eq (lib.lookup_env "DATABASE_DSN") (lib.string_flag args "d")
                    fc.database_dsn "";
              key = first_of-eq (lib.lookup_env "KEY") (lib.string_flag args "k") none "";
              audit_file =
                  first_of-eq (lib.lookup_env "AUDIT_FILE") (lib.string_flag args "audit-file") none
                    "";
              audit_url =
                  first_of-eq (lib.lookup_env "AUDIT_URL") (lib.string_flag args "audit-url") none
                    "";
              crypto_key =
                  first_of-eq (lib.lookup_env "CRYPTO_KEY") (lib.string_flag args "crypto-key")
                    fc.crypto_key "";
              trusted_subnet =
                  first_of-eq (lib.lookup_env "TRUSTED_SUBNET") (lib.string_flag args "t")
                    fc.trusted_subnet "";
              grpc_addr =
                  first_of-eq (lib.lookup_env "GRPC_ADDRESS") (lib.string_flag args "grpc-address")
                    fc.grpc_address "";
              store_interval =
                  seconds-IsParsed lib _ _ _ _ 300 interval_d interval interval_file interval_env;
              restore =
                  converted-IsRead lib.parse_bool _ _ (lib.bool_flag args "r") fc.restore true
                    restore restore_env;
            }),
      )

-- ===== src/Config/Server.antt =====
-- ParseServerConfig of internal/config/server.go, and that a setting comes from the environment,
-- else from its flag, else from the file, else from the default.
use go_yandex_practicum_metr.Prelude.{
  String, ◌==◌, Bool, true, Option, none, get_or, List, if◌then◌else◌,
}
use go_yandex_practicum_metr.GoError.{Result, ok}
use go_yandex_practicum_metr.Int64.{Int64, parse_int}
use go_yandex_practicum_metr.Config.{
  ConfigLib, extract_config_path, load_file, string_env, parsed_env, file_seconds, or_fail,
}

pub record ServerConfig : Type 0 where
  pub addr : String
  pub store_interval : Int64
  pub file_storage_path : String
  pub restore : Bool
  pub database_dsn : String
  pub key : String
  pub audit_file : String
  pub audit_url : String
  pub crypto_key : String
  pub trusted_subnet : String
  pub grpc_addr : String

-- serverFile: what is absent in the JSON is `none`
pub record ServerFile : Type 0 where
  pub address : Option String
  pub grpc_address : Option String
  pub restore : Option Bool
  pub store_interval : Option String
  pub store_file : Option String
  pub database_dsn : Option String
  pub crypto_key : Option String
  pub trusted_subnet : Option String

abbrev pub no_file : ServerFile
no_file = record {
  address = none;
  grpc_address = none;
  restore = none;
  store_interval = none;
  store_file = none;
  database_dsn = none;
  crypto_key = none;
  trusted_subnet = none;
}

module _ (lib : ConfigLib) (unmarshal : String → Result ServerFile) (args : List String) where
  -- the file that the settings come from; with no path, no setting is in a file
  unfoldable pub server_file : Result ServerFile
  server_file =
      if extract_config_path lib args == ""
      then ok no_file
      else load_file lib unmarshal (extract_config_path lib args)

  -- fs.Parse, with the defaults that the file has changed
  abbrev pub server_flags : ServerFile → Int64 → ServerConfig
  server_flags fc store_interval_default = record {
    addr = get_or (lib.string_flag args "a") (get_or fc.address "localhost:8080");
    store_interval = get_or (lib.int_flag args "i") store_interval_default;
    file_storage_path =
        get_or (lib.string_flag args "f") (get_or fc.store_file "/tmp/metrics-db.json");
    restore = get_or (lib.bool_flag args "r") (get_or fc.restore true);
    database_dsn = get_or (lib.string_flag args "d") (get_or fc.database_dsn "");
    key = get_or (lib.string_flag args "k") "";
    audit_file = get_or (lib.string_flag args "audit-file") "";
    audit_url = get_or (lib.string_flag args "audit-url") "";
    crypto_key = get_or (lib.string_flag args "crypto-key") (get_or fc.crypto_key "");
    trusted_subnet = get_or (lib.string_flag args "t") (get_or fc.trusted_subnet "");
    grpc_addr = get_or (lib.string_flag args "grpc-address") (get_or fc.grpc_address "");
  }

  -- the part of ParseServerConfig that follows fs.Parse
  unfoldable pub server_env : ServerConfig → Result ServerConfig
  server_env cfg =
      or_fail (parsed_env lib parse_int "STORE_INTERVAL" cfg.store_interval) (λ interval.
        or_fail (parsed_env lib lib.parse_bool "RESTORE" cfg.restore) (λ restore. ok (record {
          addr = string_env lib "ADDRESS" cfg.addr;
          store_interval = interval;
          file_storage_path = string_env lib "FILE_STORAGE_PATH" cfg.file_storage_path;
          restore = restore;
          database_dsn = string_env lib "DATABASE_DSN" cfg.database_dsn;
          key = string_env lib "KEY" cfg.key;
          audit_file = string_env lib "AUDIT_FILE" cfg.audit_file;
          audit_url = string_env lib "AUDIT_URL" cfg.audit_url;
          crypto_key = string_env lib "CRYPTO_KEY" cfg.crypto_key;
          trusted_subnet = string_env lib "TRUSTED_SUBNET" cfg.trusted_subnet;
          grpc_addr = string_env lib "GRPC_ADDRESS" cfg.grpc_addr;
        })))

  -- ParseServerConfig
  unfoldable pub parse_server_config : Result ServerConfig
  parse_server_config = or_fail server_file (λ fc.
      or_fail (file_seconds lib fc.store_interval 300)
        (λ interval. server_env (server_flags fc interval)))

-- ===== src/Examples/Settings.antt =====
-- The configuration at concrete inputs.
use go_yandex_practicum_metr.Prelude.{
  String, ◌==◌, false, none, some, List, [], ◌∷◌, ◌≡◌, refl, if◌then◌else◌,
}
use go_yandex_practicum_metr.GoError.{ok}
use go_yandex_practicum_metr.Int64.{parse_int, parse_uint, scan}
use go_yandex_practicum_metr.Crypto.{or_wrap}
use go_yandex_practicum_metr.Config.{
  ConfigLib, after_prefix, config_value, scan_args, extract_config_path, load_file, converted,
  file_seconds, or_fail,
}
use go_yandex_practicum_metr.Config.Server.{
  ServerConfig, ServerFile, no_file, server_file, server_env, parse_server_config,
}
use go_yandex_practicum_metr.Config.Agent.{
  AgentConfig, AgentFile, no_agent_file, agent_file, agent_env, parse_agent_config,
}
use go_yandex_practicum_metr.Config.Precedence.{IsAgentSetting, parse_agent_config-IsAgentSetting}
use go_yandex_practicum_metr.Config.ServerPrecedence.{
  IsServerSetting, parse_server_config-IsServerSetting,
}

-- The environment sets KEY, POLL_INTERVAL and STORE_INTERVAL, and the arguments set -k and -i.
abbrev config_lib : ConfigLib
config_lib = record {
  lookup_env = λ name.
      if name == "KEY"
      then some "from env"
      else if name == "POLL_INTERVAL"
      then some "7"
      else if name == "STORE_INTERVAL"
      then some "60"
      else none;
  string_flag = λ args name. if name == "k" then some "from flag" else none;
  int_flag = λ args name. if name == "i" then some 5 else none;
  bool_flag = λ args name. none;
  parse_seconds = parse_int;
  parse_bool = λ s. ok (s == "true");
  read_file = ok;
}

abbrev arguments : List String
arguments = "-k" ∷ "from flag" ∷ "-i" ∷ "5" ∷ "--config=conf.json" ∷ []

extract_config_path_run : extract_config_path config_lib arguments ≡ "conf.json"
unfolding extract_config_path scan_args config_value after_prefix
extract_config_path_run = refl

abbrev agent_settings : AgentFile
agent_settings = record no_agent_file { address = some "files:80"; poll_interval = some "3" }

abbrev agent_config : AgentConfig
agent_config = record {
  addr = "files:80";
  poll_interval = 7;
  report_interval = 10;
  key = "from env";
  rate_limit = 1;
  crypto_key = "";
  grpc_addr = "";
}

parse_agent_config-IsAgentSetting_example :
    (fc : AgentFile) × (agent_file config_lib (λ text. ok agent_settings) arguments ≡ ok fc)
    × IsAgentSetting config_lib arguments fc agent_config
unfolding parse_agent_config agent_env agent_file extract_config_path scan_args config_value
    after_prefix load_file converted file_seconds or_fail or_wrap parse_int parse_uint scan
parse_agent_config-IsAgentSetting_example =
    parse_agent_config-IsAgentSetting config_lib arguments (λ text. ok agent_settings) agent_config
      refl

abbrev server_settings : ServerFile
server_settings = record no_file {
  restore = some false;
  store_interval = some "9";
  store_file = some "metrics.json";
}

abbrev server_config : ServerConfig
server_config = record {
  addr = "localhost:8080";
  store_interval = 60;
  file_storage_path = "metrics.json";
  restore = false;
  database_dsn = "";
  key = "from env";
  audit_file = "";
  audit_url = "";
  crypto_key = "";
  trusted_subnet = "";
  grpc_addr = "";
}

parse_server_config-IsServerSetting_example :
    (fc : ServerFile) × (server_file config_lib (λ text. ok server_settings) arguments ≡ ok fc)
    × IsServerSetting config_lib arguments fc server_config
unfolding parse_server_config server_env server_file extract_config_path scan_args config_value
    after_prefix load_file converted file_seconds or_fail or_wrap parse_int parse_uint scan
parse_server_config-IsServerSetting_example =
    parse_server_config-IsServerSetting config_lib arguments (λ text. ok server_settings)
      server_config refl

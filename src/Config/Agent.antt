-- ===== src/Config/Agent.antt =====
-- ParseAgentConfig of internal/config/agent.go.
use go_yandex_practicum_metr.Prelude.{String, ◌==◌, Option, none, get_or, List, if◌then◌else◌}
use go_yandex_practicum_metr.GoError.{Result, ok}
use go_yandex_practicum_metr.Int64.{Int64, parse_int}
use go_yandex_practicum_metr.Config.{
  ConfigLib, extract_config_path, load_file, string_env, parsed_env, file_seconds, or_fail,
}

pub record AgentConfig : Type 0 where
  pub addr : String
  pub poll_interval : Int64
  pub report_interval : Int64
  pub key : String
  pub rate_limit : Int64
  pub crypto_key : String
  pub grpc_addr : String

-- agentFile
pub record AgentFile : Type 0 where
  pub address : Option String
  pub grpc_address : Option String
  pub report_interval : Option String
  pub poll_interval : Option String
  pub crypto_key : Option String

abbrev pub no_agent_file : AgentFile
no_agent_file = record {
  address = none;
  grpc_address = none;
  report_interval = none;
  poll_interval = none;
  crypto_key = none;
}

module _ (lib : ConfigLib) (unmarshal : String → Result AgentFile) (args : List String) where
  unfoldable pub agent_file : Result AgentFile
  agent_file =
      if extract_config_path lib args == ""
      then ok no_agent_file
      else load_file lib unmarshal (extract_config_path lib args)

  -- fs.Parse, with the defaults that the file has changed
  abbrev pub agent_flags : AgentFile → Int64 → Int64 → AgentConfig
  agent_flags fc poll_default report_default = record {
    addr = get_or (lib.string_flag args "a") (get_or fc.address "localhost:8080");
    poll_interval = get_or (lib.int_flag args "p") poll_default;
    report_interval = get_or (lib.int_flag args "r") report_default;
    key = get_or (lib.string_flag args "k") "";
    rate_limit = get_or (lib.int_flag args "l") 1;
    crypto_key = get_or (lib.string_flag args "crypto-key") (get_or fc.crypto_key "");
    grpc_addr = get_or (lib.string_flag args "grpc-address") (get_or fc.grpc_address "");
  }

  -- the part of ParseAgentConfig that follows fs.Parse
  unfoldable pub agent_env : AgentConfig → Result AgentConfig
  agent_env cfg =
      or_fail (parsed_env lib parse_int "REPORT_INTERVAL" cfg.report_interval) (λ report.
        or_fail (parsed_env lib parse_int "POLL_INTERVAL" cfg.poll_interval) (λ poll.
          or_fail (parsed_env lib parse_int "RATE_LIMIT" cfg.rate_limit) (λ limit. ok (record {
            addr = string_env lib "ADDRESS" cfg.addr;
            poll_interval = poll;
            report_interval = report;
            key = string_env lib "KEY" cfg.key;
            rate_limit = limit;
            crypto_key = string_env lib "CRYPTO_KEY" cfg.crypto_key;
            grpc_addr = string_env lib "GRPC_ADDRESS" cfg.grpc_addr;
          }))))

  -- ParseAgentConfig
  unfoldable pub parse_agent_config : Result AgentConfig
  parse_agent_config = or_fail agent_file (λ fc.
      or_fail (file_seconds lib fc.poll_interval 2) (λ poll.
        or_fail (file_seconds lib fc.report_interval 10)
          (λ report. agent_env (agent_flags fc poll report))))

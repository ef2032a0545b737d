-- ===== src/Config.antt =====
-- internal/config: the settings of the server and of the agent from the environment, the flags, an
-- optional JSON file and fixed defaults. The flag package, the file system, encoding/json,
-- ParseDuration and ParseBool are parameters; a setting in seconds is an int of 64 bits.
pub mod Server
pub mod Agent
pub mod Precedence
pub mod ServerPrecedence
use Prim.Native.String
use go_yandex_practicum_metr.Prelude.{
  String, ◌==◌, Bool, ◌||◌, Option, none, some, get_or, List, [], ◌∷◌, if◌then◌else◌, not, ◌&&◌,
}
use go_yandex_practicum_metr.GoError.{GoError, Result, ok, err, wrap}
use go_yandex_practicum_metr.Int64.{Int64, parse_int}
use go_yandex_practicum_metr.Crypto.{or_wrap}

-- `string_flag args name` and the like: what Parse of `args` sets the flag to, if it does.
-- `parse_seconds` is ParseDuration and the whole seconds of the result.
pub record ConfigLib : Type 0 where
  pub lookup_env : String → Option String
  pub string_flag : List String → String → Option String
  pub int_flag : List String → String → Option Int64
  pub bool_flag : List String → String → Option Bool
  pub parse_seconds : String → Result Int64
  pub parse_bool : String → Result Bool
  pub read_file : String → Result String

-- `if strings.HasPrefix(s, p) { strings.TrimPrefix(s, p) }`
unfoldable pub after_prefix : String → String → Option String
after_prefix String.[] s = some s
after_prefix (String.◌∷◌ c p) String.[] = none
after_prefix (String.◌∷◌ c p) (String.◌∷◌ d s) =
    let rest = after_prefix p s in if String.◌∷◌ c "" == String.◌∷◌ d "" then rest else none

-- the three forms with `=`, in the order of the cases
unfoldable pub config_value : String → Option String
config_value a = elim (after_prefix "-c=" a) [
  | some v ↦ some v
  | none ↦ elim (after_prefix "-config=" a) [ some v ↦ some v | none ↦ after_prefix "--config=" a ]
]

abbrev pub is_config_flag : String → Bool
is_config_flag a = a == "-c" || a == "-config" || a == "--config"

-- the loop of extractConfigPath
unfoldable pub scan_args : List String → String
scan_args [] = ""
scan_args (a ∷ []) = if is_config_flag a then "" else get_or (config_value a) ""
scan_args (a ∷ b ∷ args) =
    let rest = scan_args (b ∷ args) in if is_config_flag a then b else get_or (config_value a) rest

-- `if err != nil { return ServerConfig{}, err }`
unfoldable pub or_fail {ℓ κ} : {A : Type ℓ} → {B : Type κ} → Result A → (A → Result B) → Result B
or_fail (err e) f = err e
or_fail (ok a) f = f a

unfoldable pub converted {ℓ} :
    {A : Type ℓ} → (String → Result A) → String → Option String → A → Result A
converted parse message none current = ok current
converted parse message (some env) current = or_wrap message (parse env) ok

module _ (lib : ConfigLib) where
  -- extractConfigPath
  unfoldable pub extract_config_path : List String → String
  extract_config_path args = elim (lib.lookup_env "CONFIG") [
    | none ↦ scan_args args
    | some env ↦ if env == "" then scan_args args else env
  ]

  -- loadServerFile and loadAgentFile
  unfoldable pub load_file {ℓ} : {F : Type ℓ} → (String → Result F) → String → Result F
  load_file unmarshal path =
      or_wrap "read config" (lib.read_file path)
        (λ bytes. or_wrap "parse config" (unmarshal bytes) ok)

  -- `if env, ok := os.LookupEnv(name); ok { cfg.X = env }`
  abbrev pub string_env : String → String → String
  string_env name current = get_or (lib.lookup_env name) current

  -- the same with a conversion that may fail
  abbrev pub parsed_env {ℓ} : {A : Type ℓ} → (String → Result A) → String → A → Result A
  parsed_env parse name current =
      converted parse (String.◌++◌ "invalid " name) (lib.lookup_env name) current

  -- `if fc.X != nil { ... time.ParseDuration(*fc.X) ... }`
  unfoldable pub file_seconds : Option String → Int64 → Result Int64
  file_seconds none default = ok default
  file_seconds (some text) default = or_wrap "invalid interval" (lib.parse_seconds text) ok

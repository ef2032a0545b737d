-- ===== src/Config/Precedence.antt =====
-- Where a setting comes from: the environment, else the flag, else the file, else the default.
use mathlib.Core.Path.{subst}
use go_yandex_practicum_metr.Prelude.{
  String, Option, none, some, get_or, List, [], ◌∷◌, ◌≡◌, refl, sym, ◌∙◌,
}
use go_yandex_practicum_metr.GoError.{Result, ok, err}
use go_yandex_practicum_metr.Int64.{Int64, parse_int}
use go_yandex_practicum_metr.Crypto.Envelope.{or_wrap-ok}
use go_yandex_practicum_metr.Crypto.{or_wrap}
use go_yandex_practicum_metr.Config.{ConfigLib, file_seconds, or_fail, converted}
use go_yandex_practicum_metr.Config.Agent.{
  AgentConfig, AgentFile, agent_file, agent_env, parse_agent_config,
}

-- The first of the layers that has a value, else the default.
abbrev pub first_of {ℓ} : {A : Type ℓ} → List (Option A) → A → A
first_of [] d = d
first_of (none ∷ os) d = first_of os d
first_of (some a ∷ os) d = a

-- The same for a setting that the environment and the file give as text, to be parsed.
abbrev pub IsParsed {ℓ} :
    {A : Type ℓ}
    → (String → Result A)
    → (String → Result A)
    → Option String
    → Option A
    → Option String
    → A
    → A
    → Type ℓ
IsParsed parse_env parse_file (some env) flag file d v = parse_env env ≡ ok v
IsParsed parse_env parse_file none (some flag) file d v = v ≡ flag
IsParsed parse_env parse_file none none (some file) d v = parse_file file ≡ ok v
IsParsed parse_env parse_file none none none d v = v ≡ d

pub ok_inj {ℓ} : {A : Type ℓ} → (x y : A) → ok x ≡ ok y → x ≡ y
ok_inj x y e = cc

pub or_fail-ok {ℓ κ} :
    {A : Type ℓ}
    → {B : Type κ} → (r : Result A) (f : A → Result B) (b : B) → or_fail r f ≡ ok b
    → (a : A) × (r ≡ ok a) × (f a ≡ ok b)
unfolding or_fail
or_fail-ok (ok a) f b e = (a, refl, e)
or_fail-ok (err g) f b e = cc

pub or_wrap-ok_same {ℓ} :
    {A : Type ℓ} → (p : String) (r : Result A) (v : A) → or_wrap p r ok ≡ ok v → r ≡ ok v
or_wrap-ok_same p r v e = let (a, read, same) = or_wrap-ok p r ok v e in read ∙ same

pub seconds-IsParsed :
    (lib : ConfigLib) (message : String) (env : Option String) (flag : Option Int64)
    (file : Option String) (d fallback v : Int64)
    → file_seconds lib file d ≡ ok fallback
    → converted parse_int message env (get_or flag fallback) ≡ ok v
    → IsParsed parse_int lib.parse_seconds env flag file d v
unfolding converted file_seconds
seconds-IsParsed lib m (some env) flag file d f v a b = or_wrap-ok_same m (parse_int env) v b
seconds-IsParsed lib m none (some x) file d f v a b = ok_inj v x (sym b)
seconds-IsParsed lib m none none (some t) d f v a b =
    or_wrap-ok_same _ (lib.parse_seconds t) f a ∙ b
seconds-IsParsed lib m none none none d f v a b = ok_inj v d (sym (a ∙ b))

pub converted-IsParsed {ℓ} :
    {A : Type ℓ}
    → (parse : String → Result A) (none_read : String → Result A) (message : String)
      (env : Option String) (flag : Option A) (d v : A)
    → converted parse message env (get_or flag d) ≡ ok v
    → IsParsed parse none_read env flag none d v
unfolding converted
converted-IsParsed parse r m (some env) flag d v b = or_wrap-ok_same m (parse env) v b
converted-IsParsed parse r m none (some x) d v b = ok_inj v x (sym b)
converted-IsParsed parse r m none none d v b = ok_inj v d (sym b)

pub first_of-eq {ℓ} :
    {A : Type ℓ}
    → (o p q : Option A) (d : A) → get_or o (get_or p (get_or q d)) ≡ first_of (o ∷ p ∷ q ∷ []) d
first_of-eq (some a) p q d = refl
first_of-eq none (some a) q d = refl
first_of-eq none none (some a) d = refl
first_of-eq none none none d = refl

-- Every setting of the agent, by its sources.
pub record IsAgentSetting (lib : ConfigLib) (args : List String) (fc : AgentFile)
    (cfg : AgentConfig) : Type 0 where
  pub addr :
      cfg.addr
      ≡ first_of
          (lib.lookup_env "ADDRESS" ∷ lib.string_flag args "a" ∷ fc.address ∷ [])
          "localhost:8080"
  pub crypto_key :
      cfg.crypto_key
      ≡ first_of
          (lib.lookup_env "CRYPTO_KEY" ∷ lib.string_flag args "crypto-key" ∷ fc.crypto_key ∷ [])
          ""
  pub grpc_addr :
      cfg.grpc_addr
      ≡ first_of
          (lib.lookup_env "GRPC_ADDRESS"
            ∷ lib.string_flag args "grpc-address"
            ∷ fc.grpc_address
            ∷ [])
          ""
  pub key : cfg.key ≡ first_of (lib.lookup_env "KEY" ∷ lib.string_flag args "k" ∷ none ∷ []) ""
  pub poll_interval :
      IsParsed parse_int lib.parse_seconds
        (lib.lookup_env "POLL_INTERVAL")
        (lib.int_flag args "p")
        fc.poll_interval
        2
        cfg.poll_interval
  pub report_interval :
      IsParsed parse_int lib.parse_seconds
        (lib.lookup_env "REPORT_INTERVAL")
        (lib.int_flag args "r")
        fc.report_interval
        10
        cfg.report_interval
  pub rate_limit :
      IsParsed parse_int lib.parse_seconds
        (lib.lookup_env "RATE_LIMIT")
        (lib.int_flag args "l")
        none
        1
        cfg.rate_limit

module _ (lib : ConfigLib) (args : List String) where
  -- When ParseAgentConfig returns settings, each of them comes from the environment, else from its
  -- flag, else from the file that the path names, else from its default, whatever the other
  -- settings come from; a number is the parsed text of its source.
  pub parse_agent_config-IsAgentSetting :
      (unmarshal : String → Result AgentFile) (cfg : AgentConfig)
      → parse_agent_config lib unmarshal args ≡ ok cfg
      → (fc : AgentFile) × (agent_file lib unmarshal args ≡ ok fc) × IsAgentSetting lib args fc cfg
  unfolding parse_agent_config agent_env
  parse_agent_config-IsAgentSetting unmarshal cfg e =
      let (fc, read, e1) = or_fail-ok (agent_file lib unmarshal args) _ cfg e in
      let (poll_d, poll_file, e2) = or_fail-ok (file_seconds lib fc.poll_interval 2) _ cfg e1 in
      let (report_d, report_file, e3) =
        or_fail-ok (file_seconds lib fc.report_interval 10) _ cfg e2 in
      let (report, report_env, e4) = or_fail-ok _ _ cfg e3 in
      let (poll, poll_env, e5) = or_fail-ok _ _ cfg e4 in
      let (limit, limit_env, e6) = or_fail-ok _ _ cfg e5 in
      (
        fc,
        read,
        subst (λ c. IsAgentSetting lib args fc c) (ok_inj _ cfg e6)
            (record {
              addr =
                  first_of-eq (lib.lookup_env "ADDRESS") (lib.string_flag args "a") fc.address
                    "localhost:8080";
              crypto_key =
                  first_of-eq (lib.lookup_env "CRYPTO_KEY") (lib.string_flag args "crypto-key")
                    fc.crypto_key "";
              grpc_addr =
                  first_of-eq (lib.lookup_env "GRPC_ADDRESS") (lib.string_flag args "grpc-address")
                    fc.grpc_address "";
              key = first_of-eq (lib.lookup_env "KEY") (lib.string_flag args "k") none "";
              poll_interval = seconds-IsParsed lib _ _ _ _ 2 poll_d poll poll_file poll_env;
              report_interval =
                  seconds-IsParsed lib _ _ _ _ 10 report_d report report_file report_env;
              rate_limit = converted-IsParsed parse_int lib.parse_seconds _ _ _ 1 limit limit_env;
            }),
      )

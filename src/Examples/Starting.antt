-- ===== src/Examples/Starting.antt =====
-- Keys, addresses, the two main functions, calls over gRPC, the shutdown and the pool, at concrete
-- inputs.
use go_yandex_practicum_metr.Prelude.{
  ℕ, eqb, if◌then◌else◌, String, ◌==◌, Bool, true, false, Option, none, some, List, [], ◌∷◌, All,
  ◌≡◌, ◌≢◌, refl,
}
use go_yandex_practicum_metr.GoError.{Result, ok, err, text}
use go_yandex_practicum_metr.Model.{Metrics}
use go_yandex_practicum_metr.Repository.Memory.{MemStorage, mem_storage}
use go_yandex_practicum_metr.Repository.Memory.Batch.{view}
use go_yandex_practicum_metr.Repository.Memory.Refines.{mem_storage-IsStorage}
use go_yandex_practicum_metr.Service.{MetricService, new_metric_service, notify_update}
use go_yandex_practicum_metr.Crypto.{Bytes, Ciphers}
use go_yandex_practicum_metr.Crypto.Keys.{
  KeyLib, KeyWriter, Format, pkcs1, wrapped, ParsedKey, rsa, load_public_key, load_private_key,
  load_keys-marshal,
}
use go_yandex_practicum_metr.Agent.Address.{
  NetAddr, ip_net, other_addr, detect_local_ipv4, first_ipv4, new_sender,
}
use go_yandex_practicum_metr.Agent.OverGrpc.{GrpcSender, grpc_send_batch}
use go_yandex_practicum_metr.Agent.Sending.Network.{unanswered}
use go_yandex_practicum_metr.Agent.Main.{
  Agent, by_http, main, public_key, build_agent, new_with_config, new_with_sender, run,
  IsConfigured, above_zero, main-IsConfigured,
}
use go_yandex_practicum_metr.Config.Agent.{AgentConfig}
use go_yandex_practicum_metr.Grpc.Sending.{
  GrpcNetwork, TookOnce, grpc_client, grpc_send_batch-TookOnce,
}
use go_yandex_practicum_metr.Pool.{
  Objects, held, pooled, moved, new_pool, start, returns, changes, put, get, get_fresh, write,
  PoolReach-IsClean,
}
use go_yandex_practicum_metr.Examples.Fixtures.{
  float_text, gauge_item, counter_item, broken_item, store,
}
use go_yandex_practicum_metr.Examples.Stubs.{http_lib, ciphers}

-- A key is a list of bytes; a format is a byte in front of it, and so is PEM.
abbrev strip : ℕ → Bytes → Option Bytes
strip n [] = none
strip n (b ∷ bs) = if eqb b n then some bs else none

abbrev or_refuse : {A : Type 0} → Option A → Result A
or_refuse none = err (text "asn1: structure error")
or_refuse (some a) = ok a

abbrev as_rsa : {A : Type 0} → Option A → Result (ParsedKey A)
as_rsa none = err (text "asn1: structure error")
as_rsa (some a) = ok (rsa a)

abbrev byte_keys : KeyLib Bytes Bytes
byte_keys = record {
  read_file = λ path. if path == "public.pem" then ok (0 ∷ 2 ∷ 9 ∷ []) else ok (0 ∷ 1 ∷ 8 ∷ []);
  pem_decode = strip 0;
  parse_pkix_public_key = λ b. as_rsa (strip 2 b);
  parse_pkcs1_public_key = λ b. or_refuse (strip 1 b);
  parse_pkcs1_private_key = λ b. or_refuse (strip 1 b);
  parse_pkcs8_private_key = λ b. as_rsa (strip 2 b);
  quoted = λ s. s;
}

abbrev write_format : Format → Bytes → Bytes
write_format pkcs1 k = 1 ∷ k
write_format wrapped k = 2 ∷ k

abbrev byte_writer : KeyWriter byte_keys
byte_writer = record {
  marshal_public = write_format;
  marshal_private = write_format;
  pem_encode = λ b. 0 ∷ b;
  pem_decode-pem_encode = λ b. refl;
  pkix_read = λ k. refl;
  pkix_refuses = λ k. (text "asn1: structure error", refl);
  pkcs1_public_read = λ k. refl;
  pkcs1_private_read = λ k. refl;
  pkcs1_refuses = λ k. (text "asn1: structure error", refl);
  pkcs8_read = λ k. refl;
}

load_keys-marshal_example :
    (load_public_key byte_keys "public.pem" ≡ ok (9 ∷ []))
    × (load_private_key byte_keys "private.pem" ≡ ok (8 ∷ []))
load_keys-marshal_example =
    load_keys-marshal byte_keys byte_writer "public.pem" "private.pem" wrapped pkcs1 (9 ∷ [])
      (8 ∷ []) refl refl

abbrev interfaces : List NetAddr
interfaces =
    ip_net true (some "127.0.0.1")
    ∷ other_addr
    ∷ ip_net false none
    ∷ ip_net false (some "10.0.0.7")
    ∷ []

-- Every block is the pair of keys of the stubs.
abbrev agent_keys : KeyLib (Ciphers Bytes) Bytes
agent_keys = record {
  read_file = λ path. ok (0 ∷ []);
  pem_decode = strip 0;
  parse_pkix_public_key = λ b. ok (rsa ciphers);
  parse_pkcs1_public_key = λ b. ok ciphers;
  parse_pkcs1_private_key = ok;
  parse_pkcs8_private_key = λ b. ok (rsa b);
  quoted = λ s. s;
}

abbrev agent_config : AgentConfig
agent_config = record {
  addr = "localhost:8080";
  poll_interval = 2;
  report_interval = 10;
  key = "secret";
  rate_limit = 1;
  crypto_key = "public.pem";
  grpc_addr = "";
}

abbrev agent : Agent Bytes
agent = record {
  sender =
      by_http "http://localhost:8080"
        (record { key = "secret"; pub_key = some ciphers; local_ip = "10.0.0.7" });
  poll_interval = 2000000000;
  report_interval = 10000000000;
  rate_limit = 1;
}

main-IsConfigured_example :
    (cfg : AgentConfig) × (ok agent_config ≡ ok cfg)
    × IsConfigured agent_keys (λ a. none) (ok interfaces) cfg agent.sender
    × (above_zero agent.rate_limit ≡ true)
    × (above_zero agent.poll_interval ≡ true)
    × (above_zero agent.report_interval ≡ true)
unfolding main public_key build_agent new_with_config new_with_sender run new_sender load_public_key
    detect_local_ipv4 first_ipv4
main-IsConfigured_example =
    main-IsConfigured agent_keys (λ a. none) (ok interfaces) (ok agent_config) none agent refl

abbrev service : MetricService MemStorage
service = new_metric_service (mem_storage float_text)

-- The call is handled and its answer is lost.
abbrev grpc_network : GrpcNetwork MemStorage
grpc_network = record { server = store; fates = unanswered (text "Unavailable") ∷ [] }

abbrev grpc_sender : GrpcSender
grpc_sender = record { addr = "localhost:3200"; local_ip = "10.0.0.7" }

abbrev trusted : String → Bool
trusted a = a == "10.0.0.7"

abbrev grpc_batch : List Metrics
grpc_batch = gauge_item ∷ broken_item ∷ counter_item ∷ []

grpc_send_batch-TookOnce_example :
    TookOnce view grpc_batch (view store) (
      grpc_send_batch
        (grpc_client http_lib (some trusted) service)
        grpc_sender
        grpc_batch
        grpc_network)
    × ((network : String → Bool)
        → some trusted ≡ some network
        → ((ip : String) → http_lib.parse_ip "10.0.0.7" ≡ some ip → network ip ≡ false)
        → ((grpc_send_batch
              (grpc_client http_lib (some trusted) service)
              grpc_sender
              grpc_batch
              grpc_network).0
            ≢ none)
          × ((grpc_send_batch
                (grpc_client http_lib (some trusted) service)
                grpc_sender
                grpc_batch
                grpc_network).1.server
              ≡ store))
unfolding notify_update
grpc_send_batch-TookOnce_example =
    grpc_send_batch-TookOnce http_lib (some trusted) service view (mem_storage-IsStorage float_text)
      (λ s. refl) grpc_sender grpc_batch grpc_network

-- A value of 5 is put back and reset to 0, and then taken.
abbrev IsZero : ℕ → Type 0
IsZero n = n ≡ 0

-- A new object is taken, written to, put back, and taken again.
abbrev taken : Objects ℕ
taken = moved 3 held 0 (new_pool (λ a. 9))

abbrev taken_again : Objects ℕ
taken_again = moved 3 held 0 (moved 3 pooled 0 (moved 3 held 7 taken))

PoolReach-IsClean_example :
    All IsZero (0 ∷ 0 ∷ [])
    × ((r : ℕ) → taken_again.place r ≡ pooled → IsZero (taken_again.content r))
PoolReach-IsClean_example =
    PoolReach-IsClean IsZero (λ n. 0) IsZero (λ v m. m) (λ v. refl)
      (returns 0
        (changes (changes (returns 0 (start (λ a. 9)) (get_fresh 3 0 refl refl)) (write 3 7 refl))
          (put 3 refl))
        (get 3 refl))

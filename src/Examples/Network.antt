-- ===== src/Examples/Network.antt =====
-- The agent, the gRPC transport and the HTTP chain at concrete inputs.
use go_yandex_practicum_metr.Prelude.{true}
use go_yandex_practicum_metr.Agent.{collect}
use go_yandex_practicum_metr.Model.{Metrics}
use go_yandex_practicum_metr.Prelude.{
  String, ◌==◌, none, some, get_or, or_else, List, [], ◌∷◌, ◌++◌, ◌≡◌, ◌⊎◌, refl, arith,
  if◌then◌else◌,
}
use go_yandex_practicum_metr.GoError.{Result, ok}
use go_yandex_practicum_metr.GoMap.{lookup, insert}
use go_yandex_practicum_metr.Compress.{gzip_data}
use go_yandex_practicum_metr.Repository.Spec.{View, sum, apply_batch}
use go_yandex_practicum_metr.Repository.Memory.{MemStorage, mem_storage}
use go_yandex_practicum_metr.Repository.Memory.Batch.{view}
use go_yandex_practicum_metr.Service.{MetricService, new_metric_service}
use go_yandex_practicum_metr.Grpc.{PbMetric, unknown, counter}
use go_yandex_practicum_metr.Agent.{
  AgentMetrics, Sample, new_collector, get_snapshot, convert_to_model_metrics,
}
use go_yandex_practicum_metr.Agent.Reports.{
  run_rounds, polls, resent, apply_batch-convert_to_model_metrics, counter-run_rounds,
}
use go_yandex_practicum_metr.Agent.Run.{
  RunState, run_start, stopped, Reach, start, later, poll, cancel, flush, send_last, close_jobs,
  receive, sent, leave,
}
use go_yandex_practicum_metr.Agent.Run.Drain.{count, Reach-drained}
use go_yandex_practicum_metr.Agent.Sender.{new_request, build_request, pack}
use go_yandex_practicum_metr.Crypto.{Bytes, encrypt, decrypt, or_wrap}
use go_yandex_practicum_metr.Crypto.Envelope.{decrypt-encrypt, decrypt-Returns}
use go_yandex_practicum_metr.Middleware.{HttpRequest, new_router, sign}
use go_yandex_practicum_metr.Middleware.Guards.{IsVerified, new_router-Guards}
use go_yandex_practicum_metr.Middleware.Chain.{IsOk}
use go_yandex_practicum_metr.Middleware.EndToEnd.{new_router-new_request}
use go_yandex_practicum_metr.Examples.Fixtures.{float_text, store}
use go_yandex_practicum_metr.Examples.Stubs.{
  http_lib, http_lib-laws, ciphers, ciphers-laws, random, random-sized, sender, keep_body,
  count_down,
}

abbrev service : MetricService MemStorage
service = new_metric_service (mem_storage float_text)

abbrev odd_item : PbMetric
odd_item = record { id = "Alloc"; kind = unknown 7; delta = 0; value = 1 }

abbrev polls_item : PbMetric
polls_item = record { id = "PollCount"; kind = counter; delta = 3; value = 0 }

abbrev sample : Sample
sample = record {
  alloc = 1;
  buck_hash_sys = 2;
  frees = 3;
  gccpu_fraction = 4;
  gc_sys = 5;
  heap_alloc = 6;
  heap_idle = 7;
  heap_inuse = 8;
  heap_objects = 9;
  heap_released = 10;
  heap_sys = 11;
  last_gc = 12;
  lookups = 13;
  m_cache_inuse = 14;
  m_cache_sys = 15;
  m_span_inuse = 16;
  m_span_sys = 17;
  mallocs = 18;
  next_gc = 19;
  num_forced_gc = 20;
  num_gc = 21;
  other_sys = 22;
  pause_total_ns = 23;
  stack_inuse = 24;
  stack_sys = 25;
  sys = 26;
  total_alloc = 27;
  random_value = 28;
}

abbrev collector : AgentMetrics
collector = record { gauge = ("Alloc", 3) ∷ ("Sys", 9) ∷ []; counter = 5 }

apply_batch-convert_to_model_metrics_example :
    apply_batch (convert_to_model_metrics collector) (view store) ≡ record {
      gauge = λ k. or_else (lookup k collector.gauge) ((view store).gauge k);
      counter = λ k.
          if "PollCount" == k
          then sum ((view store).counter k) (some 5)
          else (view store).counter k;
    }
unfolding lookup
apply_batch-convert_to_model_metrics_example =
    apply_batch-convert_to_model_metrics collector (view store) (refl, (refl, tt))

-- Two rounds of two polls each: four polls, and the server counts six.
abbrev two_rounds : List (List Sample)
two_rounds = (sample ∷ sample ∷ []) ∷ (sample ∷ sample ∷ []) ∷ []

abbrev empty_view : View
empty_view = record { gauge = λ k. none; counter = λ k. none }

counter-run_rounds_example :
    get_or ((run_rounds two_rounds new_collector empty_view).counter "PollCount") 0 ≡ 6
unfolding resent polls
counter-run_rounds_example =
    counter-run_rounds two_rounds new_collector empty_view (omega arith) (omega arith)

abbrev plaintext : Bytes
plaintext = 123 ∷ 125 ∷ []

abbrev envelope : Bytes
envelope = 0 ∷ 32 ∷ (count_down 32 ++ (1 ∷ 0 ∷ 123 ∷ 125 ∷ []))

decrypt-encrypt_example : decrypt ciphers envelope ≡ some (ok plaintext)
unfolding encrypt count_down or_wrap
decrypt-encrypt_example =
    decrypt-encrypt ciphers ciphers-laws random random random-sized plaintext envelope refl

decrypt-Returns_example : (r : Result Bytes) × (decrypt ciphers (255 ∷ 255 ∷ 1 ∷ []) ≡ some r)
decrypt-Returns_example = decrypt-Returns ciphers (255 ∷ 255 ∷ 1 ∷ [])

abbrev bare_request : HttpRequest
bare_request = record { header = []; body = ok (123 ∷ []) }

-- The request that the sender of the stubs builds.
abbrev sealed_request : HttpRequest
sealed_request = record {
  header =
      ("Content-Type", "application/json")
      ∷ ("Content-Encoding", "gzip")
      ∷ ("Accept-Encoding", "gzip")
      ∷ ("X-Crypto-Encrypted", "1")
      ∷ ("X-Real-IP", "10.0.0.7")
      ∷ ("HashSHA256", http_lib.hex_encode plaintext)
      ∷ [];
  body = ok envelope;
}

new_router-new_request_example :
    (req : HttpRequest) × (h : List (String × String)) × (req.body ≡ ok plaintext)
    × ((new_router http_lib "secret"
          (some ciphers)
          (some (λ a. a == "10.0.0.7"))
          keep_body
          sealed_request
          []
          ([], [])).1.0
        ≡ (keep_body req h []).1)
    × (IsOk
          (new_router http_lib "secret"
            (some ciphers)
            (some (λ a. a == "10.0.0.7"))
            keep_body
            sealed_request
            []
            ([], [])).0
        → IsOk (keep_body req h []).0)
unfolding new_request gzip_data pack build_request encrypt or_wrap count_down insert sign
new_router-new_request_example =
    new_router-new_request http_lib http_lib-laws sender keep_body plaintext random random
      random-sized (some (λ a. a == "10.0.0.7")) "http://localhost:8080/updates/" sealed_request []
      [] [] ciphers-laws ("10.0.0.7", refl, refl) refl

new_router-Guards_example :
    ((new_router http_lib "secret" (some ciphers) none keep_body sealed_request [] ([], [])).1.0
      ≡ [])
    ⊎ ((req : HttpRequest) × (h : List (String × String)) × IsVerified http_lib "secret" req
        × ((new_router http_lib "secret"
              (some ciphers)
              none
              keep_body
              sealed_request
              []
              ([], [])).1.0
            ≡ (keep_body req h []).1))
new_router-Guards_example =
    new_router-Guards http_lib "secret" (some ciphers) none keep_body sealed_request [] [] [] refl

-- One poll, then the cancellation, with one worker: the last flush is delivered.
abbrev polled : AgentMetrics
polled = collect sample new_collector

abbrev last_batch : List Metrics
last_batch = convert_to_model_metrics (get_snapshot polled)

abbrev drained : RunState
drained = record (run_start 1) {
  collector = polled;
  cancelled = true;
  reporter = stopped;
  workers = 0;
  made = last_batch ∷ [];
  attempted = last_batch ∷ [];
}

drained_reached : Reach 1 drained
drained_reached =
    later
      (later
        (later
          (later
            (later (later (later (later start (poll sample)) cancel) (flush refl refl))
              (send_last last_batch refl (omega arith)))
            (close_jobs refl))
          (receive last_batch [] refl (omega arith)))
        (sent [] [] last_batch refl))
      (leave 0 refl (omega arith) refl refl)

Reach-drained_example :
    (drained.reporter ≡ stopped)
    × (drained.jobs ≡ [])
    × (count (λ b. true) drained.made ≡ count (λ b. true) drained.attempted)
Reach-drained_example = Reach-drained 1 drained (λ b. true) (omega arith) drained_reached refl

abbrev known_request : HttpRequest
known_request = record { header = ("X-Real-IP", "10.0.0.7") ∷ []; body = ok [] }

-- ===== src/Agent/Reports.antt =====
-- What a report of the agent does to the metrics that the server holds.
use go_yandex_practicum_metr.Prelude.{
  ℕ, ◌+◌, ◌%◌, ◌^◌, ◌<◌, String, ◌==◌, Option, none, some, or_else, get_or, List, [], ◌∷◌, ◌++◌,
  length, ◌≡◌, ◌∙◌, refl, sym, ap, arith, if◌then◌else◌,
}
use go_yandex_practicum_metr.GoMap.{GoMap, lookup, NodupKeys}
use go_yandex_practicum_metr.Int64.{Int64, add}
use go_yandex_practicum_metr.Model.{Float64}
use go_yandex_practicum_metr.Repository.Spec.{
  View, sum, last_gauge, total_delta, apply_batch, counter_metric,
}
use go_yandex_practicum_metr.Repository.Memory.Batch.{sum_assoc}
use go_yandex_practicum_metr.Agent.{
  AgentMetrics, Sample, get_snapshot, convert_gauges, convert_to_model_metrics,
}
use go_yandex_practicum_metr.Agent.Sampling.{
  last_assigned, collect_all, counter-collect_all, last_assigned-eq-lookup,
}

last_gauge-convert_gauges :
    (k : String) (g : GoMap Float64) (c : Int64)
    → last_gauge k (convert_gauges g ++ counter_metric "PollCount" c ∷ []) ≡ last_assigned k g
unfolding last_gauge convert_gauges last_assigned
last_gauge-convert_gauges k [] c = refl
last_gauge-convert_gauges k ((j, v) ∷ g) c = grind (arith, last_gauge-convert_gauges k g c)

total_delta-convert_gauges :
    (k : String) (g : GoMap Float64) (c : Int64) (t : Option Int64)
    → sum t (total_delta k (convert_gauges g ++ counter_metric "PollCount" c ∷ []))
      ≡ (if "PollCount" == k then sum t (some c) else t)
unfolding total_delta convert_gauges sum
total_delta-convert_gauges k [] c t = ground arith
total_delta-convert_gauges k ((j, v) ∷ g) c t =
    sym (sum_assoc t none (total_delta k (convert_gauges g ++ counter_metric "PollCount" c ∷ [])))
    ∙ total_delta-convert_gauges k g c t

-- A report sets every gauge of the snapshot to the value that the agent holds, adds the count of
-- polls to the counter PollCount, and leaves every other metric of the server as it was.
pub apply_batch-convert_to_model_metrics :
    (m : AgentMetrics) (w : View)
    → NodupKeys m.gauge
    → apply_batch (convert_to_model_metrics m) w ≡ record {
      gauge = λ k. or_else (lookup k m.gauge) (w.gauge k);
      counter = λ k. if "PollCount" == k then sum (w.counter k) (some m.counter) else w.counter k;
    }
unfolding convert_to_model_metrics
apply_batch-convert_to_model_metrics m w h = λ i. record {
  gauge = λ k.
      or_else
        ((last_gauge-convert_gauges k m.gauge m.counter ∙ last_assigned-eq-lookup k m.gauge h) i)
        (w.gauge k);
  counter = λ k. total_delta-convert_gauges k m.gauge m.counter (w.counter k) i;
}

-- Rounds of the agent, each some Collects and a report that arrives.
unfoldable pub run_rounds : List (List Sample) → AgentMetrics → View → View
run_rounds [] m w = w
run_rounds (r ∷ rs) m w =
    run_rounds rs (collect_all r m)
      (apply_batch (convert_to_model_metrics (get_snapshot (collect_all r m))) w)

-- The number of polls of some rounds.
unfoldable pub polls : List (List Sample) → ℕ
polls [] = 0
polls (r ∷ rs) = length r + polls rs

-- The sum, over the rounds, of the polls up to and with that round, where `c` came before.
unfoldable pub resent : ℕ → List (List Sample) → ℕ
resent c [] = 0
resent c (r ∷ rs) = (c + length r) + resent (c + length r) rs

counter-report :
    (m : AgentMetrics) (w : View)
    → (apply_batch (convert_to_model_metrics (get_snapshot m)) w).counter "PollCount"
      ≡ sum (w.counter "PollCount") (some m.counter)
unfolding convert_to_model_metrics get_snapshot
counter-report m w = total_delta-convert_gauges "PollCount" _ m.counter (w.counter "PollCount")

get_or-sum : (c : Option Int64) (d : Int64) → get_or (sum c (some d)) 0 ≡ (get_or c 0 + d) % 2 ^ 64
unfolding sum add
get_or-sum none d = refl
get_or-sum (some c) d = refl

-- The server ends with the sum of all the counts that the reports carried: the collector is never
-- told that a report arrived, so a poll is counted again by every later report. The polls are
-- assumed to fit 64 bits.
pub counter-run_rounds :
    (rs : List (List Sample)) (m : AgentMetrics) (w : View)
    → m.counter + polls rs < 2 ^ 64
    → get_or (w.counter "PollCount") 0 < 2 ^ 64
    → get_or ((run_rounds rs m w).counter "PollCount") 0
      ≡ (get_or (w.counter "PollCount") 0 + resent m.counter rs) % 2 ^ 64
unfolding run_rounds polls resent
counter-run_rounds [] m w h b = ground arith
counter-run_rounds (r ∷ rs) m w h b =
    let m' = collect_all r m in
    let w' = apply_batch (convert_to_model_metrics (get_snapshot m')) w in
    let count : m'.counter ≡ m.counter + length r =
      counter-collect_all r m (omega arith) ∙ omega arith in
    let held : get_or (w'.counter "PollCount") 0
        ≡ (get_or (w.counter "PollCount") 0 + (m.counter + length r)) % 2 ^ 64 =
      ap (λ c. get_or c 0) (counter-report m' w)
      ∙ get_or-sum (w.counter "PollCount") m'.counter
      ∙ ap (λ c. (get_or (w.counter "PollCount") 0 + c) % 2 ^ 64) count in
    counter-run_rounds rs m' w' (omega (arith, count)) (omega (arith, held))
    ∙ ap (λ c. (get_or (w'.counter "PollCount") 0 + resent c rs) % 2 ^ 64) count
    ∙ omega (arith, held)

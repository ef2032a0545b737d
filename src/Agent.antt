-- ===== src/Agent.antt =====
-- The agent: Collector of internal/agent/collector.go, which samples the runtime and counts its poll
-- ticks, and of internal/agent/agent.go the batch that a report makes of a snapshot.
pub mod Sampling
pub mod Reports
pub mod Sender
pub mod Sending
pub mod Requests
pub mod Run
pub mod Address
pub mod OverGrpc
pub mod Main
use go_yandex_practicum_metr.Prelude.{
  ℕ, ◌+◌, String, ◌++◌, Option, none, some, List, [], ◌∷◌, ◌%◌, ◌^◌, ◌-◌,
}
use Prim.Native.String
use go_yandex_practicum_metr.GoError.{GoError, Result, ok, err, wrap}
use go_yandex_practicum_metr.GoMap.{GoMap, insert}
use go_yandex_practicum_metr.Int64.{Int64, add}
use go_yandex_practicum_metr.Model.{Metrics, Float64, counter_type, gauge_type}

-- agent.Metrics
pub record AgentMetrics : Type 0 where
  pub gauge : GoMap Float64
  pub counter : Int64

-- NewCollector
abbrev pub new_collector : AgentMetrics
new_collector = record { gauge = []; counter = 0 }

-- The fields of runtime.MemStats that Collect reads, each as `float64` converts it, and what
-- rand.Float64 returns.
pub record Sample : Type 0 where
  pub alloc : Float64
  pub buck_hash_sys : Float64
  pub frees : Float64
  pub gccpu_fraction : Float64
  pub gc_sys : Float64
  pub heap_alloc : Float64
  pub heap_idle : Float64
  pub heap_inuse : Float64
  pub heap_objects : Float64
  pub heap_released : Float64
  pub heap_sys : Float64
  pub last_gc : Float64
  pub lookups : Float64
  pub m_cache_inuse : Float64
  pub m_cache_sys : Float64
  pub m_span_inuse : Float64
  pub m_span_sys : Float64
  pub mallocs : Float64
  pub next_gc : Float64
  pub num_forced_gc : Float64
  pub num_gc : Float64
  pub other_sys : Float64
  pub pause_total_ns : Float64
  pub stack_inuse : Float64
  pub stack_sys : Float64
  pub sys : Float64
  pub total_alloc : Float64
  pub random_value : Float64

-- The assignments of Collect, in their order.
abbrev pub runtime_gauges : Sample → List (String × Float64)
runtime_gauges s =
    ("Alloc", s.alloc)
    ∷ ("BuckHashSys", s.buck_hash_sys)
    ∷ ("Frees", s.frees)
    ∷ ("GCCPUFraction", s.gccpu_fraction)
    ∷ ("GCSys", s.gc_sys)
    ∷ ("HeapAlloc", s.heap_alloc)
    ∷ ("HeapIdle", s.heap_idle)
    ∷ ("HeapInuse", s.heap_inuse)
    ∷ ("HeapObjects", s.heap_objects)
    ∷ ("HeapReleased", s.heap_released)
    ∷ ("HeapSys", s.heap_sys)
    ∷ ("LastGC", s.last_gc)
    ∷ ("Lookups", s.lookups)
    ∷ ("MCacheInuse", s.m_cache_inuse)
    ∷ ("MCacheSys", s.m_cache_sys)
    ∷ ("MSpanInuse", s.m_span_inuse)
    ∷ ("MSpanSys", s.m_span_sys)
    ∷ ("Mallocs", s.mallocs)
    ∷ ("NextGC", s.next_gc)
    ∷ ("NumForcedGC", s.num_forced_gc)
    ∷ ("NumGC", s.num_gc)
    ∷ ("OtherSys", s.other_sys)
    ∷ ("PauseTotalNs", s.pause_total_ns)
    ∷ ("StackInuse", s.stack_inuse)
    ∷ ("StackSys", s.stack_sys)
    ∷ ("Sys", s.sys)
    ∷ ("TotalAlloc", s.total_alloc)
    ∷ ("RandomValue", s.random_value)
    ∷ []

-- a sequence of assignments to the gauge map
unfoldable pub assign : List (String × Float64) → GoMap Float64 → GoMap Float64
assign [] g = g
assign ((k, v) ∷ ps) g = assign ps (insert k v g)

unfoldable pub collect : Sample → AgentMetrics → AgentMetrics
collect s m = record { gauge = assign (runtime_gauges s) m.gauge; counter = add m.counter 1 }

-- the loop of CollectExtra over the CPU percentages, from the index `i`
unfoldable pub cpu_gauges : (ℕ → String) → ℕ → List Float64 → List (String × Float64)
cpu_gauges itoa i [] = []
cpu_gauges itoa i (p ∷ ps) =
    (String.◌++◌ "CPUutilization" (itoa (i + 1)), p) ∷ cpu_gauges itoa (i + 1) ps

-- CollectExtra: `memory` is the total and the free memory that gopsutil reads, `cpu` the
-- percentages, and `itoa` the decimal text of a number.
unfoldable pub collect_extra :
    (ℕ → String)
    → Result (Float64 × Float64)
    → Result (List Float64)
    → AgentMetrics
    → Option GoError × AgentMetrics
collect_extra itoa (err e) cpu m = (some (wrap "get virtual memory" e), m)
collect_extra itoa (ok vm) (err e) m = (some (wrap "get cpu percent" e), m)
collect_extra itoa (ok (total, free)) (ok percents) m = (
  none,
  record m {
    gauge =
        assign (cpu_gauges itoa 0 percents)
          (insert "FreeMemory" free (insert "TotalMemory" total m.gauge));
  },
)

-- GetSnapshot: the copy is filled in the order in which the map is ranged over
unfoldable pub get_snapshot : AgentMetrics → AgentMetrics
get_snapshot m = record { gauge = assign m.gauge []; counter = m.counter }

-- AckCounter: a subtraction on 64 bits
unfoldable pub ack_counter : Int64 → AgentMetrics → AgentMetrics
ack_counter d m = record m { counter = (m.counter + (2 ^ 64 - d)) % 2 ^ 64 }

-- the loop of convertToModelMetrics
unfoldable pub convert_gauges : GoMap Float64 → List Metrics
convert_gauges [] = []
convert_gauges ((k, v) ∷ g) =
    record { id = k; mtype = gauge_type; delta = none; value = some v; hash = "" }
    ∷ convert_gauges g

-- convertToModelMetrics
unfoldable pub convert_to_model_metrics : AgentMetrics → List Metrics
convert_to_model_metrics m =
    convert_gauges m.gauge
    ++ record {
      id = "PollCount";
      mtype = counter_type;
      delta = some m.counter;
      value = none;
      hash = "";
    }
      ∷ []

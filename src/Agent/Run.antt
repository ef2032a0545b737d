-- ===== src/Agent/Run.antt =====
-- Agent.Run of internal/agent/agent.go: the collecting goroutines, runReport, the workers and the
-- channel between them, as a relation on the state of the whole agent. A step is what one goroutine
-- does between two points at which another can run.
pub mod Drain
use go_yandex_practicum_metr.Prelude.{
  String, ℕ, zero, suc, ◌+◌, ◌<◌, Bool, true, false, List, [], ◌∷◌, ◌++◌, length, ◌≡◌,
}
use go_yandex_practicum_metr.GoError.{Result}
use go_yandex_practicum_metr.Model.{Metrics, Float64}
use go_yandex_practicum_metr.Agent.{
  AgentMetrics, Sample, new_collector, collect, collect_extra, get_snapshot,
  convert_to_model_metrics,
}

abbrev pub Batch : Type 0
Batch = List Metrics

-- Where runReport is: in its outer select, in the inner select with a batch, in the last send, after
-- its return, and after the deferred close of the channel.
pub data Reporter : Type 0 where
  waiting : Reporter
  offering : Batch → Reporter
  flushing : Batch → Reporter
  returned stopped : Reporter

-- `jobs` is the buffer of the channel, `workers` the number that still run, `in_flight` the batches
-- that a worker is sending. `made` and `attempted` are history: every batch that a report made, and
-- every batch of which SendBatch has returned, with or without an error.
pub record RunState : Type 0 where
  pub collector : AgentMetrics
  pub cancelled : Bool
  pub reporter : Reporter
  pub jobs : List Batch
  pub workers : ℕ
  pub in_flight : List Batch
  pub made : List Batch
  pub attempted : List Batch

-- Run with `rateLimit` workers
abbrev pub run_start : ℕ → RunState
run_start rate_limit = record {
  collector = new_collector;
  cancelled = false;
  reporter = waiting;
  jobs = [];
  workers = rate_limit;
  in_flight = [];
  made = [];
  attempted = [];
}

-- the batch of a report
abbrev pub report_batch : RunState → Batch
report_batch s = convert_to_model_metrics (get_snapshot s.collector)

pub data Step (rate_limit : ℕ) (s : RunState) : RunState → Type 0 where
  -- runCollect, at its start or on a tick
  poll : (x : Sample) → Step rate_limit s (record s { collector = collect x s.collector })
  -- runCollectExtra on a tick: its error is only logged
  poll_extra :
      (itoa : ℕ → String) (memory : Result (Float64 × Float64)) (cpu : Result (List Float64))
      → Step rate_limit s (record s { collector = (collect_extra itoa memory cpu s.collector).1 })
  -- the context is cancelled
  cancel : Step rate_limit s (record s { cancelled = true })
  -- runReport on a tick
  tick :
      s.reporter ≡ waiting
      → Step rate_limit s
          (record s { reporter = offering (report_batch s); made = report_batch s ∷ s.made })
  -- the inner select sends, when the buffer has room
  offer :
      (b : Batch)
      → s.reporter ≡ offering b
      → length s.jobs < rate_limit
      → Step rate_limit s (record s { reporter = waiting; jobs = s.jobs ++ b ∷ [] })
  -- the outer select finds the context cancelled
  flush :
      s.reporter ≡ waiting
      → s.cancelled ≡ true
      → Step rate_limit s
          (record s { reporter = flushing (report_batch s); made = report_batch s ∷ s.made })
  -- the inner select finds the context cancelled
  flush_offered :
      (b : Batch)
      → s.reporter ≡ offering b
      → s.cancelled ≡ true
      → Step rate_limit s (record s { reporter = flushing b })
  -- the last send
  send_last :
      (b : Batch)
      → s.reporter ≡ flushing b
      → length s.jobs < rate_limit
      → Step rate_limit s (record s { reporter = returned; jobs = s.jobs ++ b ∷ [] })
  -- close(jobs)
  close_jobs : s.reporter ≡ returned → Step rate_limit s (record s { reporter = stopped })
  -- a worker that is not sending receives
  receive :
      (b : Batch) (rest : List Batch)
      → s.jobs ≡ b ∷ rest
      → length s.in_flight < s.workers
      → Step rate_limit s (record s { jobs = rest; in_flight = b ∷ s.in_flight })
  -- SendBatch of a worker returns
  sent :
      (before after : List Batch) (b : Batch)
      → s.in_flight ≡ before ++ b ∷ after
      → Step rate_limit s (record s { in_flight = before ++ after; attempted = b ∷ s.attempted })
  -- a worker that is not sending finds the channel closed and empty
  leave :
      (n : ℕ)
      → s.workers ≡ suc n
      → length s.in_flight < s.workers
      → s.reporter ≡ stopped
      → s.jobs ≡ []
      → Step rate_limit s (record s { workers = n })

pub data Reach (rate_limit : ℕ) : RunState → Type 0 where
  start : Reach rate_limit (run_start rate_limit)
  later : {s t : RunState} → Reach rate_limit s → Step rate_limit s t → Reach rate_limit t

-- ===== src/Model.antt =====
-- internal/model/metrics.go: the wire format shared by the agent, the server and the storages.
use go_yandex_practicum_metr.Prelude.{String, Option, ℕ}
use go_yandex_practicum_metr.Int64.{Int64}

-- A `float64`, as its IEEE 754 bit pattern (`math.Float64bits`): the program stores and copies
-- floats and converts them to and from text, and never computes with them.
abbrev pub Float64 : Type 0
Float64 = ℕ

-- model.Counter and model.Gauge
abbrev pub counter_type : String
counter_type = "counter"

abbrev pub gauge_type : String
gauge_type = "gauge"

-- model.Metrics: `Delta` and `Value` are pointers, so a missing field is `none`.
pub record Metrics : Type 0 where
  pub id : String
  pub mtype : String
  pub delta : Option Int64
  pub value : Option Float64
  pub hash : String

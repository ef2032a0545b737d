-- ===== src/Grpc.antt =====
-- The gRPC transport: MetricsServer.UpdateMetrics of internal/grpcserver/server.go, and the batch
-- that GRPCSender.SendBatch of internal/agent/grpc_sender.go builds for it.
pub mod Delivery
pub mod Subnet
pub mod Sending
use go_yandex_practicum_metr.Prelude.{
  ℕ, String, ◌==◌, Option, none, some, List, [], ◌∷◌, if◌then◌else◌,
}
use go_yandex_practicum_metr.GoError.{GoError}
use go_yandex_practicum_metr.Int64.{Int64}
use go_yandex_practicum_metr.Model.{Metrics, Float64, counter_type, gauge_type}
use go_yandex_practicum_metr.Service
use go_yandex_practicum_metr.Service.{MetricService}

-- pb.Metric_MType: an enum on the wire is open, so a peer may send a number with no name
pub data PbType : Type 0 where
  gauge counter : PbType
  unknown : ℕ → PbType

-- pb.Metric; a scalar that is not set reads as zero
pub record PbMetric : Type 0 where
  pub id : String
  pub kind : PbType
  pub delta : Int64
  pub value : Float64

pub data Status : Type 0 where
  done invalid_argument internal permission_denied : Status

-- the loop of UpdateMetrics; `none` is the early return for an unknown type
unfoldable pub from_pb : List PbMetric → Option (List Metrics)
from_pb [] = some []
from_pb (m ∷ ms) =
    let rest = from_pb ms in
    let with : Metrics → Option (List Metrics) =
      λ x. elim rest [ none ↦ none | some xs ↦ some (x ∷ xs) ] in
    elim m.kind [
      | gauge ↦
          with (record {
            id = m.id;
            mtype = gauge_type;
            delta = none;
            value = some m.value;
            hash = "";
          })
      | counter ↦ with (record {
        id = m.id;
        mtype = counter_type;
        delta = some m.delta;
        value = none;
        hash = "";
      })
      | unknown n ↦ none
    ]

module _ {S : Type 0} where
  abbrev pub status_of : Option GoError × S → Status × S
  status_of (none, s) = (done, s)
  status_of (some e, s) = (internal, s)

  -- UpdateMetrics
  unfoldable pub update_metrics : MetricService S → List PbMetric → S → Status × S
  update_metrics svc req s = elim (from_pb req) [
    | none ↦ (invalid_argument, s)
    | some metrics ↦ status_of (Service.update_batch svc metrics s)
  ]

-- the loop of SendBatch, which passes over what is not well formed
unfoldable pub to_pb : List Metrics → List PbMetric
to_pb [] = []
to_pb (m ∷ ms) =
    if m.mtype == gauge_type
    then elim m.value [
      | none ↦ to_pb ms
      | some v ↦ record { id = m.id; kind = gauge; delta = 0; value = v } ∷ to_pb ms
    ]
    else if m.mtype == counter_type
    then elim m.delta [
      | none ↦ to_pb ms
      | some d ↦ record { id = m.id; kind = counter; delta = d; value = 0 } ∷ to_pb ms
    ]
    else to_pb ms

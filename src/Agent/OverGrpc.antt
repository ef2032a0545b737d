-- ===== src/Agent/OverGrpc.antt =====
-- GRPCSender of internal/agent/grpc_sender.go: dialling, and one call of UpdateMetrics for a batch.
-- The grpc package is a parameter.
use go_yandex_practicum_metr.Prelude.{
  String, ◌==◌, Option, none, some, List, [], ◌∷◌, if◌then◌else◌,
}
use go_yandex_practicum_metr.GoError.{GoError, Result, ok, err, wrap}
use go_yandex_practicum_metr.Model.{Metrics}
use go_yandex_practicum_metr.Retry.{Outcome}
use go_yandex_practicum_metr.Grpc.{PbMetric, to_pb}
use go_yandex_practicum_metr.Agent.Address.{NetAddr, detect_local_ipv4}

-- GRPCSender, with the address that it dials
pub record GrpcSender : Type 0 where
  pub addr : String
  pub local_ip : String

-- NewGRPCSender, where `dialled` is the error of grpc.NewClient
unfoldable pub new_grpc_sender :
    (String → Option GoError) → String → Result (List NetAddr) → Result GrpcSender
new_grpc_sender dial addr addrs = elim (dial addr) [
  | some e ↦ err (wrap "grpc dial" e)
  | none ↦ ok (record { addr = addr; local_ip = detect_local_ipv4 addrs })
]

-- pb.MetricsClient: a call with the values of x-real-ip in its metadata, if it has metadata
pub record GrpcClient (W : Type 0) : Type 0 where
  pub update_metrics : Option (List String) → List PbMetric → W → Outcome W

-- the metadata of a call
abbrev pub outgoing : String → Option (List String)
outgoing local_ip = if local_ip == "" then none else some (local_ip ∷ [])

abbrev pub wrapped_call : {W : Type 0} → Outcome W → Outcome W
wrapped_call (none, w) = (none, w)
wrapped_call (some e, w) = (some (wrap "grpc update metrics" e), w)

-- SendBatch
unfoldable pub grpc_send_batch :
    {W : Type 0} → GrpcClient W → GrpcSender → List Metrics → W → Outcome W
grpc_send_batch client s metrics w =
    wrapped_call (client.update_metrics (outgoing s.local_ip) (to_pb metrics) w)

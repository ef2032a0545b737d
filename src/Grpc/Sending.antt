-- ===== src/Grpc/Sending.antt =====
-- A batch that the agent sends over gRPC to the server, over a network that may lose calls and
-- answers, through the interceptor for the trusted subnet.
use mathlib.Core.Path.{subst}
use go_yandex_practicum_metr.Prelude.{
  ap, ◌∙◌, false, String, eq_iff, Bool, Option, none, some, List, ◌≡◌, ◌≢◌, ◌⊎◌, inl, inr, refl,
  sym, arith, Bool-cases, Option-cases,
}
use go_yandex_practicum_metr.GoError.{GoError, text}
use go_yandex_practicum_metr.Model.{Metrics}
use go_yandex_practicum_metr.Repository.Spec.{View, IsStorage, apply_batch}
use go_yandex_practicum_metr.Service.{MetricService, notify_update}
use go_yandex_practicum_metr.Middleware.{HttpLib}
use go_yandex_practicum_metr.Retry.{Outcome}
use go_yandex_practicum_metr.Grpc.{
  Status, done, invalid_argument, internal, permission_denied, to_pb, update_metrics,
}
use go_yandex_practicum_metr.Grpc.Delivery.{Delivers, update_metrics-Delivers}
use go_yandex_practicum_metr.Grpc.Subnet.{raw_ip, trusted_subnet_interceptor, interceptor-refuses}
use go_yandex_practicum_metr.Agent.Sending.Network.{
  Fate, answered, dropped, unanswered, next_fate, later_fates,
}
use go_yandex_practicum_metr.Agent.OverGrpc.{
  GrpcSender, GrpcClient, outgoing, wrapped_call, grpc_send_batch,
}

-- A server and the fates of the next calls.
pub record GrpcNetwork (S : Type 0) : Type 0 where
  pub server : S
  pub fates : List Fate

abbrev pub status_error : Status → Option GoError
status_error done = none
status_error invalid_argument = some (text "InvalidArgument")
status_error internal = some (text "Internal")
status_error permission_denied = some (text "PermissionDenied")

abbrev pub after_call : {S : Type 0} → GrpcNetwork S → S → GrpcNetwork S
after_call net s = record { server = s; fates = later_fates net.fates }

-- one call and its answer
abbrev pub call_over :
    {S : Type 0} → Fate → (S → Status × S) → GrpcNetwork S → Outcome (GrpcNetwork S)
call_over answered handler net =
    (status_error (handler net.server).0, after_call net (handler net.server).1)
call_over (dropped e) handler net = (some e, after_call net net.server)
call_over (unanswered e) handler net = (some e, after_call net (handler net.server).1)

abbrev pub optional_interceptor :
    {Ip S : Type 0}
    → HttpLib Ip
    → Option (Ip → Bool)
    → Option (List String)
    → (S → Status × S)
    → S
    → Status × S
optional_interceptor lib none metadata handler s = handler s
optional_interceptor lib (some network) metadata handler s =
    trusted_subnet_interceptor lib network metadata handler s

abbrev pub grpc_client :
    {Ip S : Type 0} → HttpLib Ip → Option (Ip → Bool) → MetricService S → GrpcClient (GrpcNetwork S)
grpc_client lib subnet svc = record {
  update_metrics = λ metadata req net.
      call_over (next_fate net.fates)
        (optional_interceptor lib subnet metadata (update_metrics svc req)) net;
}

raw_ip-outgoing : (a : String) → raw_ip (outgoing a) ≡ a
raw_ip-outgoing a = ground (arith, eq_iff a "")

-- With no error the batch has been taken up once; with an error, once or not at all.
abbrev pub TookOnce :
    {S : Type 0} → (S → View) → List Metrics → View → Outcome (GrpcNetwork S) → Type 0
TookOnce view ms v (none, net) = view net.server ≡ apply_batch ms v
TookOnce view ms v (some e, net) = (view net.server ≡ v) ⊎ (view net.server ≡ apply_batch ms v)

-- A call that is done has the effect; any other has none.
abbrev Handles : {S : Type 0} → (S → View) → View → (View → View) → Status × S → Type 0
Handles view v f (done, s) = view s ≡ f v
Handles view v f (internal, s) = view s ≡ v
Handles view v f (invalid_argument, s) = view s ≡ v
Handles view v f (permission_denied, s) = view s ≡ v

module _ {S : Type 0} (view : S → View) (ms : List Metrics) where
  Handles-Delivers :
      (v : View) (f : View → View) (r : Status × S) → Delivers view v f r → Handles view v f r
  Handles-Delivers v f (done, s) d = d
  Handles-Delivers v f (internal, s) d = d
  Handles-Delivers v f (invalid_argument, s) d = absurd d
  Handles-Delivers v f (permission_denied, s) d = absurd d

  Handles-either :
      (v : View) (f : View → View) (r : Status × S)
      → Handles view v f r
      → (view r.1 ≡ v) ⊎ (view r.1 ≡ f v)
  Handles-either v f (done, s) d = inr d
  Handles-either v f (internal, s) d = inl d
  Handles-either v f (invalid_argument, s) d = inl d
  Handles-either v f (permission_denied, s) d = inl d

  answered-TookOnce :
      (net : GrpcNetwork S) (v : View) (r : Status × S)
      → Handles view v (apply_batch ms) r
      → TookOnce view ms v (wrapped_call (status_error r.0, after_call net r.1))
  answered-TookOnce net v (done, s) d = d
  answered-TookOnce net v (internal, s) d = inl d
  answered-TookOnce net v (invalid_argument, s) d = inl d
  answered-TookOnce net v (permission_denied, s) d = inl d

  call_over-TookOnce :
      (fate : Fate) (handler : S → Status × S) (net : GrpcNetwork S)
      → Handles view (view net.server) (apply_batch ms) (handler net.server)
      → TookOnce view ms (view net.server) (wrapped_call (call_over fate handler net))
  call_over-TookOnce answered handler net h =
      answered-TookOnce net (view net.server) (handler net.server) h
  call_over-TookOnce (dropped e) handler net h = inl refl
  call_over-TookOnce (unanswered e) handler net h =
      Handles-either (view net.server) (apply_batch ms) (handler net.server) h

module _ {Ip S : Type 0} (lib : HttpLib Ip) (subnet : Option (Ip → Bool)) (svc : MetricService S)
    (view : S → View) (laws : IsStorage svc.storage view)
    (keeps : (s : S) → view (notify_update svc s) ≡ view s) where
  interceptor-Handles :
      (subnet : Option (Ip → Bool)) (metadata : Option (List String)) (ms : List Metrics) (s : S)
      → Handles view
          (view s)
          (apply_batch ms)
          (optional_interceptor lib subnet metadata (update_metrics svc (to_pb ms)) s)
  unfolding trusted_subnet_interceptor
  interceptor-Handles none metadata ms s =
      Handles-Delivers view ms (view s) (apply_batch ms) _
        (update_metrics-Delivers svc view laws keeps ms s)
  interceptor-Handles (some network) metadata ms s =
      elim (Option-cases (lib.parse_ip (raw_ip metadata))) [
        | inl bad ↦ rw (bad, trusted_subnet_interceptor) refl
        | inr (ip, e) ↦ elim (Bool-cases (network ip)) [
          | inl inside ↦
              rw (e, inside, trusted_subnet_interceptor)
                (Handles-Delivers view ms (view s) (apply_batch ms) _
                  (update_metrics-Delivers svc view laws keeps ms s))
          | inr outside ↦ rw (e, outside, trusted_subnet_interceptor) refl
        ]
      ]

  refused :
      (network : Ip → Bool) (a : String) (handler : S → Status × S) (s : S)
      → ((ip : Ip) → lib.parse_ip a ≡ some ip → network ip ≡ false)
      → trusted_subnet_interceptor lib network (outgoing a) handler s ≡ (permission_denied, s)
  refused network a handler s outside =
      interceptor-refuses lib network (outgoing a) handler s
        (λ ip e. outside ip (ap lib.parse_ip (sym (raw_ip-outgoing a)) ∙ e))

  refused_call :
      (fate : Fate) (handler : S → Status × S) (net : GrpcNetwork S)
      → handler net.server ≡ (permission_denied, net.server)
      → ((wrapped_call (call_over fate handler net)).0 ≢ none)
        × ((wrapped_call (call_over fate handler net)).1.server ≡ net.server)
  refused_call answered handler net e = rw e (λ c. cc, refl)
  refused_call (dropped x) handler net e = (λ c. cc, refl)
  refused_call (unanswered x) handler net e = rw e (λ c. cc, refl)

  -- Whatever becomes of the call and of its answer, the SendBatch of the gRPC sender has the storage
  -- of the server take up the batch exactly once if it returns no error, and once or not at all if
  -- it returns one; the metrics change in no other way. From an address outside of the trusted
  -- subnet it returns an error, and the server is as it was.
  pub grpc_send_batch-TookOnce :
      (sender : GrpcSender) (ms : List Metrics) (net : GrpcNetwork S)
      → TookOnce view ms
          (view net.server)
          (grpc_send_batch (grpc_client lib subnet svc) sender ms net)
        × ((network : Ip → Bool)
            → subnet ≡ some network
            → ((ip : Ip) → lib.parse_ip sender.local_ip ≡ some ip → network ip ≡ false)
            → ((grpc_send_batch (grpc_client lib subnet svc) sender ms net).0 ≢ none)
              × ((grpc_send_batch (grpc_client lib subnet svc) sender ms net).1.server
                  ≡ net.server))
  unfolding grpc_send_batch
  grpc_send_batch-TookOnce sender ms net = (
    call_over-TookOnce view ms (next_fate net.fates) _ net
        (interceptor-Handles subnet (outgoing sender.local_ip) ms net.server),
    λ network is outside. refused_call (next_fate net.fates) _ net (
        subst
          (λ o.
            optional_interceptor lib o (outgoing sender.local_ip) (update_metrics svc (to_pb ms))
              net.server
            ≡ (permission_denied, net.server))
          (sym is)
          (refused network sender.local_ip (update_metrics svc (to_pb ms)) net.server outside)),
  )

-- ===== src/Server/Stopping/Ends.antt =====
-- How main of cmd/server/main.go gets from a signal to its last save.
use go_yandex_practicum_metr.Prelude.{
  ℕ, zero, suc, Bool, true, false, Bool-cases, ◌≡◌, ◌∙◌, inl, inr, refl, arith,
}
use go_yandex_practicum_metr.Server.Stopping.{
  Closer, Process, waiting, shutting, unwinding, returned, ProcessStep, ProcessReach, grpc_end,
  shut, graceful_stop, expire, listener_returns, server_returns, shut_late, no_grpc, stopped, wait,
}
use go_yandex_practicum_metr.Server.Stopping.Quiet.{
  IsOrdered, ProcessStep-IsOrdered, ProcessReach-IsOrdered,
}

-- any number of steps
pub data ProcessRun : Process → Process → Type 0 where
  done : {p : Process} → ProcessRun p p
  step : {p q r : Process} → ProcessStep p q → ProcessRun q r → ProcessRun p r

-- A run to where g.Wait has returned, with as many calls over HTTP running as before.
abbrev pub Ends : Process → Type 0
Ends p = (q : Process) × ProcessRun p q × (q.waited ≡ true) × (q.http_calls ≡ p.http_calls)

Ends-step : {p q : Process} → ProcessStep p q → q.http_calls ≡ p.http_calls → Ends q → Ends p
Ends-step s e (r, run, w, same) = (r, step s run, w, same ∙ e)

returned-Ends : (p : Process) → IsOrdered p → p.closer ≡ returned → Ends p
returned-Ends p o c =
    Ends-step (listener_returns (ground arith)) refl
      (Ends-step (server_returns (ground arith)) refl (_, step (wait refl refl c) done, refl, refl))

-- GracefulStop, for as many calls as run
drained-Ends :
    (n : ℕ) (p : Process)
    → IsOrdered p
    → p.closer ≡ unwinding
    → p.grpc_on ≡ true
    → p.grpc_open ≡ false
    → p.grpc_calls ≡ n
    → Ends p
drained-Ends zero p o c on closed e =
    let s = stopped c on closed e in
    Ends-step s refl (returned-Ends _ (ProcessStep-IsOrdered s o) refl)
drained-Ends (suc n) p o c on closed e =
    let s = grpc_end n e in
    Ends-step s refl (drained-Ends n _ (ProcessStep-IsOrdered s o) c on closed refl)

unwinding-Ends : (p : Process) → IsOrdered p → p.closer ≡ unwinding → Ends p
unwinding-Ends p o c = elim (Bool-cases p.grpc_on) [
  | inl on ↦
      let s = graceful_stop (ground arith) on in
      Ends-step s refl (drained-Ends p.grpc_calls _ (ProcessStep-IsOrdered s o) c on refl refl)
  | inr off ↦
      let s = no_grpc c off in Ends-step s refl (returned-Ends _ (ProcessStep-IsOrdered s o) refl)
]

shutting-Ends : (p : Process) → IsOrdered p → p.closer ≡ shutting → Ends p
shutting-Ends p o c =
    let s = expire (ground arith) in
    let t = shut_late c refl in
    Ends-step s refl (
      Ends-step t refl
        (unwinding-Ends _ (ProcessStep-IsOrdered t (ProcessStep-IsOrdered s o)) refl))

waiting-Ends : (p : Process) → IsOrdered p → p.cancelled ≡ true → p.closer ≡ waiting → Ends p
waiting-Ends p o cancelled c =
    let s = shut c cancelled in Ends-step s refl (shutting-Ends _ (ProcessStep-IsOrdered s o) refl)

by_closer-Ends :
    (p : Process) → IsOrdered p → p.cancelled ≡ true → (c : Closer) → p.closer ≡ c → Ends p
by_closer-Ends p o cancelled waiting e = waiting-Ends p o cancelled e
by_closer-Ends p o cancelled shutting e = shutting-Ends p o e
by_closer-Ends p o cancelled unwinding e = unwinding-Ends p o e
by_closer-Ends p o cancelled returned e = returned-Ends p o e

-- From every state that main can be in once the context of the group is cancelled, with calls over
-- HTTP and gRPC running, steps lead to a state in which g.Wait has returned and the last save
-- begins, and in which as many calls over HTTP run as in the first: the shutdown does not depend on
-- their end.
pub ProcessReach-Ends :
    (grpc : Bool) (p : Process) → ProcessReach grpc p → p.cancelled ≡ true → Ends p
ProcessReach-Ends grpc p r cancelled =
    by_closer-Ends p (ProcessReach-IsOrdered r) cancelled p.closer refl

-- ===== src/Server/Stopping/Quiet.antt =====
-- When the last save of main begins, no call over gRPC runs, and a call over HTTP only if the budget
-- of the shutdown is spent.
use go_yandex_practicum_metr.Prelude.{Bool, true, false, ◌≡◌, ◌⊎◌, arith}
use go_yandex_practicum_metr.Server.Stopping.{
  Process, waiting, shutting, unwinding, returned, process_start, ProcessStep, ProcessReach, start,
  later, http_begin, http_end, grpc_begin, grpc_end, signal, listen_fails, serve_fails, shut,
  graceful_stop, expire, listener_returns, server_returns, shut_idle, shut_late, no_grpc, hard_stop,
  stopped, wait,
}

abbrev IsIdle : Process → Type 0
IsIdle p = (p.http_calls ≡ 0) ⊎ (p.deadline ≡ true)

abbrev IsStopped : Process → Type 0
IsStopped p = (p.grpc_open ≡ false) × (p.grpc_calls ≡ 0)

-- What holds by where the goroutine that shuts down is.
pub record IsOrdered (p : Process) : Type 0 where
  pub closed : (p.closer ≡ waiting) ⊎ (p.http_open ≡ false)
  pub idle : (p.closer ≡ waiting) ⊎ ((p.closer ≡ shutting) ⊎ IsIdle p)
  pub quiet :
      (p.closer ≡ waiting) ⊎ ((p.closer ≡ shutting) ⊎ ((p.closer ≡ unwinding) ⊎ IsStopped p))
  pub off : (p.grpc_on ≡ true) ⊎ IsStopped p
  pub last : (p.waited ≡ false) ⊎ (p.closer ≡ returned)

pub ProcessStep-IsOrdered : {p q : Process} → ProcessStep p q → IsOrdered p → IsOrdered q
ProcessStep-IsOrdered (http_begin e) o = ground arith
ProcessStep-IsOrdered (http_end n e) o = ground arith
ProcessStep-IsOrdered (grpc_begin e) o = ground arith
ProcessStep-IsOrdered (grpc_end n e) o = ground arith
ProcessStep-IsOrdered signal o = ground arith
ProcessStep-IsOrdered (listen_fails e) o = ground arith
ProcessStep-IsOrdered (serve_fails e) o = ground arith
ProcessStep-IsOrdered (shut e c) o = ground arith
ProcessStep-IsOrdered (graceful_stop e c) o = ground arith
ProcessStep-IsOrdered (expire e) o = ground arith
ProcessStep-IsOrdered (listener_returns e) o = ground arith
ProcessStep-IsOrdered (server_returns e) o = ground arith
ProcessStep-IsOrdered (shut_idle e c) o = ground arith
ProcessStep-IsOrdered (shut_late e c) o = ground arith
ProcessStep-IsOrdered (no_grpc e c) o = ground arith
ProcessStep-IsOrdered (hard_stop e c d) o = ground arith
ProcessStep-IsOrdered (stopped e c d n) o = ground arith
ProcessStep-IsOrdered (wait e c d) o = ground arith

process_start-IsOrdered : (grpc : Bool) → IsOrdered (process_start grpc)
process_start-IsOrdered true = ground arith
process_start-IsOrdered false = ground arith

pub ProcessReach-IsOrdered : {grpc : Bool} {p : Process} → ProcessReach grpc p → IsOrdered p
ProcessReach-IsOrdered {grpc} start = process_start-IsOrdered grpc
ProcessReach-IsOrdered (later r s) = ProcessStep-IsOrdered s (ProcessReach-IsOrdered r)

-- Whatever the order of calls, signals, errors of the two servers and the passing of time: when
-- g.Wait of main has returned, and the last save begins, both servers take no new call, no call over
-- gRPC is running, and if a call over HTTP still runs, then the five seconds of the shutdown are
-- over.
pub ProcessReach-quiet :
    (grpc : Bool) (p : Process)
    → ProcessReach grpc p
    → p.waited ≡ true
    → (p.http_open ≡ false)
      × (p.grpc_open ≡ false)
      × (p.grpc_calls ≡ 0)
      × ((p.http_calls ≡ 0) ⊎ (p.deadline ≡ true))
ProcessReach-quiet grpc p r w = let o = ProcessReach-IsOrdered r in ground arith

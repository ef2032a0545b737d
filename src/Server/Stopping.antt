-- ===== src/Server/Stopping.antt =====
-- The end of main of cmd/server/main.go: the goroutines of the errgroup, the calls that are still
-- running, and the budget of the shutdown, as a relation on the state of the process. What
-- http.Server and grpc.Server do is taken from their documentation: Shutdown ends when no call runs
-- or when its context is done, and GracefulStop ends when no call runs.
pub mod Ends
pub mod Quiet
use go_yandex_practicum_metr.Prelude.{ℕ, zero, suc, Bool, true, false, not, ◌≡◌, ◌≢◌}

-- Where the goroutine that shuts down is: before <-ctx.Done(), in srv.Shutdown, in its deferred
-- select, and after its return.
pub data Closer : Type 0 where
  waiting shutting unwinding returned : Closer

-- `http_open` and `grpc_open` say whether a new call is taken, `http_calls` and `grpc_calls` count
-- those that run, `listener_ended` and `server_ended` whether the goroutines of ListenAndServe and
-- of grpcSrv.Serve have returned, `deadline` whether shutdownCtx is done, and `waited` whether
-- g.Wait has returned.
pub record Process : Type 0 where
  pub cancelled : Bool
  pub deadline : Bool
  pub http_open : Bool
  pub http_calls : ℕ
  pub grpc_on : Bool
  pub grpc_open : Bool
  pub grpc_calls : ℕ
  pub listener_ended : Bool
  pub server_ended : Bool
  pub closer : Closer
  pub waited : Bool

-- both servers serve; without gRPC there is no second goroutine
abbrev pub process_start : Bool → Process
process_start grpc = record {
  cancelled = false;
  deadline = false;
  http_open = true;
  http_calls = 0;
  grpc_on = grpc;
  grpc_open = grpc;
  grpc_calls = 0;
  listener_ended = false;
  server_ended = not grpc;
  closer = waiting;
  waited = false;
}

pub data ProcessStep (p : Process) : Process → Type 0 where
  http_begin : p.http_open ≡ true → ProcessStep p (record p { http_calls = suc p.http_calls })
  http_end : (n : ℕ) → p.http_calls ≡ suc n → ProcessStep p (record p { http_calls = n })
  grpc_begin : p.grpc_open ≡ true → ProcessStep p (record p { grpc_calls = suc p.grpc_calls })
  grpc_end : (n : ℕ) → p.grpc_calls ≡ suc n → ProcessStep p (record p { grpc_calls = n })
  -- SIGTERM, SIGINT or SIGQUIT
  signal : ProcessStep p (record p { cancelled = true })
  -- ListenAndServe or Serve fails, and the group cancels its context
  listen_fails :
      p.listener_ended ≡ false
      → ProcessStep p (record p { listener_ended = true; http_open = false; cancelled = true })
  serve_fails :
      p.server_ended ≡ false
      → ProcessStep p (record p { server_ended = true; grpc_open = false; cancelled = true })
  -- <-ctx.Done(), and srv.Shutdown closes the listener
  shut :
      p.closer ≡ waiting
      → p.cancelled ≡ true
      → ProcessStep p (record p { closer = shutting; http_open = false })
  -- the goroutine of GracefulStop starts
  graceful_stop :
      p.closer ≢ waiting → p.grpc_on ≡ true → ProcessStep p (record p { grpc_open = false })
  -- five seconds have passed
  expire : p.closer ≢ waiting → ProcessStep p (record p { deadline = true })
  listener_returns : p.http_open ≡ false → ProcessStep p (record p { listener_ended = true })
  server_returns : p.grpc_open ≡ false → ProcessStep p (record p { server_ended = true })
  -- srv.Shutdown returns, with nil or with the error of its context
  shut_idle :
      p.closer ≡ shutting → p.http_calls ≡ 0 → ProcessStep p (record p { closer = unwinding })
  shut_late :
      p.closer ≡ shutting → p.deadline ≡ true → ProcessStep p (record p { closer = unwinding })
  -- no deferred select
  no_grpc :
      p.closer ≡ unwinding → p.grpc_on ≡ false → ProcessStep p (record p { closer = returned })
  -- grpcSrv.Stop(), which cancels the calls that run
  hard_stop :
      p.closer ≡ unwinding
      → p.grpc_on ≡ true
      → p.deadline ≡ true
      → ProcessStep p (record p { grpc_open = false })
  -- <-stopped: GracefulStop has returned
  stopped :
      p.closer ≡ unwinding
      → p.grpc_on ≡ true
      → p.grpc_open ≡ false
      → p.grpc_calls ≡ 0
      → ProcessStep p (record p { closer = returned })
  -- g.Wait returns
  wait :
      p.listener_ended ≡ true
      → p.server_ended ≡ true
      → p.closer ≡ returned
      → ProcessStep p (record p { waited = true })

pub data ProcessReach (grpc : Bool) : Process → Type 0 where
  start : ProcessReach grpc (process_start grpc)
  later : {p q : Process} → ProcessReach grpc p → ProcessStep p q → ProcessReach grpc q

-- ===== src/Agent/Sending/Storing.antt =====
-- A batch from SendBatch of the agent to the storage behind UpdateMetricsBatch of the server.
use mathlib.Core.Path.{subst}
use Prim.Native.String
use go_yandex_practicum_metr.Prelude.{
  ℕ, zero, suc, ◌+◌, String, Bool, true, false, Option, some, List, [], ◌∷◌, ◌++◌, map, length,
  length-append, ◌≡◌, ◌⊎◌, inl, inr, ◌∙◌, refl, sym, ap, arith, if◌then◌else◌,
}
use go_yandex_practicum_metr.GoError.{Result, ok}
use go_yandex_practicum_metr.GoMap.{GoMap}
use go_yandex_practicum_metr.Model.{Metrics}
use go_yandex_practicum_metr.FloatText.{FloatText}
use go_yandex_practicum_metr.Crypto.{Bytes}
use go_yandex_practicum_metr.Repository.Json.{Json}
use go_yandex_practicum_metr.Repository.Spec.{View, IsStorage, apply_batch}
use go_yandex_practicum_metr.Service.{notify_update}
use go_yandex_practicum_metr.Middleware.{Reader, HttpLib}
use go_yandex_practicum_metr.Middleware.Chain.{HttpLaws, IsOk}
use go_yandex_practicum_metr.Middleware.EndToEnd.{Trusts, KeysLaws}
use go_yandex_practicum_metr.Retry.{RetryLib, RetryLaws}
use go_yandex_practicum_metr.Retry.Loop.{Ends}
use go_yandex_practicum_metr.Handler
use go_yandex_practicum_metr.Handler.{MetricHandler, Request, Response, World}
use go_yandex_practicum_metr.Handler.Outcomes.{audited, Concludes, update_metrics_batch-Concludes}
use go_yandex_practicum_metr.Handler.Routes.{
  Chi, ChiLaws, Routed, with_params, run_routed, serve_routes,
}
use go_yandex_practicum_metr.Handler.Http.{HttpIo, HttpIoLaws, to_request, http_routes}
use go_yandex_practicum_metr.Agent.Sender.{Sender}
use go_yandex_practicum_metr.Agent.Sending.{SenderJson, send_batch}
use go_yandex_practicum_metr.Agent.Sending.Network.{Network}
use go_yandex_practicum_metr.Agent.Sending.Delivery.{
  Counted, Counts, the_client, send_batch-Counted,
}

abbrev pub repeated : {A : Type 0} → ℕ → (A → A) → A → A
repeated zero f a = a
repeated (suc k) f a = f (repeated k f a)

-- The server has taken up the batch `k` times since it showed `v` and had emitted `n` audit events,
-- each time with one event if there is a publisher, and nothing else.
abbrev pub Took :
    {S : Type 0} → MetricHandler S → (S → View) → List Metrics → View → ℕ → ℕ → World S → Type 0
Took h view ms v n k w =
    (view w.store ≡ repeated k (apply_batch ms) v)
    × (length w.events ≡ n + (if h.publisher then k else 0))

module _ {S : Type 0} (json : Json Reader) (ft : FloatText)
    (split_host_port : String → Option String) (h : MetricHandler S) (view : S → View)
    (laws : IsStorage h.svc.storage view) (keeps : (s : S) → view (notify_update h.svc s) ≡ view s)
    (chi : Chi Reader) (chi_laws : ChiLaws chi) (io : HttpIo S) (io_laws : HttpIoLaws io) where
  count_event :
      (n k : ℕ) (r : Request Reader) (names : List String) (w : World S)
      → length w.events ≡ n + (if h.publisher then k else 0)
      → length (audited split_host_port h view r names w) ≡ n + (if h.publisher then suc k else 0)
  count_event n k r names w e = by_publisher h.publisher e
    where
      by_publisher :
          (b : Bool)
          → length w.events ≡ n + (if b then k else 0)
          → length (
              if b
              then w.events
                ++ record {
                  ts = r.now;
                  metrics = names;
                  ip_address = Handler.client_ip split_host_port r;
                }
                  ∷ []
              else w.events)
            ≡ n + (if b then suc k else 0)
      by_publisher true e = omega (arith, e, length-append {0} w.events (_ ∷ []))
      by_publisher false e = e

  Took-step :
      (m : Metrics) (ms : List Metrics) (v : View) (n k : ℕ) (r : Request Reader)
      (headers : GoMap String) (w : World S) (out : Response Reader × World S)
      → Took h view (m ∷ ms) v n k w
      → Concludes split_host_port h view r
          (some (apply_batch (m ∷ ms)))
          (m.id ∷ map (λ m. m.id) ms)
          w
          out
      → Took h view (m ∷ ms) v n (suc k) out.1
        ⊎ (Took h view (m ∷ ms) v n k out.1 × (IsOk (some (io.write out.0 headers)) → ⊥))
  Took-step m ms v n k r headers w out (same, count) (inl (status, (f, is, done), events)) = inl (
    done ∙ ap (λ g. g (view w.store)) (some_inj is) ∙ ap (apply_batch (m ∷ ms)) same,
    ap length events ∙ count_event n k r _ w count,
  )
    where
      some_inj : {f g : View → View} → some f ≡ some g → g ≡ f
      some_inj e = cc
  Took-step m ms v n k r headers w out (same, count) (inr (status, kept, events)) = inr (
    (kept ∙ same, ap length events ∙ count),
    λ o. status (sym (io_laws.write-status out.0 headers) ∙ o),
  )

  http_routes-Counts :
      (m : Metrics) (ms : List Metrics) (b : Bytes) (v : View) (n : ℕ)
      → json.decode_list (ok b) ≡ ok (m ∷ ms)
      → Counts
          (Took h view (m ∷ ms) v n)
          b
          (http_routes json ft split_host_port h chi io "POST" "/updates/")
  unfolding serve_routes
  http_routes-Counts m ms b v n decoded req headers w k read took =
      let (param, matched) = chi_laws.found_batches in
      subst
        (λ (o : Routed).
          let out = run_routed json ft split_host_port h chi o (to_request io req w) w in
          Took h view (m ∷ ms) v n (suc k) out.1
          ⊎ (Took h view (m ∷ ms) v n k out.1 × (IsOk (some (io.write out.0 headers)) → ⊥)))
        (sym matched)
        (Took-step m ms v n k (with_params param (to_request io req w)) headers w
          (Handler.update_metrics_batch json ft split_host_port h
            (with_params param (to_request io req w)) w)
          took
          (update_metrics_batch-Concludes json ft split_host_port h view laws keeps
            (with_params param (to_request io req w)) w m ms (ap json.decode_list read ∙ decoded)))

  module _ {Ip Block : Type 0} (lib : HttpLib Ip) (lib_laws : HttpLaws lib) (sender : Sender Block)
      (out : SenderJson) (subnet : Option (Ip → Bool)) (keys : KeysLaws sender.pub_key)
      (trusts : Trusts lib subnet sender.local_ip)
      (random_key random_nonce : Network (World S) → ℕ → Result Bytes)
      (sized : (net : Network (World S)) (i : ℕ) (r : Bytes)
        → random_nonce net i ≡ ok r
        → length r ≡ i)
      (path_of : String → String) (retry : RetryLib) (retry_laws : RetryLaws retry) where
    -- The agent and the whole server: SendBatch over a network that may lose requests and answers,
    -- with retries; the router with its middleware; Routes, the handler, the service and a storage.
    -- When SendBatch returns no error, the storage has taken up the batch, as a whole, at least once
    -- and at most four times, and when it returns an error, at most four times; the metrics have
    -- changed in no other way, and there is an audit event for each time if there is a publisher,
    -- and no other. The batch has a metric; the server decodes what the agent encodes; the storage
    -- keeps its promise, the callback leaves the metrics alone; and the two sides fit together: one
    -- signing key or none, one key pair or none, a trusted address or no subnet, nonces of the
    -- length that is asked for, and a server address whose URL of the batches has the path of the
    -- batches.
    pub send_batch-Took :
        (server_url : String) (m : Metrics) (ms : List Metrics) (b : Bytes)
        (net : Network (World S))
        → path_of (String.◌++◌ server_url "/updates/") ≡ "/updates/"
        → out.marshal_metrics (m ∷ ms) ≡ ok b
        → json.decode_list (ok b) ≡ ok (m ∷ ms)
        → Ends {S = Network (World S)}
            (Counted (Took h view (m ∷ ms) (view net.server.store) (length net.server.events)) 0 4)
            (Counted (Took h view (m ∷ ms) (view net.server.store) (length net.server.events)) 1 4)
            (send_batch lib sender out
              (the_client lib lib_laws sender out
                (λ url. http_routes json ft split_host_port h chi io "POST" (path_of url))
                subnet
                keys
                trusts
                random_key
                random_nonce
                sized)
              retry
              server_url
              (m ∷ ms)
              net)
    send_batch-Took server_url m ms b net path e decoded =
        send_batch-Counted lib lib_laws sender out
          (λ url. http_routes json ft split_host_port h chi io "POST" (path_of url)) subnet keys
          trusts random_key random_nonce sized retry retry_laws
          (Took h view (m ∷ ms) (view net.server.store) (length net.server.events)) b server_url m
          ms net
          (subst
            (λ p.
              Counts (Took h view (m ∷ ms) (view net.server.store) (length net.server.events)) b
                (http_routes json ft split_host_port h chi io "POST" p))
            (sym path)
            (http_routes-Counts m ms b (view net.server.store) (length net.server.events) decoded))
          e (refl, no_event h.publisher)
      where
        no_event :
            (c : Bool) → length net.server.events ≡ length net.server.events + (if c then 0 else 0)
        no_event true = omega arith
        no_event false = omega arith

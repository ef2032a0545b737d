-- ===== src/Agent/Sending/Delivery.antt =====
-- A batch from SendBatch over a network that may fail to the handlers of the server: how often they
-- run, counted by what a run does to their state.
use go_yandex_practicum_metr.Prelude.{
  ℕ, suc, ◌≤◌, String, Bool, eqb, Option, none, some, List, [], ◌∷◌, length, ◌≡◌, ◌⊎◌, inl, inr,
  refl, sym, arith, Bool-cases,
}
use mathlib.Core.Path.{subst}
use Prim.Native.String
use go_yandex_practicum_metr.GoError.{Result, ok, err, wrap}
use go_yandex_practicum_metr.GoMap.{GoMap}
use go_yandex_practicum_metr.Model.{Metrics}
use go_yandex_practicum_metr.Crypto.{Bytes}
use go_yandex_practicum_metr.Middleware.{
  HttpRequest, HttpResponse, HttpHandler, HttpLib, LogEntry, new_router,
}
use go_yandex_practicum_metr.Middleware.Chain.{HttpLaws, IsOk}
use go_yandex_practicum_metr.Middleware.EndToEnd.{Trusts, KeysLaws, new_router-new_request}
use go_yandex_practicum_metr.Retry.{RetryLib, RetryLaws}
use go_yandex_practicum_metr.Retry.Loop.{Ends, retry_do-within}
use go_yandex_practicum_metr.Agent.Sender.{Sender, new_request}
use go_yandex_practicum_metr.Agent.Sending.{
  SenderJson, Client, is_retriable_http_error, check_answer, post, send_batch_once, send_batch,
}
use go_yandex_practicum_metr.Agent.Sending.Network.{
  Fate, Network, next_fate, status_or_eof, served, unserved, exchange, network_client, answered,
  dropped, unanswered,
}

-- The state of the server counts from `least` to `most` effects.
abbrev pub Counted : {S : Type 0} → (ℕ → S → Type 0) → ℕ → ℕ → Network S → Type 0
Counted P least most net = (k : ℕ) × (least ≤ k) × (k ≤ most) × P k net.server

-- A run of the handlers on the body `b` has one more effect, or none and no answer 200.
abbrev pub Counts : {S : Type 0} → (ℕ → S → Type 0) → Bytes → HttpHandler S → Type 0
Counts {S} P b routes =
    (req : HttpRequest) (h : GoMap String) (s : S) (k : ℕ)
    → req.body ≡ ok b
    → P k s
    → P (suc k) (routes req h s).1 ⊎ (P k (routes req h s).1 × (IsOk (routes req h s).0 → ⊥))

ok_status : (o : Option HttpResponse) → status_or_eof o ≡ ok 200 → IsOk o
ok_status none e = cc
ok_status (some r) e = ground arith

module _ {Ip Block S : Type 0} (lib : HttpLib Ip) (laws : HttpLaws lib) (sender : Sender Block)
    (json : SenderJson) (routes : String → HttpHandler S) (subnet : Option (Ip → Bool))
    (keys : KeysLaws sender.pub_key) (trusts : Trusts lib subnet sender.local_ip)
    (random_key random_nonce : Network S → ℕ → Result Bytes)
    (sized : (net : Network S) (n : ℕ) (r : Bytes) → random_nonce net n ≡ ok r → length r ≡ n) where
  abbrev pub the_router : String → HttpHandler (S × List LogEntry)
  the_router url = new_router lib sender.key sender.pub_key subnet (routes url)

  abbrev pub the_client : Client (Network S)
  the_client = network_client random_key random_nonce the_router

  module _ (P : ℕ → S → Type 0) (b : Bytes) (url : String) (counts : Counts P b (routes url)) where
    served-Counted :
        (most : ℕ) (req : HttpRequest) (net : Network S)
        → Counted P 0 most net
        → new_request lib sender (random_key net) (random_nonce net) url b ≡ ok req
        → Counted P 0 (suc most) (served net (the_router url req [] (net.server, net.log)))
          × (IsOk (the_router url req [] (net.server, net.log)).0
              → Counted P 1 (suc most) (served net (the_router url req [] (net.server, net.log))))
    served-Counted most req net (k, low, high, p) built =
        let (req', h', read, ran, fine) =
          new_router-new_request lib laws sender (routes url) b (random_key net) (random_nonce net)
            (sized net) subnet url req [] net.server net.log keys trusts built in
        by_run req' h' ran fine (counts req' h' net.server k read p)
      where
        by_run :
            (req' : HttpRequest) (h' : GoMap String)
            → (the_router url req [] (net.server, net.log)).1.0 ≡ (routes url req' h' net.server).1
            → (IsOk (the_router url req [] (net.server, net.log)).0
                → IsOk (routes url req' h' net.server).0)
            → P (suc k) (routes url req' h' net.server).1
              ⊎ (P k (routes url req' h' net.server).1
                  × (IsOk (routes url req' h' net.server).0 → ⊥))
            → Counted P 0 (suc most) (served net (the_router url req [] (net.server, net.log)))
              × (IsOk (the_router url req [] (net.server, net.log)).0
                  → Counted P 1
                      (suc most)
                      (served net (the_router url req [] (net.server, net.log))))
        by_run req' h' ran fine (inl more) =
            let q = subst (P (suc k)) (sym ran) more in
            ((suc k, omega arith, omega arith, q), λ o. (suc k, omega arith, omega arith, q))
        by_run req' h' ran fine (inr (same, failed)) = (
          (k, omega arith, omega arith, subst (P k) (sym ran) same),
          λ o. absurd (failed (fine o)),
        )

    more_room : (most : ℕ) (net : Network S) → Counted P 0 most net → Counted P 0 (suc most) net
    more_room most net (k, low, high, p) = (k, low, omega arith, p)

    check_answer-Ends :
        (most : ℕ) (sending unexpected : String) (a : Result ℕ) (net : Network S)
        → Counted P 0 (suc most) net
        → (a ≡ ok 200 → Counted P 1 (suc most) net)
        → Ends {S = Network S}
            (Counted {S = S} P 0 (suc most))
            (Counted P 1 (suc most))
            (check_answer sending unexpected (a, net))
    unfolding check_answer
    check_answer-Ends most sending unexpected (err e) net h k = h
    check_answer-Ends most sending unexpected (ok status) net h k =
        elim (Bool-cases (eqb status 200)) [ inl e ↦ rw e (k (ground arith)) | inr e ↦ rw e h ]

    post-Ends :
        (building sending unexpected : String) (most : ℕ) (net : Network S)
        → Counted P 0 most net
        → Ends {S = Network S}
            (Counted {S = S} P 0 (suc most))
            (Counted P 1 (suc most))
            (post lib sender json the_client building sending unexpected url b net)
    unfolding post
    post-Ends building sending unexpected most net h =
        by_request (new_request lib sender (random_key net) (random_nonce net) url b) refl
      where
        by_fate :
            (req : HttpRequest) (f : Fate)
            → new_request lib sender (random_key net) (random_nonce net) url b ≡ ok req
            → Ends {S = Network S} (Counted {S = S} P 0 (suc most)) (Counted P 1 (suc most)) (
                check_answer sending unexpected (elim f [
                  | answered ↦ (
                    status_or_eof (the_router url req [] (net.server, net.log)).0,
                    served net (the_router url req [] (net.server, net.log)),
                  )
                  | dropped e ↦ (err e, unserved net)
                  | unanswered e ↦ (err e, served net (the_router url req [] (net.server, net.log)))
                ]))
        by_fate req answered built =
            let (low, high) = served-Counted most req net h built in
            check_answer-Ends most sending unexpected _ _ low (λ e. high (ok_status _ e))
        by_fate req (dropped e) built = unfold check_answer in more_room most net h
        by_fate req (unanswered e) built =
            check_answer-Ends most sending unexpected (err e) _
              (served-Counted most req net h built).0 (λ c. cc)

        by_request :
            (r : Result HttpRequest)
            → new_request lib sender (random_key net) (random_nonce net) url b ≡ r
            → Ends {S = Network S}
                (Counted {S = S} P 0 (suc most))
                (Counted P 1 (suc most))
                (elim r [
                  | err e ↦ (some (wrap building e), net)
                  | ok req ↦ check_answer sending unexpected (exchange (the_router url) req net)
                ])
        by_request (err e) built = more_room most net h
        by_request (ok req) built = by_fate req (next_fate net.fates) built

  -- Whatever becomes of the requests and of their answers, SendBatch has the effect of the handlers
  -- on the batch at most four times, and at least once when it returns no error.
  pub send_batch-Counted :
      (retry : RetryLib) (retry_laws : RetryLaws retry) (P : ℕ → S → Type 0) (b : Bytes)
      (server_url : String) (m : Metrics) (ms : List Metrics) (net : Network S)
      → Counts P b (routes (String.◌++◌ server_url "/updates/"))
      → json.marshal_metrics (m ∷ ms) ≡ ok b
      → P 0 net.server
      → Ends {S = Network S}
          (Counted {S = S} P 0 4)
          (Counted P 1 4)
          (send_batch lib sender json the_client retry server_url (m ∷ ms) net)
  unfolding send_batch
  send_batch-Counted retry retry_laws P b server_url m ms net counts e p =
      retry_do-within retry retry_laws is_retriable_http_error (λ most. Counted P 0 most)
        (λ most. Counted P 1 most) _ once (λ i j t le h. (h.0, h.1, omega (arith, le, h.2), h.3))
        (λ i j t le h. (h.0, h.1, omega (arith, le, h.2), h.3)) net (0, omega arith, omega arith, p)
    where
      once :
          (most : ℕ) (net : Network S)
          → Counted P 0 most net
          → Ends {S = Network S}
              (Counted {S = S} P 0 (suc most))
              (Counted P 1 (suc most))
              (send_batch_once lib sender json the_client server_url (m ∷ ms) net)
      once most net h =
          unfold send_batch_once in
          rw (e, send_batch_once)
            (post-Ends P b (String.◌++◌ server_url "/updates/") counts _ _ _ most net h)

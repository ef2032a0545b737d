-- ===== src/Agent/Sending.antt =====
-- What the HTTP sender does with its requests: SendBatch and SendMetrics of
-- internal/agent/sender.go with their retries. The HTTP client, JSON and the random bytes are
-- parameters.
pub mod Network
pub mod Delivery
pub mod Storing
use Prim.Native.String
use go_yandex_practicum_metr.Prelude.{
  ℕ, String, Bool, true, false, ◌||◌, eqb, Option, none, some, List, [], ◌∷◌, if◌then◌else◌,
}
use go_yandex_practicum_metr.Int64.{format_uint}
use go_yandex_practicum_metr.GoError.{
  GoError, Result, ok, err, text, sentinel, wrap, pg_error, url_error,
}
use go_yandex_practicum_metr.Model.{Metrics}
use go_yandex_practicum_metr.Crypto.{Bytes}
use go_yandex_practicum_metr.Middleware.{HttpRequest, HttpLib}
use go_yandex_practicum_metr.Retry.{Outcome, RetryLib, retry_do}
use go_yandex_practicum_metr.Agent.Sender.{Sender, new_request}

-- json.Marshal on a metric and on a batch
pub record SenderJson : Type 0 where
  pub marshal_metric : Metrics → Result Bytes
  pub marshal_metrics : List Metrics → Result Bytes

-- The outside of the sender: httpClient.Do gives a status or an error, and the next random keys and
-- nonces are there to be read.
pub record Client (W : Type 0) : Type 0 where
  pub send : String → HttpRequest → W → Result ℕ × W
  pub random_key : W → ℕ → Result Bytes
  pub random_nonce : W → ℕ → Result Bytes

-- isRetriableHTTPError
unfoldable pub is_retriable_http_error : GoError → Bool
is_retriable_http_error (sentinel s) = false
is_retriable_http_error (text m) = false
is_retriable_http_error (wrap m e) = is_retriable_http_error e
is_retriable_http_error (pg_error code) = false
is_retriable_http_error (url_error timeout temporary) = timeout || temporary

-- what follows httpClient.Do
unfoldable pub check_answer : {W : Type 0} → String → String → Result ℕ × W → Outcome W
check_answer sending unexpected (err e, w) = (some (wrap sending e), w)
check_answer sending unexpected (ok status, w) =
    if eqb status 200
    then (none, w)
    else (some (text (String.◌++◌ unexpected (format_uint status))), w)

module _ {Ip Block W : Type 0} (lib : HttpLib Ip) (sender : Sender Block) (json : SenderJson)
    (client : Client W) where
  -- newRequest, httpClient.Do and the check of the status, with the texts of the three errors
  unfoldable pub post : String → String → String → String → Bytes → W → Outcome W
  post building sending unexpected url body w =
      elim (new_request lib sender (client.random_key w) (client.random_nonce w) url body) [
        | err e ↦ (some (wrap building e), w)
        | ok req ↦ check_answer sending unexpected (client.send url req w)
      ]

  -- sendBatch
  unfoldable pub send_batch_once : String → List Metrics → W → Outcome W
  send_batch_once server_url metrics w = elim (json.marshal_metrics metrics) [
    | err e ↦ (some (wrap "marshal metrics" e), w)
    | ok body ↦
        post "build batch request" "send batch" "unexpected status for batch: "
          (String.◌++◌ server_url "/updates/") body w
  ]

  -- send
  unfoldable pub send : String → Metrics → W → Outcome W
  send server_url m w = elim (json.marshal_metric m) [
    | err e ↦ (some (wrap "marshal metric" e), w)
    | ok body ↦
        post (String.◌++◌ "build request for metric " m.id) (String.◌++◌ "send metric " m.id)
          (String.◌++◌ "unexpected status for metric " (String.◌++◌ m.id ": "))
          (String.◌++◌ server_url "/update") body w
  ]

  -- one attempt of SendMetrics; an error ends it
  unfoldable pub send_each : String → List Metrics → W → Outcome W
  send_each server_url [] w = (none, w)
  send_each server_url (m ∷ ms) w =
      let rest = send_each server_url ms in
      let sent = send server_url m w in elim sent.0 [ none ↦ rest sent.1 | some e ↦ sent ]

  module _ (retry : RetryLib) where
    unfoldable pub send_batch : String → List Metrics → W → Outcome W
    send_batch server_url [] w = (none, w)
    send_batch server_url (m ∷ ms) w =
        retry_do retry (send_batch_once server_url (m ∷ ms)) is_retriable_http_error w

    unfoldable pub send_metrics : String → List Metrics → W → Outcome W
    send_metrics server_url metrics =
        retry_do retry (send_each server_url metrics) is_retriable_http_error

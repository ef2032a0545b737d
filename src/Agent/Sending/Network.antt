-- ===== src/Agent/Sending/Network.antt =====
-- A network between the agent and the server that may lose requests and answers. It models no code of
-- the repository.
use go_yandex_practicum_metr.Prelude.{ℕ, String, Option, none, some, List, [], ◌∷◌}
use go_yandex_practicum_metr.GoError.{GoError, Result, ok, err, text}
use go_yandex_practicum_metr.Crypto.{Bytes}
use go_yandex_practicum_metr.Middleware.{HttpRequest, HttpResponse, HttpHandler, LogEntry}
use go_yandex_practicum_metr.Agent.Sending.{Client}

-- What happens to a request: it is answered, it does not arrive, or it arrives and the answer is
-- lost.
pub data Fate : Type 0 where
  answered : Fate
  dropped : GoError → Fate
  unanswered : GoError → Fate

-- A server, its log, and the fates of the next requests.
pub record Network (S : Type 0) : Type 0 where
  pub server : S
  pub log : List LogEntry
  pub fates : List Fate

abbrev pub next_fate : List Fate → Fate
next_fate [] = answered
next_fate (f ∷ fs) = f

abbrev pub later_fates : List Fate → List Fate
later_fates [] = []
later_fates (f ∷ fs) = fs

abbrev pub status_or_eof : Option HttpResponse → Result ℕ
status_or_eof none = err (text "EOF")
status_or_eof (some r) = ok r.status

abbrev pub served : {S : Type 0} → Network S → Option HttpResponse × (S × List LogEntry) → Network S
served net (r, (s, log)) = record net { server = s; log = log; fates = later_fates net.fates }

abbrev pub unserved : {S : Type 0} → Network S → Network S
unserved net = record net { fates = later_fates net.fates }

-- one request and its answer
abbrev pub exchange :
    {S : Type 0} → HttpHandler (S × List LogEntry) → HttpRequest → Network S → Result ℕ × Network S
exchange router req net =
    let r = router req [] (net.server, net.log) in
    elim (next_fate net.fates) [
      | answered ↦ (status_or_eof r.0, served net r)
      | dropped e ↦ (err e, unserved net)
      | unanswered e ↦ (err e, served net r)
    ]

-- `router` is what the server does with a POST to each URL.
abbrev pub network_client :
    {S : Type 0}
    → (Network S → ℕ → Result Bytes)
    → (Network S → ℕ → Result Bytes)
    → (String → HttpHandler (S × List LogEntry))
    → Client (Network S)
network_client random_key random_nonce router = record {
  send = λ url req net. exchange (router url) req net;
  random_key = random_key;
  random_nonce = random_nonce;
}

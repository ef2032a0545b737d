-- ===== src/Examples/Routing.antt =====
-- Routes and the path of a batch through it, at concrete inputs: a router that takes a path for a
-- pattern only if they are the same text.
use mathlib.Core.List.{Memᴰ}
use go_yandex_practicum_metr.Prelude.{
  String, ◌==◌, eq_iff, ◌&&◌, true, false, some, List, [], ◌∷◌, ◌≡◌, refl, arith, if◌then◌else◌,
  Bool-cases, inl, inr,
}
use go_yandex_practicum_metr.GoError.{ok, err, url_error}
use go_yandex_practicum_metr.Model.{Metrics}
use go_yandex_practicum_metr.Repository.Json.{Json}
use go_yandex_practicum_metr.Repository.Memory.{MemStorage}
use go_yandex_practicum_metr.Repository.Memory.Batch.{view}
use go_yandex_practicum_metr.Repository.Memory.Refines.{mem_storage-IsStorage}
use go_yandex_practicum_metr.Service.{notify_update}
use go_yandex_practicum_metr.Middleware.{Reader}
use go_yandex_practicum_metr.Handler.{World, respond, message, empty}
use go_yandex_practicum_metr.Handler.Routes.{Route, Routed, matched, not_found, Chi, ChiLaws}
use go_yandex_practicum_metr.Handler.Http.{HttpIo, HttpIoLaws, http_routes}
use go_yandex_practicum_metr.Retry.Loop.{Ends}
use go_yandex_practicum_metr.Agent.Sending.{SenderJson, send_batch}
use go_yandex_practicum_metr.Agent.Sending.Network.{Network, dropped, unanswered}
use go_yandex_practicum_metr.Agent.Sending.Delivery.{Counted, the_client}
use go_yandex_practicum_metr.Agent.Sending.Storing.{Took, send_batch-Took}
use go_yandex_practicum_metr.Examples.Databases.{retry_lib, retry_lib-laws}
use go_yandex_practicum_metr.Examples.Fixtures.{float_text, gauge_item, counter_item, store}
use go_yandex_practicum_metr.Examples.Http.{no_port, handler, world}
use go_yandex_practicum_metr.Examples.Stubs.{
  http_lib, http_lib-laws, ciphers-laws, random, random-sized, sender,
}

unfoldable pub find_route : List Route → String → String → Routed
find_route [] method path = not_found
find_route (r ∷ table) method path =
    let rest = find_route table method path in
    if r.method == method && r.pattern == path then matched r (λ key. key) else rest

abbrev pub chi : {Text : Type 0} → Chi Text
chi = record {
  find = find_route;
  not_found_answer = respond 404 (message "404 page not found");
  not_allowed_answer = respond 405 empty;
}

find_route-matched :
    (table : List Route) (method path : String) (r : Route) (param : String → String)
    → find_route table method path ≡ matched r param
    → Memᴰ r table × (r.method ≡ method)
unfolding find_route
find_route-matched [] method path r param e = cc
find_route-matched (q ∷ table) method path r param e =
    elim (Bool-cases (q.method == method && q.pattern == path)) [
      | inl here ↦
          let same : q ≡ r = ground arith in
          (Memᴰ.head (cc), ground (arith, eq_iff q.method method))
      | inr other ↦
          let (later, method_is) = find_route-matched table method path r param (ground arith) in
          (Memᴰ.tail later, method_is)
    ]

chi-laws : {Text : Type 0} → ChiLaws {Text = Text} chi
unfolding find_route
chi-laws = record { found_route = find_route-matched; found_batches = (λ key. key, refl) }

abbrev batch : List Metrics
batch = gauge_item ∷ counter_item ∷ []

-- The JSON of both sides: the two metrics are the bytes 7 and 8.
abbrev pub server_json : Json Reader
server_json = record {
  marshal_list = λ ms. ok (ok (7 ∷ 8 ∷ []));
  unmarshal_list = λ t. ok batch;
  decode_list = λ t. elim t [ ok b ↦ ok batch | err e ↦ err e ];
  decode = λ t. ok gauge_item;
  encode = λ m. ok (ok (7 ∷ []));
}

abbrev sender_json : SenderJson
sender_json = record { marshal_metric = λ m. ok (7 ∷ []); marshal_metrics = λ ms. ok (7 ∷ 8 ∷ []) }

abbrev io : HttpIo MemStorage
io = record {
  write = λ r h. record { status = r.status; header = h; body = [] };
  remote_addr = λ req. "10.0.0.7:5000";
  now = λ w. 1700000000;
}

io-laws : HttpIoLaws io
io-laws = record { write-status = λ r h. refl }

abbrev path_of : String → String
path_of url = if url == "http://localhost:8080/updates/" then "/updates/" else "/"

-- The first request is lost, the answer to the second one as well.
abbrev bad_network : Network (World MemStorage)
bad_network = record {
  server = world;
  log = [];
  fates = dropped (url_error true false) ∷ unanswered (url_error false true) ∷ [];
}

send_batch-Took_example :
    Ends {S = Network (World MemStorage)}
      (Counted (Took handler view batch (view store) 0) 0 4)
      (Counted (Took handler view batch (view store) 0) 1 4)
      (send_batch http_lib sender sender_json
        (the_client http_lib http_lib-laws sender sender_json
          (λ url. http_routes server_json float_text no_port handler chi io "POST" (path_of url))
          (some (λ a. a == "10.0.0.7"))
          ciphers-laws
          ("10.0.0.7", refl, refl)
          (λ net. random)
          (λ net. random)
          (λ net. random-sized))
        retry_lib
        "http://localhost:8080"
        batch
        bad_network)
unfolding notify_update
send_batch-Took_example =
    send_batch-Took server_json float_text no_port handler view (mem_storage-IsStorage float_text)
      (λ s. refl) chi chi-laws io io-laws http_lib http_lib-laws sender sender_json
      (some (λ a. a == "10.0.0.7")) ciphers-laws ("10.0.0.7", refl, refl) (λ net. random)
      (λ net. random) (λ net. random-sized) path_of retry_lib retry_lib-laws "http://localhost:8080"
      gauge_item (counter_item ∷ []) (7 ∷ 8 ∷ []) bad_network refl refl refl

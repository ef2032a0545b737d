-- ===== src/Handler/Http.antt =====
-- The router that Routes of internal/handler/handler.go returns, as an http.Handler: what a handler
-- reads of an HTTP request. net/http, which sends the answer, is a parameter.
use go_yandex_practicum_metr.Prelude.{ℕ, String, Option, some, ◌≡◌}
use go_yandex_practicum_metr.GoMap.{GoMap}
use go_yandex_practicum_metr.FloatText.{FloatText}
use go_yandex_practicum_metr.Repository.Json.{Json}
use go_yandex_practicum_metr.Middleware.{Reader, HttpRequest, HttpResponse, HttpHandler, get_header}
use go_yandex_practicum_metr.Handler.{MetricHandler, Request, Response, World}
use go_yandex_practicum_metr.Handler.Routes.{Chi, serve_routes}

-- net/http: the answer as it is sent, after the headers that the chain has set; and the address of
-- the peer. `now` is time.Now().Unix() in the handler.
pub record HttpIo (S : Type 0) : Type 0 where
  pub write : Response Reader → GoMap String → HttpResponse
  pub remote_addr : HttpRequest → String
  pub now : World S → ℕ

-- The status is sent as it is.
pub record HttpIoLaws {S : Type 0} (io : HttpIo S) : Type 0 where
  pub write-status : (r : Response Reader) (h : GoMap String) → (io.write r h).status ≡ r.status

-- what the handlers read of a request
abbrev pub to_request : {S : Type 0} → HttpIo S → HttpRequest → World S → Request Reader
to_request io req w = record {
  url_type = "";
  url_name = "";
  url_value = "";
  body = req.body;
  real_ip = get_header "X-Real-IP" req.header;
  forwarded_for = get_header "X-Forwarded-For" req.header;
  remote_addr = io.remote_addr req;
  now = io.now w;
}

module _ {S : Type 0} (json : Json Reader) (ft : FloatText)
    (split_host_port : String → Option String) (h : MetricHandler S) (chi : Chi Reader)
    (io : HttpIo S) where
  -- the mounted router, for a method and a path
  abbrev pub http_routes : String → String → HttpHandler (World S)
  http_routes method path req headers w =
      let (resp, after) =
        serve_routes json ft split_host_port h chi method path (to_request io req w) w in
      (some (io.write resp headers), after)

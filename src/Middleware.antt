-- ===== src/Middleware.antt =====
-- The HTTP chain in front of the handlers: internal/middleware, pkg/hash and pkg/compress, in the
-- order that newRouter of cmd/server/main.go composes them. The Go library's gzip, HMAC, hex, net
-- and net/http, and the Recoverer of chi, are parameters.
pub mod Signature
pub mod Guards
pub mod Chain
pub mod EndToEnd
use go_yandex_practicum_metr.Prelude.{
  ℕ, ◌+◌, eqb, String, ◌==◌, Bool, true, false, not, ◌&&◌, Option, none, some, get_or, List, [],
  ◌∷◌, length, if◌then◌else◌,
}
use go_yandex_practicum_metr.GoError.{GoError, Result, ok, err, wrap}
use go_yandex_practicum_metr.GoMap.{GoMap, lookup, insert}
use go_yandex_practicum_metr.Crypto.{Bytes, Ciphers, decrypt, or_wrap}

-- What io.ReadAll gives for a body that is read to its end.
abbrev pub Reader : Type 0
Reader = Result Bytes

pub record HttpRequest : Type 0 where
  pub header : GoMap String
  pub body : Reader

pub record HttpResponse : Type 0 where
  pub status : ℕ
  pub header : GoMap String
  pub body : Bytes

-- http.Handler: it takes the headers that are set on the response so far, and the state of the
-- server; `none` in place of a response is a panic.
abbrev pub HttpHandler : Type 0 → Type 0
HttpHandler S = HttpRequest → GoMap String → S → Option HttpResponse × S

-- The libraries. `gunzip` opens a gzip stream, which fails on a bad header at once and on bad data
-- when it is read; `gzip_level` is the error of gzip.NewWriterLevel, `gzip_write` the buffer after
-- the Write of the data, and `gzip_close` the buffer after the Close that follows; `gzip_written`
-- is what reaches a client through a gzip writer; `http_error` is http.Error with the text for a
-- status; `remove` deletes a header.
pub record HttpLib (Ip : Type 0) : Type 0 where
  pub parse_url : String → Option GoError
  pub http_error : ℕ → GoMap String → HttpResponse
  pub recovered : GoMap String → HttpResponse
  pub remove : String → GoMap String → GoMap String
  pub gunzip : Reader → Result Reader
  pub gzip_level : ℕ → Option GoError
  pub gzip_write : Bytes → Result Bytes
  pub gzip_close : Bytes → Bytes → Result Bytes
  pub gzip_written : Bytes → Bytes
  pub hmac : Bytes → String → Bytes
  pub hex_encode : Bytes → String
  pub hex_decode : String → Option Bytes
  pub contains : String → String → Bool
  pub parse_ip : String → Option Ip
  pub parse_cidr : String → Result (Ip → Bool)

-- `h.Get(name)`, which is empty for a header that is not set
abbrev pub get_header : String → GoMap String → String
get_header name h = get_or (lookup name h) ""

-- hmac.Equal
unfoldable pub eq_bytes : Bytes → Bytes → Bool
eq_bytes [] [] = true
eq_bytes [] (b ∷ bs) = false
eq_bytes (a ∷ xs) [] = false
eq_bytes (a ∷ xs) (b ∷ bs) = eqb a b && eq_bytes xs bs

-- one line of the log: status and size
abbrev pub LogEntry : Type 0
LogEntry = ℕ × ℕ

abbrev pub log_response :
    {S : Type 0}
    → List LogEntry
    → Option HttpResponse × S
    → Option HttpResponse × (S × List LogEntry)
log_response log (none, s) = (none, (s, log))
log_response log (some r, s) = (some r, (s, (r.status, length r.body) ∷ log))

module _ {Ip : Type 0} (lib : HttpLib Ip) where
  -- hash.Sign
  unfoldable pub sign : Bytes → String → String
  sign body key = lib.hex_encode (lib.hmac body key)

  -- hash.Equal
  unfoldable pub equal : String → String → Bool
  equal a b = elim (lib.hex_decode a) [
    | none ↦ false
    | some x ↦ elim (lib.hex_decode b) [ none ↦ false | some y ↦ eq_bytes x y ]
  ]

  module _ {S : Type 0} where
    -- hashResponseWriter.flush
    abbrev pub flush : String → Option HttpResponse × S → Option HttpResponse × S
    flush key (none, s) = (none, s)
    flush key (some r, s) =
        (some (record r { header = insert "HashSHA256" (sign r.body key) r.header }), s)

    -- HashMiddleware from the comparison of the signatures on
    unfoldable pub check_hash : String → HttpHandler S → GoMap String → Bytes → HttpHandler S
    check_hash key next header body req h s =
        if not (get_header "HashSHA256" header == "")
          && not (equal (get_header "HashSHA256" header) (sign body key))
        then (some (lib.http_error 400 h), s)
        else flush key (next (record req { body = ok body }) h s)

    -- HashMiddleware with a key
    unfoldable pub hash_middleware : String → HttpHandler S → HttpHandler S
    hash_middleware key next req h s = elim req.body [
      | err e ↦ (some (lib.http_error 500 h), s)
      | ok body ↦ check_hash key next req.header body req h s
    ]

    -- TrustedSubnetMiddleware with a parsed subnet
    unfoldable pub trusted_subnet : (Ip → Bool) → HttpHandler S → HttpHandler S
    trusted_subnet network next req h s = elim (lib.parse_ip (get_header "X-Real-IP" req.header)) [
      | none ↦ (some (lib.http_error 403 h), s)
      | some ip ↦ if network ip then next req h s else (some (lib.http_error 403 h), s)
    ]

    -- TrustedSubnetMiddleware: no middleware for an empty setting, an error for one that does not
    -- parse
    unfoldable pub trusted_subnet_middleware :
        String → Result (Option (HttpHandler S → HttpHandler S))
    trusted_subnet_middleware cidr =
        if cidr == ""
        then ok none
        else or_wrap "trusted_subnet: invalid CIDR" (lib.parse_cidr cidr)
            (λ network. ok (some (trusted_subnet network)))

    -- CryptoMiddleware from Decrypt on
    abbrev pub pass_plaintext :
        HttpHandler S
        → HttpRequest
        → GoMap String
        → S
        → Option (Result Bytes)
        → Option HttpResponse × S
    pass_plaintext next req h s none = (none, s)
    pass_plaintext next req h s (some (err e)) = (some (lib.http_error 400 h), s)
    pass_plaintext next req h s (some (ok plaintext)) =
        next (record { header = lib.remove "X-Crypto-Encrypted" req.header; body = ok plaintext }) h
          s

    -- CryptoMiddleware with a private key
    unfoldable pub crypto_middleware :
        {Block : Type 0} → Ciphers Block → HttpHandler S → HttpHandler S
    crypto_middleware ciphers next req h s =
        if get_header "X-Crypto-Encrypted" req.header == "" then next req h s else elim req.body [
          | err e ↦ (some (lib.http_error 400 h), s)
          | ok envelope ↦ pass_plaintext next req h s (decrypt ciphers envelope)
        ]

    -- the response that gzipResponseWriter and the deferred Close of the gzip writer leave
    abbrev pub compress_response : Option HttpResponse × S → Option HttpResponse × S
    compress_response (none, s) = (none, s)
    compress_response (some r, s) = (some (record r { body = lib.gzip_written r.body }), s)

    -- GzipMiddleware from `Accept-Encoding` on
    unfoldable pub gzip_response : HttpHandler S → HttpHandler S
    gzip_response next req h s =
        if lib.contains (get_header "Accept-Encoding" req.header) "gzip"
        then compress_response
            (next req (lib.remove "Content-Length" (insert "Content-Encoding" "gzip" h)) s)
        else next req h s

    unfoldable pub gzip_middleware : HttpHandler S → HttpHandler S
    gzip_middleware next req h s =
        if get_header "Content-Encoding" req.header == "gzip"
        then elim (lib.gunzip req.body) [
          | err e ↦ (some (lib.http_error 400 h), s)
          | ok reader ↦ gzip_response next (record req { body = reader }) h s
        ]
        else gzip_response next req h s

    -- Recoverer of chi
    abbrev pub recover : GoMap String → Option HttpResponse × S → Option HttpResponse × S
    recover h (none, s) = (some (lib.recovered h), s)
    recover h (some r, s) = (some r, s)

    abbrev pub recoverer : HttpHandler S → HttpHandler S
    recoverer next req h s = recover h (next req h s)

  -- Logger: a line for every request that is answered, beside the state
  unfoldable pub logger : {S : Type 0} → HttpHandler S → HttpHandler (S × List LogEntry)
  logger next req h (s, log) = log_response log (next req h s)

  abbrev pub optional_trusted : {S : Type 0} → Option (Ip → Bool) → HttpHandler S → HttpHandler S
  optional_trusted none next = next
  optional_trusted (some network) next = trusted_subnet network next

  abbrev pub optional_crypto :
      {S Block : Type 0} → Option (Ciphers Block) → HttpHandler S → HttpHandler S
  optional_crypto none next = next
  optional_crypto (some c) next = crypto_middleware c next

  abbrev pub optional_hash : {S : Type 0} → String → HttpHandler S → HttpHandler S
  optional_hash key next = if key == "" then next else hash_middleware key next

  -- newRouter, around the routes of the handlers
  unfoldable pub new_router :
      {S Block : Type 0}
      → String
      → Option (Ciphers Block)
      → Option (Ip → Bool)
      → HttpHandler S
      → HttpHandler (S × List LogEntry)
  new_router key priv subnet routes = logger (
      optional_trusted subnet
        (optional_crypto priv (gzip_middleware (optional_hash key (recoverer routes)))))

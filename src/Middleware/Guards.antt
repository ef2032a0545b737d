-- ===== src/Middleware/Guards.antt =====
-- What a request must pass before a handler runs: the trusted subnet and the signature.
use go_yandex_practicum_metr.Prelude.{
  String, ◌==◌, Bool, false, Option, none, some, List, ◌∷◌, length, ◌≡◌, ◌⊎◌, inl, inr, ◌∙◌, refl,
  Bool-cases, eq_iff, Option-cases,
}
use go_yandex_practicum_metr.GoError.{Result, ok, err, Result-cases}
use go_yandex_practicum_metr.GoMap.{GoMap}
use go_yandex_practicum_metr.Crypto.{Bytes, Ciphers, decrypt}
use go_yandex_practicum_metr.Middleware.Signature.{IsSignature, equal-IsSignature}
use go_yandex_practicum_metr.Middleware.{
  HttpRequest, HttpResponse, HttpHandler, HttpLib, get_header, sign, equal, flush, check_hash,
  hash_middleware, trusted_subnet, pass_plaintext, crypto_middleware, compress_response,
  gzip_response, gzip_middleware, recover, recoverer, LogEntry, log_response, logger,
  optional_trusted, optional_crypto, optional_hash, new_router,
}

module _ {Ip : Type 0} (lib : HttpLib Ip) where
  -- A request that carries no signature, or the signature of its body.
  abbrev pub IsVerified : String → HttpRequest → Type 0
  IsVerified key req =
      (b : Bytes) × (req.body ≡ ok b)
      × ((get_header "HashSHA256" req.header ≡ "")
          ⊎ IsSignature lib key b (get_header "HashSHA256" req.header))

module _ {Ip : Type 0} (lib : HttpLib Ip) {S : Type 0} where
  -- How a chain that ended with the result `r` used its handler: not at all, or once, on a request
  -- of which `P` holds, and it did nothing else to the state.
  abbrev pub Guards : (HttpRequest → Type 0) → HttpHandler S → S → Option HttpResponse × S → Type 0
  Guards P routes s r =
      (r.1 ≡ s) ⊎ ((req : HttpRequest) × (h : GoMap String) × P req × (r.1 ≡ (routes req h s).1))

  module _ (P : HttpRequest → Type 0) (routes : HttpHandler S) where
    -- A step after the handler that leaves the state alone.
    Guards-after :
        (s : S) (f : Option HttpResponse × S → Option HttpResponse × S)
        (r : Option HttpResponse × S)
        → ((r : Option HttpResponse × S) → (f r).1 ≡ r.1)
        → Guards P routes s r
        → Guards P routes s (f r)
    Guards-after s f r keeps (inl e) = inl (keeps r ∙ e)
    Guards-after s f r keeps (inr (req, h, p, e)) = inr (req, h, p, keeps r ∙ e)

  pub flush-state : (key : String) (r : Option HttpResponse × S) → (flush lib key r).1 ≡ r.1
  flush-state key (none, s) = refl
  flush-state key (some x, s) = refl

  pub compress_response-state : (r : Option HttpResponse × S) → (compress_response lib r).1 ≡ r.1
  compress_response-state (none, s) = refl
  compress_response-state (some x, s) = refl

  pub recover-state : (h : GoMap String) (r : Option HttpResponse × S) → (recover lib h r).1 ≡ r.1
  recover-state h (none, s) = refl
  recover-state h (some x, s) = refl

  module _ (key : String) (routes : HttpHandler S) where
    checked-Guards :
        (req : HttpRequest) (b : Bytes) (h : GoMap String) (s : S)
        → (get_header "HashSHA256" req.header ≡ "")
          ⊎ IsSignature lib key b (get_header "HashSHA256" req.header)
        → Guards
            (IsVerified lib key)
            routes
            s
            (flush lib key (recoverer lib routes (record req { body = ok b }) h s))
    checked-Guards req b h s v =
        inr (record req { body = ok b }, h, (b, refl, v), flush-state key _ ∙ recover-state h _)

    check_hash-Guards :
        (req : HttpRequest) (b : Bytes) (h : GoMap String) (s : S)
        → Guards
            (IsVerified lib key)
            routes
            s
            (check_hash lib key (recoverer lib routes) req.header b req h s)
    unfolding check_hash
    check_hash-Guards req b h s = elim (Bool-cases (get_header "HashSHA256" req.header == "")) [
      | inl unsigned ↦ simp unsigned (checked-Guards req b h s (inl ((eq_iff _ "").0 unsigned)))
      | inr signed ↦
          elim (Bool-cases (equal lib (get_header "HashSHA256" req.header) (sign lib b key))) [
            | inl same ↦
                simp (signed, same)
                  (checked-Guards req b h s (inr (equal-IsSignature lib key b _ same)))
            | inr other ↦ simp (signed, other) (inl refl)
          ]
    ]

    hash_middleware-Guards :
        (req : HttpRequest) (h : GoMap String) (s : S)
        → Guards
            (IsVerified lib key)
            routes
            s
            (hash_middleware lib key (recoverer lib routes) req h s)
    unfolding hash_middleware
    hash_middleware-Guards req h s = elim (Result-cases req.body) [
      | inl (e, bad) ↦ rw (bad, hash_middleware) (inl refl)
      | inr (b, read) ↦ rw (read, hash_middleware) (check_hash-Guards req b h s)
    ]

  module _ (P : HttpRequest → Type 0) (routes next : HttpHandler S)
      (inner : (req : HttpRequest) (h : GoMap String) (s : S)
        → Guards P routes s (next req h s)) where
    gzip_response-Guards :
        (req : HttpRequest) (h : GoMap String) (s : S)
        → Guards P routes s (gzip_response lib next req h s)
    unfolding gzip_response
    gzip_response-Guards req h s =
        elim (Bool-cases (lib.contains (get_header "Accept-Encoding" req.header) "gzip")) [
          | inl e ↦ rw e (
              Guards-after P routes s (compress_response lib) _ compress_response-state
                (inner req _ s))
          | inr e ↦ rw e (inner req h s)
        ]

    gzip_middleware-Guards :
        (req : HttpRequest) (h : GoMap String) (s : S)
        → Guards P routes s (gzip_middleware lib next req h s)
    unfolding gzip_middleware
    gzip_middleware-Guards req h s =
        elim (Bool-cases (get_header "Content-Encoding" req.header == "gzip")) [
          | inl e ↦ elim (Result-cases (lib.gunzip req.body)) [
            | inl (x, bad) ↦ simp (e, bad) (inl refl)
            | inr (r, open_ok) ↦ simp (e, open_ok) (gzip_response-Guards _ h s)
          ]
          | inr e ↦ simp e (gzip_response-Guards req h s)
        ]

    pass_plaintext-Guards :
        (req : HttpRequest) (h : GoMap String) (s : S) (o : Option (Result Bytes))
        → Guards P routes s (pass_plaintext lib next req h s o)
    pass_plaintext-Guards req h s none = inl refl
    pass_plaintext-Guards req h s (some (err e)) = inl refl
    pass_plaintext-Guards req h s (some (ok b)) = inner _ h s

    optional_crypto-Guards :
        {Block : Type 0}
        → (priv : Option (Ciphers Block)) (req : HttpRequest) (h : GoMap String) (s : S)
        → Guards P routes s (optional_crypto lib priv next req h s)
    unfolding crypto_middleware
    optional_crypto-Guards none req h s = inner req h s
    optional_crypto-Guards (some c) req h s =
        elim (Bool-cases (get_header "X-Crypto-Encrypted" req.header == "")) [
          | inl e ↦ simp e (inner req h s)
          | inr e ↦ elim (Result-cases req.body) [
            | inl (x, bad) ↦ simp (e, bad) (inl refl)
            | inr (b, read) ↦ simp (e, read) (pass_plaintext-Guards req h s (decrypt c b))
          ]
        ]

    optional_trusted-Guards :
        (subnet : Option (Ip → Bool)) (req : HttpRequest) (h : GoMap String) (s : S)
        → Guards P routes s (optional_trusted lib subnet next req h s)
    unfolding trusted_subnet
    optional_trusted-Guards none req h s = inner req h s
    optional_trusted-Guards (some network) req h s =
        elim (Option-cases (lib.parse_ip (get_header "X-Real-IP" req.header))) [
          | inl bad ↦ rw (bad, trusted_subnet) (inl refl)
          | inr (ip, e) ↦ elim (Bool-cases (network ip)) [
            | inl inside ↦ rw (e, inside, trusted_subnet) (inner req h s)
            | inr outside ↦ rw (e, outside, trusted_subnet) (inl refl)
          ]
        ]

  pub log_response-state :
      (log : List LogEntry) (r : Option HttpResponse × S) → (log_response log r).1.0 ≡ r.1
  log_response-state log (none, s) = refl
  log_response-state log (some x, s) = refl

  -- A server with a key runs its handlers at most once for a request, and only on a body that was
  -- read to its end and that carries no signature or its own, the bytes of its HMAC under the key;
  -- all else that answers the request leaves the state of the server as it was, whatever the subnet,
  -- the private key, the compression and the encryption of the request are.
  pub new_router-Guards :
      {Block : Type 0}
      → (key : String) (priv : Option (Ciphers Block)) (subnet : Option (Ip → Bool))
        (routes : HttpHandler S) (req : HttpRequest) (h : GoMap String) (s : S)
        (log : List LogEntry)
      → (key == "") ≡ false
      → ((new_router lib key priv subnet routes req h (s, log)).1.0 ≡ s)
        ⊎ ((req' : HttpRequest) × (h' : GoMap String) × IsVerified lib key req'
            × ((new_router lib key priv subnet routes req h (s, log)).1.0 ≡ (routes req' h' s).1))
  unfolding new_router logger
  new_router-Guards key priv subnet routes req h s log keyed =
      let signed : (req : HttpRequest) (h : GoMap String) (s : S)
          → Guards (IsVerified lib key) routes s
              (optional_hash lib key (recoverer lib routes) req h s) =
        λ req h s. rw keyed (hash_middleware-Guards key routes req h s) in
      let P = IsVerified lib key in
      let unzipped = gzip_middleware-Guards P routes _ signed in
      let plain = optional_crypto-Guards P routes _ unzipped priv in
      let trusted = optional_trusted-Guards P routes _ plain subnet req h s in
      let kept = log_response-state log (optional_trusted lib subnet _ req h s) in
      elim trusted [ inl e ↦ inl (kept ∙ e) | inr (req', h', v, e) ↦ inr (req', h', v, kept ∙ e) ]

  -- A request whose X-Real-IP header holds no address, or one outside the trusted subnet, is
  -- answered as forbidden, one line is logged, and no handler runs: the state is as it was.
  pub new_router-untrusted :
      {Block : Type 0}
      → (key : String) (priv : Option (Ciphers Block)) (network : Ip → Bool)
        (routes : HttpHandler S) (req : HttpRequest) (h : GoMap String) (s : S)
        (log : List LogEntry)
      → ((ip : Ip)
          → lib.parse_ip (get_header "X-Real-IP" req.header) ≡ some ip
          → network ip ≡ false)
      → new_router lib key priv (some network) routes req h (s, log) ≡ (
        some (lib.http_error 403 h),
        (s, ((lib.http_error 403 h).status, length (lib.http_error 403 h).body) ∷ log),
      )
  unfolding new_router logger trusted_subnet
  new_router-untrusted key priv network routes req h s log outside =
      elim (Option-cases (lib.parse_ip (get_header "X-Real-IP" req.header))) [
        | inl bad ↦ rw (bad, trusted_subnet) refl
        | inr (ip, e) ↦ rw (e, outside ip e, trusted_subnet) refl
      ]

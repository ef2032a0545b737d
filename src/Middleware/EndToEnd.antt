-- ===== src/Middleware/EndToEnd.antt =====
-- From the agent's newRequest to the handlers of the server.
use mathlib.Core.Path.{subst}
use go_yandex_practicum_metr.Prelude.{
  ℕ, String, Bool, true, Option, none, some, List, length, ◌≡◌, ◌∙◌, refl, sym,
}
use go_yandex_practicum_metr.GoError.{Result, ok}
use go_yandex_practicum_metr.GoMap.{GoMap, insert, lookup}
use go_yandex_practicum_metr.Crypto.{Bytes, Ciphers, CiphersLaws, encrypt}
use go_yandex_practicum_metr.Crypto.Envelope.{or_wrap-ok, decrypt-encrypt}
use go_yandex_practicum_metr.Middleware.{
  HttpRequest, HttpResponse, HttpHandler, HttpLib, log_response, get_header, trusted_subnet,
  gzip_middleware, crypto_middleware, recoverer, LogEntry, logger, optional_trusted,
  optional_crypto, optional_hash, new_router,
}
use go_yandex_practicum_metr.Middleware.Guards.{log_response-state}
use go_yandex_practicum_metr.Compress.{gzip_data}
use go_yandex_practicum_metr.Middleware.Chain.{
  HttpLaws, IsOk, Reaches, gzip_middleware-Reaches, crypto_middleware-Reaches,
}
use go_yandex_practicum_metr.Agent.Sender.{
  Sender, content_headers, build_request, pack, new_request,
}
use go_yandex_practicum_metr.Agent.Requests.{
  get_header-sign_headers, sign_headers-hash, sign_headers-ip, created-ok,
}

log_response-IsOk :
    {S : Type 0} (log : List LogEntry) (r : Option HttpResponse × S)
    → IsOk (log_response log r).0
    → IsOk r.0
log_response-IsOk log (none, s) o = o
log_response-IsOk log (some r, s) o = o

-- The address is one of the trusted subnet, if there is such a setting.
abbrev pub Trusts : {Ip : Type 0} → HttpLib Ip → Option (Ip → Bool) → String → Type 0
Trusts lib none a = Unit
Trusts {Ip} lib (some network) a = (ip : Ip) × (lib.parse_ip a ≡ some ip) × (network ip ≡ true)

-- The keys of the two sides belong together, if there are keys.
abbrev pub KeysLaws : {Block : Type 0} → Option (Ciphers Block) → Type 0
KeysLaws none = Unit
KeysLaws (some c) = CiphersLaws c

module _ {Ip Block S : Type 0} (lib : HttpLib Ip) (laws : HttpLaws lib) (sender : Sender Block)
    (routes : HttpHandler S) (b : Bytes) (rk rn : ℕ → Result Bytes)
    (sized : (n : ℕ) (r : Bytes) → rn n ≡ ok r → length r ≡ n) where
  optional_trusted-Reaches :
      (subnet : Option (Ip → Bool)) (next : HttpHandler S) (req : HttpRequest) (h : GoMap String)
      (s : S)
      → Trusts lib subnet (get_header "X-Real-IP" req.header)
      → Reaches b routes s (next req h s)
      → Reaches b routes s (optional_trusted lib subnet next req h s)
  unfolding trusted_subnet
  optional_trusted-Reaches none next req h s t r = r
  optional_trusted-Reaches (some network) next req h s (ip, e, inside) r =
      rw (e, inside, trusted_subnet) r

  pack-Reaches :
      (keys : Option (Ciphers Block)) (url : String) (z : Bytes) (req : HttpRequest)
      (h : GoMap String) (s : S)
      → KeysLaws keys
      → gzip_data lib b ≡ ok z
      → pack lib sender keys rk rn url b z ≡ ok req
      → (get_header "X-Real-IP" req.header ≡ sender.local_ip)
        × Reaches b routes s (
            optional_crypto lib keys
              (gzip_middleware lib (optional_hash lib sender.key (recoverer lib routes)))
              req
              h
              s)
  unfolding pack build_request lookup insert
  pack-Reaches none url z req h s k packed e =
      let made = created-ok (lib.parse_url url) _ req e in
      subst
        (λ r.
          (get_header "X-Real-IP" r.header ≡ sender.local_ip)
          × Reaches b routes s
              (gzip_middleware lib (optional_hash lib sender.key (recoverer lib routes)) r h s))
        made
        (
          sign_headers-ip lib sender b content_headers refl,
          gzip_middleware-Reaches lib laws sender.key routes b _ z h s
              (get_header-sign_headers lib sender b content_headers "Content-Encoding" refl refl)
              refl packed (sign_headers-hash lib sender b content_headers refl),
        )
  pack-Reaches (some c) url z req h s k packed e =
      let env = or_wrap-ok _ (encrypt c rk rn z) _ req e in
      let made = created-ok (lib.parse_url url) _ req env.2 in
      let marked = insert "X-Crypto-Encrypted" "1" content_headers in
      subst
        (λ r.
          (get_header "X-Real-IP" r.header ≡ sender.local_ip)
          × Reaches b routes s (
              crypto_middleware lib c
                (gzip_middleware lib (optional_hash lib sender.key (recoverer lib routes))) r h s))
        made
        (
          sign_headers-ip lib sender b marked refl,
          crypto_middleware-Reaches lib laws sender.key routes b c _ env.0 z h s
              (get_header-sign_headers lib sender b marked "X-Crypto-Encrypted" refl refl)
              (get_header-sign_headers lib sender b marked "Content-Encoding" refl refl) refl
              (decrypt-encrypt c k rk rn sized z env.0 env.1) packed
              (sign_headers-hash lib sender b marked refl),
        )

  -- A request that the agent builds reaches the handlers of the server, once and with the body that
  -- the agent started from, only the handlers change the state, and the router answers 200 only if
  -- they do: when the two sides have the same signing key or none, the key pair of the two sides
  -- belongs together or there is none, and the address of the agent is trusted or no subnet is set.
  pub new_router-new_request :
      (subnet : Option (Ip → Bool)) (url : String) (req : HttpRequest) (h : GoMap String) (s : S)
      (log : List LogEntry)
      → KeysLaws sender.pub_key
      → Trusts lib subnet sender.local_ip
      → new_request lib sender rk rn url b ≡ ok req
      → (req' : HttpRequest) × (h' : GoMap String) × (req'.body ≡ ok b)
        × ((new_router lib sender.key sender.pub_key subnet routes req h (s, log)).1.0
            ≡ (routes req' h' s).1)
        × (IsOk (new_router lib sender.key sender.pub_key subnet routes req h (s, log)).0
            → IsOk (routes req' h' s).0)
  unfolding new_request new_router logger
  new_router-new_request subnet url req h s log k t e =
      let z = or_wrap-ok _ (gzip_data lib b) _ req e in
      let inner = pack-Reaches sender.pub_key url z.0 req h s k z.1 z.2 in
      let trusted = subst (λ a. Trusts lib subnet a) (sym inner.0) t in
      let (req', h', read, ran, fine) = optional_trusted-Reaches subnet _ req h s trusted inner.1 in
      (req', h', read, log_response-state lib log _ ∙ ran, λ o. fine (log_response-IsOk log _ o))

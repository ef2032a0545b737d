-- ===== src/Middleware/Chain.antt =====
-- A request that the agent builds, through the chain of the server: the handlers get the body that
-- the agent started from.
use go_yandex_practicum_metr.Prelude.{
  String, ◌==◌, true, false, Option, none, some, [], ◌∷◌, ◌≡◌, ◌≢◌, ◌⊎◌, inl, inr, ◌∙◌, refl, ap,
  if◌then◌else◌, Bool-cases, arith,
}
use go_yandex_practicum_metr.GoError.{GoError, Result, ok}
use go_yandex_practicum_metr.GoMap.{GoMap}
use go_yandex_practicum_metr.Crypto.{Bytes, Ciphers, decrypt}
use go_yandex_practicum_metr.Crypto.Envelope.{or_wrap-ok}
use go_yandex_practicum_metr.Compress.{on_writer, gzip_data}
use go_yandex_practicum_metr.Middleware.Guards.{flush-state, recover-state, compress_response-state}
use go_yandex_practicum_metr.Middleware.{
  HttpRequest, HttpResponse, HttpHandler, HttpLib, get_header, eq_bytes, sign, equal, flush,
  check_hash, hash_middleware, crypto_middleware, gzip_response, gzip_middleware, recoverer,
  recover, compress_response, optional_hash,
}

-- What the libraries document: gzip is undone by gunzip, hex by its decoding, and a header that is
-- deleted is no longer set, with every other header as it was; and the answer to a panic is no 200.
pub record HttpLaws {Ip : Type 0} (lib : HttpLib Ip) : Type 0 where
  pub gunzip-gzip_close :
      (b buf z : Bytes)
      → lib.gzip_write b ≡ ok buf
      → lib.gzip_close b buf ≡ ok z
      → lib.gunzip (ok z) ≡ ok (ok b)
  pub hex_decode-hex_encode : (b : Bytes) → lib.hex_decode (lib.hex_encode b) ≡ some b
  pub get_header-remove :
      (n m : String) (h : GoMap String)
      → get_header n (lib.remove m h) ≡ (if m == n then "" else get_header n h)
  pub recovered_fails : (h : GoMap String) → (lib.recovered h).status ≢ 200

eq_bytes_refl : (b : Bytes) → eq_bytes b b ≡ true
unfolding eq_bytes
eq_bytes_refl [] = refl
eq_bytes_refl (x ∷ b) = ground (arith, eq_bytes_refl b)

on_writer-ok : (w : Option GoError) (r : Result Bytes) (z : Bytes) → on_writer w r ≡ ok z → r ≡ ok z
on_writer-ok none r z e = e
on_writer-ok (some x) r z e = cc

module _ {Ip : Type 0} (lib : HttpLib Ip) (laws : HttpLaws lib) where
  gunzip-gzip_data : (b z : Bytes) → gzip_data lib b ≡ ok z → lib.gunzip (ok z) ≡ ok (ok b)
  unfolding gzip_data
  gunzip-gzip_data b z e =
      let w = or_wrap-ok _ (lib.gzip_write b) _ z (on_writer-ok (lib.gzip_level 1) _ z e) in
      let c = or_wrap-ok _ (lib.gzip_close b w.0) _ z w.2 in
      laws.gunzip-gzip_close b w.0 z w.1 (c.1 ∙ c.2)

  equal-eq_bytes :
      (s t : String) (x y : Bytes)
      → lib.hex_decode s ≡ some x
      → lib.hex_decode t ≡ some y
      → equal lib s t ≡ eq_bytes x y
  unfolding equal
  equal-eq_bytes s t x y p q = rw (p, equal) (rw q refl)

  equal-sign : (b : Bytes) (key : String) → equal lib (sign lib b key) (sign lib b key) ≡ true
  unfolding sign
  equal-sign b key =
      let decoded = laws.hex_decode-hex_encode (lib.hmac b key) in
      equal-eq_bytes _ _ _ _ decoded decoded ∙ eq_bytes_refl (lib.hmac b key)

-- The signature of a request is missing or is that of `b`.
abbrev pub Signed : {Ip : Type 0} → HttpLib Ip → String → Bytes → GoMap String → Type 0
Signed lib key b h = (get_header "HashSHA256" h ≡ "") ⊎ (get_header "HashSHA256" h ≡ sign lib b key)

abbrev pub IsOk : Option HttpResponse → Type 0
IsOk none = ⊥
IsOk (some r) = r.status ≡ 200

-- A chain that ran its handler once, on a request with the body `b`, did nothing else to the state,
-- and answers 200 only if the handler did.
abbrev pub Reaches : {S : Type 0} → Bytes → HttpHandler S → S → Option HttpResponse × S → Type 0
Reaches b routes s r =
    (req : HttpRequest) × (h : GoMap String) × (req.body ≡ ok b)
    × (r.1 ≡ (routes req h s).1)
    × (IsOk r.0 → IsOk (routes req h s).0)

flush-IsOk :
    {Ip S : Type 0} (lib : HttpLib Ip) (key : String) (r : Option HttpResponse × S)
    → IsOk (flush lib key r).0
    → IsOk r.0
flush-IsOk lib key (none, s) o = o
flush-IsOk lib key (some r, s) o = o

compress_response-IsOk :
    {Ip S : Type 0} (lib : HttpLib Ip) (r : Option HttpResponse × S)
    → IsOk (compress_response lib r).0
    → IsOk r.0
compress_response-IsOk lib (none, s) o = o
compress_response-IsOk lib (some r, s) o = o

recover-IsOk :
    {Ip S : Type 0} (lib : HttpLib Ip) (laws : HttpLaws lib) (h : GoMap String)
    (r : Option HttpResponse × S)
    → IsOk (recover lib h r).0
    → IsOk r.0
recover-IsOk lib laws h (none, s) o = laws.recovered_fails h o
recover-IsOk lib laws h (some r, s) o = o

module _ {Ip : Type 0} (lib : HttpLib Ip) (laws : HttpLaws lib) {S : Type 0} (key : String)
    (routes : HttpHandler S) (b : Bytes) where
  check_hash-Reaches :
      (req : HttpRequest) (h : GoMap String) (s : S)
      → Signed lib key b req.header
      → Reaches b routes s (check_hash lib key (recoverer lib routes) req.header b req h s)
  unfolding check_hash
  check_hash-Reaches req h s signed =
      let ran : Reaches b routes s
          (flush lib key (recoverer lib routes (record req { body = ok b }) h s)) =
        (
          record req { body = ok b },
          h,
          refl,
          flush-state lib key _ ∙ recover-state lib h _,
          λ o. recover-IsOk lib laws h _ (flush-IsOk lib key _ o),
        ) in
      elim signed [
        | inl unsigned ↦ rw (unsigned, check_hash) ran
        | inr signature ↦
            let same : equal lib (get_header "HashSHA256" req.header) (sign lib b key) ≡ true =
              ap (λ x. equal lib x (sign lib b key)) signature ∙ equal-sign lib laws b key in
            elim (Bool-cases (get_header "HashSHA256" req.header == "")) [
              | inl empty ↦ simp empty ran
              | inr present ↦ simp (present, same) ran
            ]
      ]

  optional_hash-Reaches :
      (req : HttpRequest) (h : GoMap String) (s : S)
      → req.body ≡ ok b
      → Signed lib key b req.header
      → Reaches b routes s (optional_hash lib key (recoverer lib routes) req h s)
  unfolding hash_middleware
  optional_hash-Reaches req h s read signed = elim (Bool-cases (key == "")) [
    | inl empty ↦ rw empty (req, h, read, recover-state lib h _, recover-IsOk lib laws h _)
    | inr keyed ↦ rw (keyed, read, hash_middleware) (check_hash-Reaches req h s signed)
  ]

  gzip_response-Reaches :
      (req : HttpRequest) (h : GoMap String) (s : S)
      → req.body ≡ ok b
      → Signed lib key b req.header
      → Reaches b routes s
          (gzip_response lib (optional_hash lib key (recoverer lib routes)) req h s)
  unfolding gzip_response
  gzip_response-Reaches req h s read signed =
      elim (Bool-cases (lib.contains (get_header "Accept-Encoding" req.header) "gzip")) [
        | inl e ↦
            let (req', h', read', ran, fine) = optional_hash-Reaches req _ s read signed in
            rw e (
              req',
              h',
              read',
              compress_response-state lib _ ∙ ran,
              λ o. fine (compress_response-IsOk lib _ o),
            )
        | inr e ↦ rw e (optional_hash-Reaches req h s read signed)
      ]

  pub gzip_middleware-Reaches :
      (req : HttpRequest) (z : Bytes) (h : GoMap String) (s : S)
      → get_header "Content-Encoding" req.header ≡ "gzip"
      → req.body ≡ ok z
      → gzip_data lib b ≡ ok z
      → Signed lib key b req.header
      → Reaches b routes s
          (gzip_middleware lib (optional_hash lib key (recoverer lib routes)) req h s)
  unfolding gzip_middleware
  gzip_middleware-Reaches req z h s zipped read packed signed =
      let marked : (get_header "Content-Encoding" req.header == "gzip") ≡ true =
        ap (λ x. x == "gzip") zipped in
      let opened : lib.gunzip req.body ≡ ok (ok b) =
        ap lib.gunzip read ∙ gunzip-gzip_data lib laws b z packed in
      simp (marked, opened) (gzip_response-Reaches (record req { body = ok b }) h s refl signed)

  module _ {Block : Type 0} where
    pub crypto_middleware-Reaches :
        (c : Ciphers Block) (req : HttpRequest) (env z : Bytes) (h : GoMap String) (s : S)
        → get_header "X-Crypto-Encrypted" req.header ≡ "1"
        → get_header "Content-Encoding" req.header ≡ "gzip"
        → req.body ≡ ok env
        → decrypt c env ≡ some (ok z)
        → gzip_data lib b ≡ ok z
        → Signed lib key b req.header
        → Reaches b routes s (
            crypto_middleware lib c
              (gzip_middleware lib (optional_hash lib key (recoverer lib routes)))
              req
              h
              s)
    unfolding crypto_middleware
    crypto_middleware-Reaches c req env z h s marked zipped read opened packed signed =
        let mark : (get_header "X-Crypto-Encrypted" req.header == "") ≡ false =
          ap (λ x. x == "") marked in
        simp (mark, read, opened)
          (gzip_middleware-Reaches _ z h s (laws.get_header-remove _ _ _ ∙ zipped) refl packed
            (elim signed [
              | inl e ↦ inl (laws.get_header-remove _ _ _ ∙ e)
              | inr e ↦ inr (laws.get_header-remove _ _ _ ∙ e)
            ]))

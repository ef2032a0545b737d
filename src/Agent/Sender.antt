-- ===== src/Agent/Sender.antt =====
-- The requests of the HTTP sender: newRequest of internal/agent/sender.go, with the Encrypt of
-- pkg/crypto where a public key is set, and the GzipData of pkg/compress.
use go_yandex_practicum_metr.Prelude.{ℕ, String, ◌==◌, Option, none, some, [], if◌then◌else◌}
use go_yandex_practicum_metr.GoError.{GoError, Result, ok, err, wrap}
use go_yandex_practicum_metr.GoMap.{GoMap, insert}
use go_yandex_practicum_metr.Crypto.{Bytes, Ciphers, encrypt, or_wrap}
use go_yandex_practicum_metr.Compress.{gzip_data}
use go_yandex_practicum_metr.Middleware.{HttpRequest, HttpLib, sign}

-- Sender; `pub_key` stands for the pair of keys, of which the agent has the public one
pub record Sender (Block : Type 0) : Type 0 where
  pub key : String
  pub pub_key : Option (Ciphers Block)
  pub local_ip : String

abbrev pub set_if : String → String → GoMap String → GoMap String
set_if name value h = if value == "" then h else insert name value h

abbrev pub content_headers : GoMap String
content_headers =
    insert "Accept-Encoding" "gzip"
      (insert "Content-Encoding" "gzip" (insert "Content-Type" "application/json" []))

abbrev pub created : Option GoError → HttpRequest → Result HttpRequest
created none req = ok req
created (some e) req = err (wrap "create request" e)

module _ {Ip Block : Type 0} (lib : HttpLib Ip) (sender : Sender Block) where
  -- the optional headers of newRequest on top of the others
  abbrev pub sign_headers : Bytes → GoMap String → GoMap String
  sign_headers body headers =
      if sender.key == ""
      then set_if "X-Real-IP" sender.local_ip headers
      else insert "HashSHA256" (sign lib body sender.key)
          (set_if "X-Real-IP" sender.local_ip headers)

  -- newRequest from http.NewRequest on, where `headers` are those up to the mark of encryption
  unfoldable pub build_request : String → Bytes → GoMap String → Bytes → Result HttpRequest
  build_request url body headers payload =
      created (lib.parse_url url) (record { header = sign_headers body headers; body = ok payload })

  -- newRequest from `if s.pubKey != nil` on
  unfoldable pub pack :
      Option (Ciphers Block)
      → (ℕ → Result Bytes)
      → (ℕ → Result Bytes)
      → String
      → Bytes
      → Bytes
      → Result HttpRequest
  pack none random_key random_nonce url body gz = build_request url body content_headers gz
  pack (some keys) random_key random_nonce url body gz =
      or_wrap "encrypt" (encrypt keys random_key random_nonce gz) (λ envelope.
        build_request url body (insert "X-Crypto-Encrypted" "1" content_headers) envelope)

  -- newRequest
  unfoldable pub new_request :
      (ℕ → Result Bytes) → (ℕ → Result Bytes) → String → Bytes → Result HttpRequest
  new_request random_key random_nonce url body =
      or_wrap "compress" (gzip_data lib body)
        (λ gz. pack sender.pub_key random_key random_nonce url body gz)

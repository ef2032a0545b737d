-- ===== src/Crypto.antt =====
-- pkg/crypto/cipher.go: the envelope of an encrypted body. RSA-OAEP, AES and GCM, and the source of
-- random bytes, are parameters.
pub mod Envelope
pub mod Keys
use go_yandex_practicum_metr.Prelude.{
  ℕ, ◌+◌, ◌-◌, ◌*◌, ◌/◌, ◌%◌, ◌≤◌, ltb, leb, ◌&&◌, String, Option, none, some, List, [], ◌∷◌, ◌++◌,
  length, take, drop, ◌≡◌, if◌then◌else◌,
}
use go_yandex_practicum_metr.GoError.{GoError, Result, ok, err, text, wrap}

-- A slice of bytes, each below 256.
abbrev pub Bytes : Type 0
Bytes = List ℕ

-- cipher.AEAD, with its Seal and its Open; Open reports a text that was not sealed under the key
pub record Gcm : Type 0 where
  pub nonce_size : ℕ
  pub seal : Bytes → Bytes → Bytes
  pub unseal : Bytes → Bytes → Result Bytes

-- The libraries that the envelope is made with, for one pair of keys; `Block` is cipher.Block.
pub record Ciphers (Block : Type 0) : Type 0 where
  pub encrypt_oaep : Bytes → Result Bytes
  pub decrypt_oaep : Bytes → Result Bytes
  pub new_cipher : Bytes → Result Block
  pub new_gcm : Block → Result Gcm

-- What those libraries document: the private key undoes the public one, and Open undoes Seal
-- under the same key and a nonce of the right size.
pub record CiphersLaws {Block : Type 0} (lib : Ciphers Block) : Type 0 where
  pub decrypt_oaep-encrypt_oaep :
      (k w : Bytes) → lib.encrypt_oaep k ≡ ok w → lib.decrypt_oaep w ≡ ok k
  pub unseal-seal :
      (b : Block) (g : Gcm) (nonce p : Bytes)
      → lib.new_gcm b ≡ ok g
      → length nonce ≡ g.nonce_size
      → g.unseal nonce (g.seal nonce p) ≡ ok p

-- `if err != nil { return nil, fmt.Errorf(p + ": %w", err) }`
unfoldable pub or_wrap {ℓ κ} :
    {A : Type ℓ} → {B : Type κ} → String → Result A → (A → Result B) → Result B
or_wrap p (err e) f = err (wrap p e)
or_wrap p (ok a) f = f a

-- binary.BigEndian.PutUint16
abbrev pub put_uint16 : ℕ → Bytes
put_uint16 n = (n / 256) % 256 ∷ n % 256 ∷ []

-- binary.BigEndian.Uint16, which panics on fewer than two bytes
abbrev pub get_uint16 : Bytes → Option ℕ
get_uint16 [] = none
get_uint16 (a ∷ []) = none
get_uint16 (a ∷ b ∷ bs) = some (a * 256 + b)

module _ {Block : Type 0} (lib : Ciphers Block) where
  -- Encrypt, where `random_key n` and `random_nonce n` are what the two reads of n random bytes give
  unfoldable pub encrypt : (ℕ → Result Bytes) → (ℕ → Result Bytes) → Bytes → Result Bytes
  encrypt random_key random_nonce plaintext = or_wrap "rand aes key" (random_key 32) (λ aes_key.
      or_wrap "aes new cipher" (lib.new_cipher aes_key) (λ block.
        or_wrap "aes gcm" (lib.new_gcm block) (λ gcm.
          or_wrap "rand nonce" (random_nonce gcm.nonce_size) (λ nonce.
            or_wrap "rsa wrap" (lib.encrypt_oaep aes_key) (λ wrapped.
              if ltb 65535 (length wrapped)
              then err (text "wrapped key too large")
              else ok (
                  put_uint16 (length wrapped)
                  ++ (wrapped ++ (nonce ++ gcm.seal nonce plaintext))))))))

-- `b[from:to]`, which panics unless from ≤ to ≤ len(b); a panic is `none`
unfoldable pub slice : ℕ → ℕ → Bytes → Option Bytes
slice from to b =
    if leb from to && leb to (length b) then some (take (to - from) (drop from b)) else none

-- A step that may panic, then the rest; and one that may return an error, then the rest.
unfoldable pub or_panic {ℓ κ} : {A : Type ℓ} → {B : Type κ} → Option A → (A → Option B) → Option B
or_panic none f = none
or_panic (some a) f = f a

unfoldable pub or_return {ℓ κ} :
    {A : Type ℓ} → {B : Type κ} → String → Result A → (A → Option (Result B)) → Option (Result B)
or_return p (err e) f = some (err (wrap p e))
or_return p (ok a) f = f a

module _ {Block : Type 0} (lib : Ciphers Block) where
  -- Decrypt from `nonceSize := gcm.NonceSize()` on
  unfoldable pub open_envelope : Bytes → ℕ → Gcm → Option (Result Bytes)
  open_envelope envelope key_len gcm =
      if ltb (length envelope) (2 + key_len + gcm.nonce_size)
      then some (err (text "envelope truncated (nonce)"))
      else or_panic (slice (2 + key_len) (2 + key_len + gcm.nonce_size) envelope) (λ nonce.
        or_panic (slice (2 + key_len + gcm.nonce_size) (length envelope) envelope) (λ ciphertext.
          or_return "aes-gcm open" (gcm.unseal nonce ciphertext)
            (λ plaintext. some (ok plaintext))))

  -- Decrypt from `keyLen` on
  unfoldable pub unwrap_envelope : Bytes → ℕ → Option (Result Bytes)
  unwrap_envelope envelope key_len =
      if ltb (length envelope) (2 + key_len)
      then some (err (text "envelope truncated (wrapped key)"))
      else or_panic (slice 2 (2 + key_len) envelope) (λ wrapped.
        or_return "rsa unwrap" (lib.decrypt_oaep wrapped) (λ aes_key.
          or_return "aes new cipher" (lib.new_cipher aes_key) (λ block.
            or_return "aes gcm" (lib.new_gcm block) (λ gcm. open_envelope envelope key_len gcm))))

  -- Decrypt
  unfoldable pub decrypt : Bytes → Option (Result Bytes)
  decrypt envelope =
      if ltb (length envelope) 2
      then some (err (text "envelope too short"))
      else or_panic (slice 0 2 envelope)
          (λ prefix. or_panic (get_uint16 prefix) (λ key_len. unwrap_envelope envelope key_len))

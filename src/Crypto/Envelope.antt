-- ===== src/Crypto/Envelope.antt =====
-- The envelope of pkg/crypto is read back by its own reader, and the reader never panics.
use go_yandex_practicum_metr.Prelude.{
  ℕ, suc, ◌+◌, ◌-◌, ◌*◌, ◌/◌, ◌%◌, ◌≤◌, ltb, leb, true, false, String, Bool, Option, some, [], ◌∷◌,
  ◌++◌, append_nil, append_assoc, length, length-append, take, drop, take-append, drop-append, ◌≡◌,
  ◌∙◌, refl, sym, ap, arith, if◌then◌else◌,
}
use go_yandex_practicum_metr.GoError.{GoError, Result, ok, err, wrap}
use go_yandex_practicum_metr.Crypto.{
  Bytes, Gcm, Ciphers, CiphersLaws, or_wrap, encrypt, slice, or_panic, or_return, open_envelope,
  unwrap_envelope, decrypt,
}

pub or_wrap-ok {ℓ κ} :
    {A : Type ℓ}
    → {B : Type κ} → (p : String) (r : Result A) (f : A → Result B) (b : B) → or_wrap p r f ≡ ok b
    → (a : A) × (r ≡ ok a) × (f a ≡ ok b)
unfolding or_wrap
or_wrap-ok p (ok a) f b e = (a, refl, e)
or_wrap-ok p (err g) f b e = cc

if-ok :
    (c : Bool) (e : GoError) (x b : Bytes)
    → (if c then err e else ok x) ≡ ok b
    → (c ≡ false) × (x ≡ b)
if-ok true e x b h = cc
if-ok false e x b h = (refl, cc)

slice-append :
    (xs ys zs : Bytes) → slice (length xs) (length xs + length ys) (xs ++ (ys ++ zs)) ≡ some ys
unfolding slice
slice-append xs ys zs =
    let low : leb (length xs) (length xs + length ys) ≡ true = ground arith in
    let high : leb (length xs + length ys) (length (xs ++ (ys ++ zs))) ≡ true =
      ground (arith, length-append xs (ys ++ zs), length-append ys zs) in
    let size : length xs + length ys - length xs ≡ length ys = omega arith in
    rw (low, high, size, drop-append xs (ys ++ zs), take-append ys zs, slice) refl

slice-at :
    (from to : ℕ) (xs ys zs b : Bytes)
    → b ≡ xs ++ (ys ++ zs)
    → from ≡ length xs
    → to ≡ from + length ys
    → slice from to b ≡ some ys
slice-at from to xs ys zs b hb hf ht =
    (λ i. slice (hf i) ((ht ∙ ap (λ n. n + length ys) hf) i) (hb i)) ∙ slice-append xs ys zs

-- A computation that returns, with a value or with an error, and does not panic.
abbrev Returns : Option (Result Bytes) → Type 0
Returns o = (r : Result Bytes) × (o ≡ some r)

if-Returns :
    (c : Bool) (x y : Option (Result Bytes))
    → Returns x
    → ((c ≡ false) → Returns y)
    → Returns (if c then x else y)
if-Returns true x y hx hy = hx
if-Returns false x y hx hy = hy refl

slice-Returns :
    (from to : ℕ) (b : Bytes) (f : Bytes → Option (Result Bytes))
    → from ≤ to
    → to ≤ length b
    → ((x : Bytes) → Returns (f x))
    → Returns (or_panic (slice from to b) f)
unfolding slice or_panic
slice-Returns from to b f h k g =
    let low : leb from to ≡ true = ground arith in
    let high : leb to (length b) ≡ true = ground arith in
    rw (low, high, slice) (g (take (to - from) (drop from b)))

or_return-Returns {ℓ} :
    {A : Type ℓ}
    → (p : String) (r : Result A) (f : A → Option (Result Bytes)) → ((a : A) → Returns (f a))
    → Returns (or_return p r f)
unfolding or_return
or_return-Returns p (err e) f h = (err (wrap p e), refl)
or_return-Returns p (ok a) f h = h a

module _ {Block : Type 0} (lib : Ciphers Block) where
  open_envelope-Returns : (env : Bytes) (n : ℕ) (g : Gcm) → Returns (open_envelope lib env n g)
  unfolding open_envelope
  open_envelope-Returns env n g =
      if-Returns (ltb (length env) (2 + n + g.nonce_size)) _ _ (_, refl)
        (λ long.
          slice-Returns (2 + n) (2 + n + g.nonce_size) env _ (omega arith) (ground arith) (λ nonce.
            slice-Returns (2 + n + g.nonce_size) (length env) env _ (ground arith) (omega arith)
              (λ ct. or_return-Returns "aes-gcm open" (g.unseal nonce ct) _ (λ p. (ok p, refl)))))

  unwrap_envelope-Returns : (env : Bytes) (n : ℕ) → Returns (unwrap_envelope lib env n)
  unfolding unwrap_envelope
  unwrap_envelope-Returns env n =
      if-Returns (ltb (length env) (2 + n)) _ _ (_, refl)
        (λ long. slice-Returns 2 (2 + n) env _ (omega arith) (ground arith) (λ wrapped.
          or_return-Returns "rsa unwrap" (lib.decrypt_oaep wrapped) _ (λ key.
            or_return-Returns "aes new cipher" (lib.new_cipher key) _ (λ block.
              or_return-Returns "aes gcm" (lib.new_gcm block) _
                (λ g. open_envelope-Returns env n g)))))

  -- Decrypt returns, with the plaintext or with an error, on every envelope: no slice that it takes
  -- is out of range, whatever bytes a client sends.
  pub decrypt-Returns : (env : Bytes) → (r : Result Bytes) × (decrypt lib env ≡ some r)
  unfolding decrypt slice or_panic
  decrypt-Returns [] = (_, refl)
  decrypt-Returns (a ∷ []) = (_, refl)
  decrypt-Returns (a ∷ b ∷ env) =
      let long : ltb (suc (suc (length env))) 2 ≡ false = ground arith in
      let high : leb 2 (suc (suc (length env))) ≡ true = ground arith in
      rw (long, high, decrypt) (unwrap_envelope-Returns (a ∷ b ∷ env) _)

  -- What Decrypt makes of an envelope of the layout that Encrypt writes.
  open_envelope-layout :
      (a b : ℕ) (w nonce ct : Bytes) (g : Gcm)
      → length nonce ≡ g.nonce_size
      → open_envelope lib (a ∷ b ∷ (w ++ (nonce ++ ct))) (length w) g
        ≡ or_return "aes-gcm open" (g.unseal nonce ct) (λ p. some (ok p))
  unfolding open_envelope or_panic
  open_envelope-layout a b w nonce ct g hs =
      let env = a ∷ b ∷ (w ++ (nonce ++ ct)) in
      let size : length env ≡ 2 + length w + length nonce + length ct =
        omega (arith, length-append w (nonce ++ ct), length-append nonce ct) in
      let long : ltb (length env) (2 + length w + g.nonce_size) ≡ false = ground (arith, size) in
      let first : slice (2 + length w) (2 + length w + g.nonce_size) env ≡ some nonce =
        slice-at _ _ (a ∷ b ∷ w) nonce ct env refl (omega arith) (omega (arith, hs)) in
      let second : slice (2 + length w + g.nonce_size) (length env) env ≡ some ct =
        slice-at _ _ (a ∷ b ∷ (w ++ nonce)) ct [] env
          (ap (λ l. a ∷ b ∷ l)
            (sym (append_assoc w nonce ct) ∙ ap (λ l. (w ++ nonce) ++ l) (sym (append_nil ct))))
          (omega (arith, length-append w nonce, hs)) (omega (arith, size, hs)) in
      rw (long, first, second, open_envelope) refl

  -- What Decrypt makes of an envelope of the layout that Encrypt writes.
  decrypt-layout :
      (a b : ℕ) (w nonce ct : Bytes) (k : Bytes) (block : Block) (g : Gcm)
      → a * 256 + b ≡ length w
      → lib.decrypt_oaep w ≡ ok k
      → lib.new_cipher k ≡ ok block
      → lib.new_gcm block ≡ ok g
      → length nonce ≡ g.nonce_size
      → decrypt lib (a ∷ b ∷ (w ++ (nonce ++ ct)))
        ≡ or_return "aes-gcm open" (g.unseal nonce ct) (λ p. some (ok p))
  unfolding decrypt unwrap_envelope or_panic or_return
  decrypt-layout a b w nonce ct k block g hn hk hb hg hs =
      let env = a ∷ b ∷ (w ++ (nonce ++ ct)) in
      let long : ltb (length env) 2 ≡ false = ground arith in
      let head : slice 0 2 env ≡ some (a ∷ b ∷ []) =
        slice-at 0 2 [] (a ∷ b ∷ []) (w ++ (nonce ++ ct)) env refl refl refl in
      let size : length env ≡ 2 + length w + length (nonce ++ ct) =
        omega (arith, length-append w (nonce ++ ct)) in
      let longer : ltb (length env) (2 + length w) ≡ false = ground (arith, size) in
      let key : slice 2 (2 + length w) env ≡ some w =
        slice-at 2 _ (a ∷ b ∷ []) w (nonce ++ ct) env refl refl refl in
      rw (long, head, decrypt)
        (rw (hn, longer, key, unwrap_envelope)
          (rw hk (rw hb (rw hg (open_envelope-layout a b w nonce ct g hs)))))

  -- Decrypt gives back the plaintext of every envelope that Encrypt returns, when the private key
  -- undoes the public one and AES-GCM opens what it seals.
  pub decrypt-encrypt :
      CiphersLaws lib
      → (random_key random_nonce : ℕ → Result Bytes)
      → ((n : ℕ) (r : Bytes) → random_nonce n ≡ ok r → length r ≡ n)
      → (plaintext env : Bytes) → encrypt lib random_key random_nonce plaintext ≡ ok env
      → decrypt lib env ≡ some (ok plaintext)
  unfolding encrypt or_return
  decrypt-encrypt laws rk rn sized p env e =
      let k = or_wrap-ok _ (rk 32) _ env e in
      let block = or_wrap-ok _ (lib.new_cipher k.0) _ env k.2 in
      let g = or_wrap-ok _ (lib.new_gcm block.0) _ env block.2 in
      let nonce = or_wrap-ok _ (rn g.0.nonce_size) _ env g.2 in
      let w = or_wrap-ok _ (lib.encrypt_oaep k.0) _ env nonce.2 in
      let out = if-ok (ltb 65535 (length w.0)) _ _ env w.2 in
      let size : (length w.0 / 256) % 256 * 256 + length w.0 % 256 ≡ length w.0 =
        ground (arith, out.0) in
      let opens = laws.unseal-seal block.0 g.0 nonce.0 p g.1 (sized _ nonce.0 nonce.1) in
      ap (λ b. decrypt lib b) (sym out.1)
      ∙ decrypt-layout _ _ w.0 nonce.0 (g.0.seal nonce.0 p) k.0 block.0 g.0 size
          (laws.decrypt_oaep-encrypt_oaep k.0 w.0 w.1) block.1 g.1 (sized _ nonce.0 nonce.1)
      ∙ rw opens refl

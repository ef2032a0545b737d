-- ===== src/Middleware/Signature.antt =====
-- What Equal of pkg/hash/hash.go accepts as the signature of a body.
use go_yandex_practicum_metr.Prelude.{
  String, true, some, [], ◌∷◌, ◌≡◌, ◌∙◌, refl, sym, ap, arith, inl, inr, Option-cases,
}
use go_yandex_practicum_metr.Crypto.{Bytes}
use go_yandex_practicum_metr.Middleware.{HttpLib, eq_bytes, sign, equal}

eq_bytes-eq : (x y : Bytes) → eq_bytes x y ≡ true → x ≡ y
unfolding eq_bytes
eq_bytes-eq [] [] e = refl
eq_bytes-eq [] (y ∷ ys) e = cc
eq_bytes-eq (x ∷ xs) [] e = cc
eq_bytes-eq (x ∷ xs) (y ∷ ys) e = ground (arith, eq_bytes-eq xs ys)

module _ {Ip : Type 0} (lib : HttpLib Ip) where
  -- A header in hex with the same bytes as the hex of the HMAC of the body under the key.
  abbrev pub IsSignature : String → Bytes → String → Type 0
  IsSignature key body header =
      (x : Bytes) × (lib.hex_decode header ≡ some x)
      × (lib.hex_decode (lib.hex_encode (lib.hmac body key)) ≡ some x)

  pub equal-IsSignature :
      (key : String) (body : Bytes) (header : String)
      → equal lib header (sign lib body key) ≡ true
      → IsSignature key body header
  unfolding equal sign
  equal-IsSignature key body header e = elim (Option-cases (lib.hex_decode header)) [
    | inl bad ↦ absurd (ground (arith, bad))
    | inr (x, read) ↦ elim (Option-cases (lib.hex_decode (lib.hex_encode (lib.hmac body key)))) [
      | inl bad ↦ absurd (ground (arith, read, bad))
      | inr (y, own) ↦
          let same : x ≡ y = eq_bytes-eq x y (ground (arith, read, own)) in
          (x, read, own ∙ ap some (sym same))
    ]
  ]

-- ===== src/Examples/Stubs.antt =====
-- Concrete libraries for the runs of the network: gzip and the ciphers copy, a signature is the body
-- itself, and bytes are written as text in unary.

use mathlib.Core.Path.{subst}
use go_yandex_practicum_metr.Prelude.{
  ℕ, zero, suc, ◌+◌, String, ◌==◌, eq_iff, Option, none, some, List, [], ◌∷◌, length, ◌≡◌, ◌∙◌,
  refl, sym, ap, arith, if◌then◌else◌,
}
use go_yandex_practicum_metr.GoError.{Result, ok, err}
use go_yandex_practicum_metr.GoMap.{GoMap, lookup}
use go_yandex_practicum_metr.Crypto.{Bytes, Gcm, Ciphers, CiphersLaws}
use go_yandex_practicum_metr.Middleware.{HttpHandler, HttpLib, get_header}
use go_yandex_practicum_metr.Middleware.Chain.{HttpLaws}
use go_yandex_practicum_metr.Agent.Sender.{Sender}

unfoldable pub unary : ℕ → String → String
unary zero s = s
unary (suc n) s = String.◌∷◌ "1" (unary n s)

unfoldable pub write_bytes : Bytes → String
write_bytes [] = ""
write_bytes (n ∷ b) = unary n (String.◌∷◌ "0" (write_bytes b))

abbrev pub push : ℕ → Option Bytes → Option Bytes
push n none = none
push n (some b) = some (n ∷ b)

unfoldable pub read_bytes : ℕ → String → Option Bytes
read_bytes n String.[] = some []
read_bytes n (String.◌∷◌ c s) =
    let more = read_bytes (suc n) s in
    let next = read_bytes 0 s in if String.◌∷◌ c "" == "0" then push n next else more

read_bytes-unary :
    (n m : ℕ) (s : String)
    → read_bytes n (unary m (String.◌∷◌ "0" s)) ≡ push (m + n) (read_bytes 0 s)
unfolding read_bytes unary
read_bytes-unary n zero s = ap (λ k. push k (read_bytes 0 s)) (omega arith)
read_bytes-unary n (suc m) s =
    read_bytes-unary (suc n) m s ∙ ap (λ k. push k (read_bytes 0 s)) (omega arith)

read_bytes-write_bytes : (b : Bytes) → read_bytes 0 (write_bytes b) ≡ some b
unfolding read_bytes write_bytes
read_bytes-write_bytes [] = refl
read_bytes-write_bytes (n ∷ b) =
    read_bytes-unary 0 n (write_bytes b)
    ∙ ap (λ o. push (n + 0) o) (read_bytes-write_bytes b)
    ∙ ap (λ k. some (k ∷ b)) (omega arith)

unfoldable pub remove : String → GoMap String → GoMap String
remove m [] = []
remove m ((k, v) ∷ h) = if k == m then remove m h else (k, v) ∷ remove m h

get_header-remove :
    (n m : String) (h : GoMap String)
    → get_header n (remove m h) ≡ (if m == n then "" else get_header n h)
unfolding remove lookup
get_header-remove n m [] = ground arith
get_header-remove n m ((k, v) ∷ h) =
    ground (arith, get_header-remove n m h, eq_iff k m, eq_iff m n, eq_iff k n)

abbrev pub http_lib : HttpLib String
http_lib = record {
  parse_url = λ u. none;
  http_error = λ c h. record { status = c; header = h; body = [] };
  recovered = λ h. record { status = 500; header = h; body = [] };
  remove = remove;
  gunzip = ok;
  gzip_level = λ n. none;
  gzip_write = ok;
  gzip_close = λ b buf. ok buf;
  gzip_written = λ b. b;
  hmac = λ b k. b;
  hex_encode = write_bytes;
  hex_decode = read_bytes 0;
  contains = λ a b. a == b;
  parse_ip = λ a. if a == "" then none else some a;
  parse_cidr = λ c. ok (λ a. a == c);
}

ok_inj {ℓ} : {A : Type ℓ} → (x y : A) → ok x ≡ ok y → x ≡ y
ok_inj x y e = cc

pub http_lib-laws : HttpLaws http_lib
http_lib-laws = record {
  gunzip-gzip_close = λ b buf z e d. ap (λ x. ok (ok x)) (sym (ok_inj b buf e ∙ ok_inj buf z d));
  hex_decode-hex_encode = read_bytes-write_bytes;
  get_header-remove = get_header-remove;
  recovered_fails = λ h. omega arith;
}

abbrev pub gcm : Gcm
gcm = record { nonce_size = 2; seal = λ n p. p; unseal = λ n c. ok c }

abbrev pub ciphers : Ciphers Bytes
ciphers = record { encrypt_oaep = ok; decrypt_oaep = ok; new_cipher = ok; new_gcm = λ b. ok gcm }

pub ciphers-laws : CiphersLaws ciphers
ciphers-laws = record {
  decrypt_oaep-encrypt_oaep = λ k w e. ap ok (sym (ok_inj k w e));
  unseal-seal = λ b g n p e s. subst (λ g. g.unseal n (g.seal n p) ≡ ok p) (ok_inj gcm g e) refl;
}

-- n bytes that count down
unfoldable pub count_down : ℕ → Bytes
count_down zero = []
count_down (suc n) = n ∷ count_down n

length-count_down : (n : ℕ) → length (count_down n) ≡ n
unfolding count_down
length-count_down zero = refl
length-count_down (suc n) = omega (arith, length-count_down n)

abbrev pub random : ℕ → Result Bytes
random n = ok (count_down n)

pub random-sized : (n : ℕ) (r : Bytes) → random n ≡ ok r → length r ≡ n
random-sized n r e = subst (λ b. length b ≡ n) (ok_inj _ r e) (length-count_down n)

abbrev pub sender : Sender Bytes
sender = record { key = "secret"; pub_key = some ciphers; local_ip = "10.0.0.7" }

-- A handler that keeps the bodies that it was given.
abbrev pub keep_body : HttpHandler (List Bytes)
keep_body req h s = elim req.body [
  | ok b ↦ (some (record { status = 200; header = h; body = b }), b ∷ s)
  | err e ↦ (none, s)
]

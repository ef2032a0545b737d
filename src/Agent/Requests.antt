-- ===== src/Agent/Requests.antt =====
-- The headers of the requests that the HTTP sender builds.
use go_yandex_practicum_metr.Prelude.{
  String, ◌==◌, eq_iff, false, Option, none, some, ◌≡◌, ◌⊎◌, inl, inr, ◌∙◌, refl, arith,
  if◌then◌else◌, Bool-cases,
}
use go_yandex_practicum_metr.GoError.{GoError, ok}
use go_yandex_practicum_metr.GoMap.{GoMap, insert}
use go_yandex_practicum_metr.GoMap.Laws.{lookup-insert}
use go_yandex_practicum_metr.Crypto.{Bytes}
use go_yandex_practicum_metr.Middleware.{HttpRequest, HttpLib, get_header, sign}
use go_yandex_practicum_metr.Agent.Sender.{Sender, set_if, sign_headers, created}

get_header-insert :
    (k n v : String) (h : GoMap String)
    → get_header n (insert k v h) ≡ (if k == n then v else get_header n h)
get_header-insert k n v h = grind (arith, lookup-insert k n v h)

get_header-set_if :
    (k n v : String) (h : GoMap String)
    → get_header n (set_if k v h)
      ≡ (if v == "" then get_header n h else if k == n then v else get_header n h)
get_header-set_if k n v h = grind (arith, lookup-insert k n v h)

insert-other :
    (k n v : String) (h : GoMap String)
    → ((k == n) ≡ false)
    → get_header n (insert k v h) ≡ get_header n h
insert-other k n v h e = get_header-insert k n v h ∙ rw e refl

set_if-other :
    (k n v : String) (h : GoMap String)
    → ((k == n) ≡ false)
    → get_header n (set_if k v h) ≡ get_header n h
set_if-other k n v h e = ground (arith, get_header-set_if k n v h)

set_if-ip :
    (v : String) (h : GoMap String)
    → get_header "X-Real-IP" h ≡ ""
    → get_header "X-Real-IP" (set_if "X-Real-IP" v h) ≡ v
set_if-ip v h e = ground (arith, get_header-set_if "X-Real-IP" "X-Real-IP" v h, eq_iff v "")

pub created-ok : (o : Option GoError) (x req : HttpRequest) → created o x ≡ ok req → x ≡ req
created-ok none x req e = cc
created-ok (some g) x req e = cc

module _ {Ip Block : Type 0} (lib : HttpLib Ip) (sender : Sender Block) where
  -- What the optional headers change: the signature and the address, and nothing else.
  module _ (body : Bytes) (h : GoMap String) where
    pub get_header-sign_headers :
        (n : String)
        → (("HashSHA256" == n) ≡ false)
        → (("X-Real-IP" == n) ≡ false)
        → get_header n (sign_headers lib sender body h) ≡ get_header n h
    get_header-sign_headers n a b = elim (Bool-cases (sender.key == "")) [
      | inl e ↦ simp e (set_if-other "X-Real-IP" n sender.local_ip h b)
      | inr e ↦
          simp e
            (insert-other "HashSHA256" n _ _ a ∙ set_if-other "X-Real-IP" n sender.local_ip h b)
    ]

    pub sign_headers-hash :
        get_header "HashSHA256" h ≡ ""
        → (get_header "HashSHA256" (sign_headers lib sender body h) ≡ "")
          ⊎ (get_header "HashSHA256" (sign_headers lib sender body h) ≡ sign lib body sender.key)
    sign_headers-hash a = elim (Bool-cases (sender.key == "")) [
      | inl e ↦ inl (simp e (set_if-other "X-Real-IP" "HashSHA256" sender.local_ip h refl ∙ a))
      | inr e ↦ inr (simp e (get_header-insert "HashSHA256" "HashSHA256" _ _))
    ]

    pub sign_headers-ip :
        get_header "X-Real-IP" h ≡ ""
        → get_header "X-Real-IP" (sign_headers lib sender body h) ≡ sender.local_ip
    sign_headers-ip a = elim (Bool-cases (sender.key == "")) [
      | inl e ↦ simp e (set_if-ip sender.local_ip h a)
      | inr e ↦
          simp e (insert-other "HashSHA256" "X-Real-IP" _ _ refl ∙ set_if-ip sender.local_ip h a)
    ]

-- ===== src/Grpc/Subnet.antt =====
-- TrustedSubnetInterceptor of internal/grpcserver/server.go, and that it admits the callers that the
-- HTTP middleware admits.
use go_yandex_practicum_metr.Prelude.{
  String, ◌==◌, Bool, false, Option, none, some, List, [], ◌∷◌, ◌≡◌, ◌⊎◌, inl, inr, refl,
  if◌then◌else◌, Bool-cases, Option-cases,
}
use go_yandex_practicum_metr.GoError.{Result, ok}
use go_yandex_practicum_metr.GoMap.{GoMap}
use go_yandex_practicum_metr.Crypto.{or_wrap}
use go_yandex_practicum_metr.Middleware.{
  HttpRequest, HttpHandler, HttpLib, get_header, trusted_subnet,
}
use go_yandex_practicum_metr.Grpc.{Status, permission_denied}

-- the value of x-real-ip: `none` where the call carries no metadata
abbrev pub raw_ip : Option (List String) → String
raw_ip none = ""
raw_ip (some []) = ""
raw_ip (some (v ∷ vs)) = v

module _ {Ip S : Type 0} (lib : HttpLib Ip) where
  -- the interceptor for a parsed subnet
  unfoldable pub trusted_subnet_interceptor :
      (Ip → Bool) → Option (List String) → (S → Status × S) → S → Status × S
  trusted_subnet_interceptor network metadata handler s = elim (lib.parse_ip (raw_ip metadata)) [
    | none ↦ (permission_denied, s)
    | some ip ↦ if network ip then handler s else (permission_denied, s)
  ]

  -- TrustedSubnetInterceptor: no interceptor for an empty setting, an error for one that does not
  -- parse
  unfoldable pub interceptor_for :
      String → Result (Option (Option (List String) → (S → Status × S) → S → Status × S))
  interceptor_for cidr =
      if cidr == ""
      then ok none
      else or_wrap "trusted_subnet: invalid CIDR" (lib.parse_cidr cidr)
          (λ network. ok (some (trusted_subnet_interceptor network)))

  -- A caller with no address, or with one outside of the subnet, is refused.
  pub interceptor-refuses :
      (network : Ip → Bool) (metadata : Option (List String)) (handler : S → Status × S) (s : S)
      → ((ip : Ip) → lib.parse_ip (raw_ip metadata) ≡ some ip → network ip ≡ false)
      → trusted_subnet_interceptor network metadata handler s ≡ (permission_denied, s)
  unfolding trusted_subnet_interceptor
  interceptor-refuses network metadata handler s outside =
      elim (Option-cases (lib.parse_ip (raw_ip metadata))) [
        | inl bad ↦ rw (bad, trusted_subnet_interceptor) refl
        | inr (ip, e) ↦ rw (e, outside ip e, trusted_subnet_interceptor) refl
      ]

  -- For one subnet and one address, HTTP and gRPC decide alike: both run what they guard and do
  -- nothing else, or both refuse (403, and permission denied) and leave the state as it was.
  pub trusted_subnet_interceptor-eq-trusted_subnet :
      (network : Ip → Bool) (metadata : Option (List String)) (handler : S → Status × S)
      (next : HttpHandler S) (req : HttpRequest) (h : GoMap String) (s : S)
      → get_header "X-Real-IP" req.header ≡ raw_ip metadata
      → ((trusted_subnet_interceptor network metadata handler s ≡ handler s)
          × (trusted_subnet lib network next req h s ≡ next req h s))
        ⊎ ((trusted_subnet_interceptor network metadata handler s ≡ (permission_denied, s))
            × (trusted_subnet lib network next req h s ≡ (some (lib.http_error 403 h), s)))
  unfolding trusted_subnet trusted_subnet_interceptor
  trusted_subnet_interceptor-eq-trusted_subnet network metadata handler next req h s same =
      elim (Option-cases (lib.parse_ip (raw_ip metadata))) [
        | inl bad ↦
            inr (rw (bad, trusted_subnet_interceptor) refl, rw (same, trusted_subnet) (rw bad refl))
        | inr (ip, e) ↦ elim (Bool-cases (network ip)) [
          | inl inside ↦ inl (
            rw (e, inside, trusted_subnet_interceptor) refl,
            rw (same, trusted_subnet) (rw (e, inside) refl),
          )
          | inr outside ↦ inr (
            rw (e, outside, trusted_subnet_interceptor) refl,
            rw (same, trusted_subnet) (rw (e, outside) refl),
          )
        ]
      ]

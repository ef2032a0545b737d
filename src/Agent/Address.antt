-- ===== src/Agent/Address.antt =====
-- The address that the agent gives of itself: detectLocalIPv4 and NewSender of
-- internal/agent/sender.go. The interfaces of the host are a parameter.
use go_yandex_practicum_metr.Prelude.{
  String, Bool, true, false, Option, none, some, List, [], ◌∷◌, ◌++◌, ◌≡◌, ◌⊎◌, inl, inr, refl,
  if◌then◌else◌, All, ap,
}
use go_yandex_practicum_metr.GoError.{Result, ok, err}
use go_yandex_practicum_metr.Crypto.{Ciphers}
use go_yandex_practicum_metr.Agent.Sender.{Sender}

-- net.Addr: a *net.IPNet with its IsLoopback and the text of its To4, if there is one, or another
-- type of address
pub data NetAddr : Type 0 where
  ip_net : Bool → Option String → NetAddr
  other_addr : NetAddr

-- the loop of detectLocalIPv4
unfoldable pub first_ipv4 : List NetAddr → String
first_ipv4 [] = ""
first_ipv4 (other_addr ∷ addrs) = first_ipv4 addrs
first_ipv4 (ip_net loopback ip4 ∷ addrs) =
    let rest = first_ipv4 addrs in
    if loopback then rest else elim ip4 [ none ↦ rest | some ip ↦ ip ]

-- detectLocalIPv4, where `addrs` is what net.InterfaceAddrs returns
unfoldable pub detect_local_ipv4 : Result (List NetAddr) → String
detect_local_ipv4 (err e) = ""
detect_local_ipv4 (ok addrs) = first_ipv4 addrs

-- NewSender; the URL and the HTTP client stand outside of the model's Sender
unfoldable pub new_sender :
    {Block : Type 0} → String → Option (Ciphers Block) → Result (List NetAddr) → Sender Block
new_sender key pub_key addrs = record {
  key = key;
  pub_key = pub_key;
  local_ip = detect_local_ipv4 addrs;
}

-- A non-loopback address with an IPv4 form.
abbrev IsUsable : NetAddr → Type 0
IsUsable (ip_net false (some ip)) = Unit
IsUsable (ip_net false none) = ⊥
IsUsable (ip_net true ip4) = ⊥
IsUsable other_addr = ⊥

-- What the text says of the addresses: it is the first one that is usable, or empty, if none is.
abbrev IsFirstUsable : List NetAddr → String → Type 0
IsFirstUsable addrs found =
    ((before after : List NetAddr) × (addrs ≡ before ++ ip_net false (some found) ∷ after)
      × All (λ a. ¬ IsUsable a) before)
    ⊎ ((found ≡ "") × All (λ a. ¬ IsUsable a) addrs)

skip :
    (a : NetAddr) (addrs : List NetAddr) (found : String)
    → ¬ IsUsable a
    → IsFirstUsable addrs found
    → IsFirstUsable (a ∷ addrs) found
skip a addrs found n (inl (before, after, same, others)) =
    inl (a ∷ before, after, ap (λ l. a ∷ l) same, (n, others))
skip a addrs found n (inr (empty, others)) = inr (empty, (n, others))

first_ipv4-IsFirstUsable : (addrs : List NetAddr) → IsFirstUsable addrs (first_ipv4 addrs)
unfolding first_ipv4
first_ipv4-IsFirstUsable [] = inr (refl, tt)
first_ipv4-IsFirstUsable (other_addr ∷ addrs) =
    skip other_addr addrs _ (λ u. u) (first_ipv4-IsFirstUsable addrs)
first_ipv4-IsFirstUsable (ip_net true ip4 ∷ addrs) =
    skip (ip_net true ip4) addrs _ (λ u. u) (first_ipv4-IsFirstUsable addrs)
first_ipv4-IsFirstUsable (ip_net false none ∷ addrs) =
    skip (ip_net false none) addrs _ (λ u. u) (first_ipv4-IsFirstUsable addrs)
first_ipv4-IsFirstUsable (ip_net false (some ip) ∷ addrs) = inl ([], addrs, refl, tt)

-- detectLocalIPv4 returns the first IPv4 address of the interfaces that is no loopback address, or
-- the empty text, if there is none.
detect_local_ipv4-IsFirstUsable :
    (addrs : List NetAddr) → IsFirstUsable addrs (detect_local_ipv4 (ok addrs))
unfolding detect_local_ipv4
detect_local_ipv4-IsFirstUsable addrs = first_ipv4-IsFirstUsable addrs

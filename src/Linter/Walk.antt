-- ===== src/Linter/Walk.antt =====
-- The walk of a function body finds every forbidden call in it, and nothing else.

use mathlib.Core.Path.{subst}
use go_yandex_practicum_metr.Prelude.{ℕ, Bool, ◌++◌, ◌≡◌, ◌⊎◌, inl, inr, ◌↔◌, refl}
use go_yandex_practicum_metr.Linter.{
  Node, Nodes, call, ident, selector, other, no_nodes, next_node, Report, check_call, inspect,
  inspect_all,
}
use go_yandex_practicum_metr.Linter.Calls.{
  Reported, IsForbidden, Reported-append, check_call-Reported,
}

-- A call of `f` at a position somewhere in a node.
mutual
  pub Calls : ℕ → Node → Node → Type 0
  Calls pos f (call q g args) = ((pos ≡ q) × (f ≡ g)) ⊎ (Calls pos f g ⊎ CallsAmong pos f args)
  Calls pos f (ident name) = ⊥
  Calls pos f (selector x sel) = Calls pos f x
  Calls pos f (other ns) = CallsAmong pos f ns

  pub CallsAmong : ℕ → Node → Nodes → Type 0
  CallsAmong pos f no_nodes = ⊥
  CallsAmong pos f (next_node n ns) = Calls pos f n ⊎ CallsAmong pos f ns

-- A forbidden call at a position of a node.
abbrev pub HasForbidden : Bool → Node → Report → Type 0
HasForbidden in_main n (q, m) = (f : Node) × Calls q f n × IsForbidden in_main f m

abbrev pub HasForbiddenAmong : Bool → Nodes → Report → Type 0
HasForbiddenAmong in_main ns (q, m) = (f : Node) × CallsAmong q f ns × IsForbidden in_main f m

by_place :
    (in_main : Bool) (pos : ℕ) (g : Node) (args : Nodes) (r : Report)
    → (HasForbidden in_main g r → Reported r (inspect in_main g))
    → (HasForbiddenAmong in_main args r → Reported r (inspect_all in_main args))
    → (f : Node) → Calls r.0 f (call pos g args)
    → IsForbidden in_main f r.1
    → Reported r (check_call in_main pos g)
      ⊎ Reported r (inspect in_main g ++ inspect_all in_main args)
unfolding Calls
by_place in_main pos g args (q, m) inner among f (inl (at, same)) bad =
    inl (
      (check_call-Reported in_main pos q g m).1 (at, subst (λ x. IsForbidden in_main x m) same bad))
by_place in_main pos g args (q, m) inner among f (inr (inl found)) bad =
    inr ((Reported-append (q, m) _ _).1 (inl (inner (f, found, bad))))
by_place in_main pos g args (q, m) inner among f (inr (inr found)) bad =
    inr ((Reported-append (q, m) _ _).1 (inr (among (f, found, bad))))

mutual
  unfolding inspect Calls

  pub inspect-Reported :
      (in_main : Bool) (n : Node) (r : Report)
      → Reported r (inspect in_main n) ↔ HasForbidden in_main n r
  inspect-Reported in_main (call pos g args) (q, m) = (
    λ h. elim ((Reported-append (q, m) (check_call in_main pos g) _).0 h) [
      | inl here ↦
          let (at, bad) = (check_call-Reported in_main pos q g m).0 here in (g, inl (at, refl), bad)
      | inr there ↦
          elim ((Reported-append (q, m) (inspect in_main g) (inspect_all in_main args)).0 there) [
            | inl inner ↦
                let (f, found, bad) = (inspect-Reported in_main g (q, m)).0 inner in
                (f, inr (inl found), bad)
            | inr among ↦
                let (f, found, bad) = (inspect_all-Reported in_main args (q, m)).0 among in
                (f, inr (inr found), bad)
          ]
    ],
    λ h. (Reported-append (q, m) (check_call in_main pos g) _).1 (
        by_place in_main pos g args (q, m) (inspect-Reported in_main g (q, m)).1
          (inspect_all-Reported in_main args (q, m)).1 h.0 h.1 h.2),
  )
  inspect-Reported in_main (ident name) r = (λ h. absurd h, λ h. absurd h.1)
  inspect-Reported in_main (selector x sel) (q, m) = inspect-Reported in_main x (q, m)
  inspect-Reported in_main (other ns) (q, m) = inspect_all-Reported in_main ns (q, m)

  inspect_all-Reported :
      (in_main : Bool) (ns : Nodes) (r : Report)
      → Reported r (inspect_all in_main ns) ↔ HasForbiddenAmong in_main ns r
  inspect_all-Reported in_main no_nodes r = (λ h. absurd h, λ h. absurd h.1)
  inspect_all-Reported in_main (next_node n ns) (q, m) = (
    λ h. elim ((Reported-append (q, m) (inspect in_main n) (inspect_all in_main ns)).0 h) [
      | inl inner ↦
          let (f, found, bad) = (inspect-Reported in_main n (q, m)).0 inner in (f, inl found, bad)
      | inr among ↦
          let (f, found, bad) = (inspect_all-Reported in_main ns (q, m)).0 among in
          (f, inr found, bad)
    ],
    λ h. (Reported-append (q, m) (inspect in_main n) (inspect_all in_main ns)).1 (elim (h.1) [
      | inl found ↦ inl ((inspect-Reported in_main n (q, m)).1 (h.0, found, h.2))
      | inr found ↦ inr ((inspect_all-Reported in_main ns (q, m)).1 (h.0, found, h.2))
    ]),
  )

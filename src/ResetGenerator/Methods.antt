-- ===== src/ResetGenerator/Methods.antt =====
-- hasOrWillHaveReset finds the types on whose variables Reset can be called.
use mathlib.Core.Path.{subst}
use go_yandex_practicum_metr.Prelude.{
  arith, eq_iff, String, Bool, true, none, some, List, [], ◌∷◌, ◌≡◌, ◌⊎◌, ◌↔◌, inl, inr, sym, ap,
  refl, Any, ◌||◌,
}
use go_yandex_practicum_metr.ResetGenerator.{
  GoType, basic, slice, map_type, pointer, named, alias, other_type, Method, has_reset_method,
  is_member, is_marked_name, pointer_to, base_of, has_or_will_have_reset,
}
use go_yandex_practicum_metr.ResetGenerator.Meaning.{IsResetMethod, methods_on, IsMarked, HasReset}

-- The search for a method and the set of the marked names find what is there.
has_reset_method-Any : (ms : List Method) → (has_reset_method ms ≡ true) ↔ Any IsResetMethod ms
unfolding has_reset_method
has_reset_method-Any [] = (λ e. absurd (cc), λ h. absurd h)
has_reset_method-Any (m ∷ ms) = ground (arith, has_reset_method-Any ms, eq_iff m.name "Reset")

is_member-Any : (n : String) (xs : List String) → (is_member n xs ≡ true) ↔ Any (λ x. x ≡ n) xs
unfolding is_member
is_member-Any n [] = (λ e. absurd (cc), λ h. absurd h)
is_member-Any n (x ∷ xs) = ground (arith, is_member-Any n xs, eq_iff x n)

is_marked_name-IsMarked :
    (marked : List String) (pkg_path : String) (t : GoType)
    → (is_marked_name marked pkg_path t ≡ true) ↔ IsMarked marked pkg_path t
is_marked_name-IsMarked marked pkg_path (named (some p) n u) =
    ground (arith, is_member-Any n marked, eq_iff p pkg_path)
is_marked_name-IsMarked marked pkg_path (named none n u) = (λ e. absurd (cc), λ h. absurd h)
is_marked_name-IsMarked marked pkg_path (pointer t) = (λ e. absurd (cc), λ h. absurd h)
is_marked_name-IsMarked marked pkg_path (basic k) = (λ e. absurd (cc), λ h. absurd h)
is_marked_name-IsMarked marked pkg_path slice = (λ e. absurd (cc), λ h. absurd h)
is_marked_name-IsMarked marked pkg_path map_type = (λ e. absurd (cc), λ h. absurd h)
is_marked_name-IsMarked marked pkg_path (alias t) = (λ e. absurd (cc), λ h. absurd h)
is_marked_name-IsMarked marked pkg_path other_type = (λ e. absurd (cc), λ h. absurd h)

-- A marked struct, or a pointer to one.
abbrev IsMarkedBase : List String → String → GoType → Type 0
IsMarkedBase marked pkg_path t =
    IsMarked marked pkg_path t ⊎ ((u : GoType) × (t ≡ pointer u) × IsMarked marked pkg_path u)

no_pointer :
    (marked : List String) (pkg_path : String) (t : GoType)
    → ((u : GoType) → t ≡ pointer u → ⊥)
    → IsMarked marked pkg_path t ↔ IsMarkedBase marked pkg_path t
no_pointer marked pkg_path t other =
    (λ h. inl h, λ h. elim h [ inl m ↦ m | inr (u, e, m) ↦ absurd (other u e) ])

element : GoType → GoType → GoType
element d (pointer t) = t
element d (basic k) = d
element d slice = d
element d map_type = d
element d (named p n u) = d
element d (alias t) = d
element d other_type = d

base_of-IsMarkedBase :
    (marked : List String) (pkg_path : String) (t : GoType)
    → IsMarked marked pkg_path (base_of t) ↔ IsMarkedBase marked pkg_path t
unfolding element
base_of-IsMarkedBase marked pkg_path (pointer t) = (
  λ h. inr (t, refl, h),
  λ h. elim h [
    | inl m ↦ absurd m
    | inr (u, e, m) ↦ subst (IsMarked marked pkg_path) (sym (ap (element t) e)) m
  ],
)
base_of-IsMarkedBase marked pkg_path (basic k) = no_pointer marked pkg_path (basic k) (λ u e. cc)
base_of-IsMarkedBase marked pkg_path slice = no_pointer marked pkg_path slice (λ u e. cc)
base_of-IsMarkedBase marked pkg_path map_type = no_pointer marked pkg_path map_type (λ u e. cc)
base_of-IsMarkedBase marked pkg_path (named p n u) =
    no_pointer marked pkg_path (named p n u) (λ v e. cc)
base_of-IsMarkedBase marked pkg_path (alias t) = no_pointer marked pkg_path (alias t) (λ u e. cc)
base_of-IsMarkedBase marked pkg_path other_type = no_pointer marked pkg_path other_type (λ u e. cc)

methods_on-eq-pointer_to :
    (method_set : GoType → List Method) (t : GoType)
    → methods_on method_set t ≡ method_set (pointer_to t)
methods_on-eq-pointer_to method_set (pointer t) = refl
methods_on-eq-pointer_to method_set (basic k) = refl
methods_on-eq-pointer_to method_set slice = refl
methods_on-eq-pointer_to method_set map_type = refl
methods_on-eq-pointer_to method_set (named p n u) = refl
methods_on-eq-pointer_to method_set (alias t) = refl
methods_on-eq-pointer_to method_set other_type = refl

or_true : (a b : Bool) → ((a || b) ≡ true) ↔ ((a ≡ true) ⊎ (b ≡ true))
or_true a b = ground arith

-- The test is true exactly for the types on whose variables Reset can be called.
pub has_or_will_have_reset-HasReset :
    (method_set : GoType → List Method) (marked : List String) (pkg_path : String) (t : GoType)
    → (has_or_will_have_reset method_set marked pkg_path t ≡ true)
      ↔ HasReset method_set marked pkg_path t
unfolding has_or_will_have_reset
has_or_will_have_reset-HasReset method_set marked pkg_path t =
    let own = has_reset_method-Any (method_set (pointer_to t)) in
    let given = is_marked_name-IsMarked marked pkg_path (base_of t) in
    let base = base_of-IsMarkedBase marked pkg_path t in
    let same = methods_on-eq-pointer_to method_set t in
    let both =
      or_true (has_reset_method (method_set (pointer_to t)))
        (is_marked_name marked pkg_path (base_of t)) in
    (
      λ e. elim (both.0 e) [
        | inl found ↦ inl (subst (Any IsResetMethod) (sym same) (own.0 found))
        | inr found ↦ inr (base.0 (given.0 found))
      ],
      λ h. elim h [
        | inl found ↦ both.1 (inl (own.1 (subst (Any IsResetMethod) same found)))
        | inr found ↦ both.1 (inr (given.1 (base.1 found)))
      ],
    )

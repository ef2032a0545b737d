-- ===== src/Linter/Reports.antt =====
-- The linter reports exactly the forbidden calls in the bodies of the functions that it looks at.

use go_yandex_practicum_metr.Prelude.{
  String, Bool, true, false, none, some, List, [], ◌∷◌, ◌++◌, ◌≡◌, ◌⊎◌, inl, inr, ◌↔◌, refl,
  if◌then◌else◌, Any,
}
use go_yandex_practicum_metr.Linter.{
  Decl, func_decl, other_decl, File, Report, is_main_func, check_decl, check_decls, is_skipped,
  run_no_exit,
}
use go_yandex_practicum_metr.Linter.Calls.{Reported, Reported-append}
use go_yandex_practicum_metr.Linter.Walk.{HasForbidden, inspect-Reported}

-- A forbidden call in the body of a function.
abbrev pub IsAtFault : String → Decl → Report → Type 0
IsAtFault pkg (other_decl n) r = ⊥
IsAtFault pkg (func_decl has_recv name none) r = ⊥
IsAtFault pkg (func_decl has_recv name (some body)) r =
    HasForbidden (is_main_func pkg has_recv name) body r

check_decl-Reported :
    (pkg : String) (d : Decl) (r : Report) → Reported r (check_decl pkg d) ↔ IsAtFault pkg d r
unfolding check_decl
check_decl-Reported pkg (other_decl n) r = (λ h. h, λ h. h)
check_decl-Reported pkg (func_decl has_recv name none) r = (λ h. h, λ h. h)
check_decl-Reported pkg (func_decl has_recv name (some body)) r =
    inspect-Reported (is_main_func pkg has_recv name) body r

either : {A B C D : Type 0} → (A ↔ B) → (C ↔ D) → (A ⊎ C) ↔ (B ⊎ D)
either f g = (
  λ h. elim h [ inl a ↦ inl (f.0 a) | inr c ↦ inr (g.0 c) ],
  λ h. elim h [ inl b ↦ inl (f.1 b) | inr d ↦ inr (g.1 d) ],
)

chain : {A B C : Type 0} → (A ↔ B) → (B ↔ C) → A ↔ C
chain f g = (λ a. g.0 (f.0 a), λ c. f.1 (g.1 c))

check_decls-Reported :
    (pkg : String) (ds : List Decl) (r : Report)
    → Reported r (check_decls pkg ds) ↔ Any (λ d. IsAtFault pkg d r) ds
unfolding check_decls
check_decls-Reported pkg [] r = (λ h. h, λ h. h)
check_decls-Reported pkg (d ∷ ds) r =
    chain (Reported-append r (check_decl pkg d) (check_decls pkg ds))
      (either (check_decl-Reported pkg d r) (check_decls-Reported pkg ds r))

file-Reported :
    (pkg : String) (f : File) (rest : List Report) (r : Report) (R : Type 0)
    → (Reported r rest ↔ R)
    → Reported r (if is_skipped f then rest else check_decls pkg f.decls ++ rest)
      ↔ (((is_skipped f ≡ false) × Any (λ d. IsAtFault pkg d r) f.decls) ⊎ R)
file-Reported pkg f rest r R more = by_test (is_skipped f)
  where
    by_test :
        (b : Bool)
        → Reported r (if b then rest else check_decls pkg f.decls ++ rest)
          ↔ (((b ≡ false) × Any (λ d. IsAtFault pkg d r) f.decls) ⊎ R)
    by_test true = (λ h. inr (more.0 h), λ h. elim h [ inl clash ↦ cc | inr x ↦ more.1 x ])
    by_test false =
        chain (Reported-append r (check_decls pkg f.decls) rest)
          (either (chain (check_decls-Reported pkg f.decls r) (λ a. (refl, a), λ h. h.1)) more)

-- A position and a message are reported exactly when some file that is neither generated nor a test
-- has a function whose body makes, there and at any depth, a forbidden call that the message is
-- about: panic in any function, log.Fatal… or os.Exit in any but the main function of package main.
pub run_no_exit-Reported :
    (pkg : String) (files : List File) (r : Report)
    → Reported r (run_no_exit pkg files)
      ↔ Any (λ f. (is_skipped f ≡ false) × Any (λ d. IsAtFault pkg d r) f.decls) files
unfolding run_no_exit
run_no_exit-Reported pkg [] r = (λ h. h, λ h. h)
run_no_exit-Reported pkg (f ∷ fs) r =
    file-Reported pkg f (run_no_exit pkg fs) r _ (run_no_exit-Reported pkg fs r)

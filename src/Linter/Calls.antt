-- ===== src/Linter/Calls.antt =====
-- Which calls the linter forbids, and that checkCall reports just those.
use Prim.Native.String
use go_yandex_practicum_metr.Prelude.{
  ℕ, String, ◌==◌, eq_iff, Bool, true, false, not, ◌&&◌, List, [], ◌∷◌, ◌++◌, ◌≡◌, ◌≢◌, ◌⊎◌, inl,
  inr, ◌↔◌, refl, ap, arith, if◌then◌else◌,
}
use go_yandex_practicum_metr.GoText.{has_prefix}
use go_yandex_practicum_metr.Linter.{
  Node, call, ident, selector, other, Report, report_if, check_selector, check_call,
}

abbrev pub Reported : Report → List Report → Type 0
Reported r [] = ⊥
Reported r (x ∷ xs) = (r ≡ x) ⊎ Reported r xs

-- What must not be called, and what is said of it: panic anywhere, log.Fatal… and os.Exit outside
-- the main function.
abbrev IsForbiddenSelector : Bool → Node → String → String → Type 0
IsForbiddenSelector in_main (ident pkg) sel message =
    (in_main ≡ false)
    × (((pkg ≡ "log")
          × (has_prefix "Fatal" sel ≡ true)
          × (message
              ≡ String.◌++◌ "log."
                  (String.◌++◌ sel " is forbidden outside main() of package main")))
        ⊎ ((pkg ≡ "os")
            × (sel ≡ "Exit")
            × (message ≡ "os.Exit is forbidden outside main() of package main")))
IsForbiddenSelector in_main (call q f args) sel message = ⊥
IsForbiddenSelector in_main (selector x s) sel message = ⊥
IsForbiddenSelector in_main (other ns) sel message = ⊥

abbrev pub IsForbidden : Bool → Node → String → Type 0
IsForbidden in_main (ident name) message = (name ≡ "panic") × (message ≡ "panic call is forbidden")
IsForbidden in_main (selector x sel) message = IsForbiddenSelector in_main x sel message
IsForbidden in_main (call q f args) message = ⊥
IsForbidden in_main (other ns) message = ⊥

pub Reported-append :
    (r : Report) (xs ys : List Report) → Reported r (xs ++ ys) ↔ (Reported r xs ⊎ Reported r ys)
Reported-append r [] ys = (λ h. inr h, λ h. elim h [ inl a ↦ absurd a | inr b ↦ b ])
Reported-append r (x ∷ xs) ys = (
  λ h. elim h [
    | inl here ↦ inl (inl here)
    | inr there ↦ elim ((Reported-append r xs ys).0 there) [ inl a ↦ inl (inr a) | inr b ↦ inr b ]
  ],
  λ h. elim h [
    | inl first ↦ elim first [
      | inl here ↦ inl here
      | inr a ↦ inr ((Reported-append r xs ys).1 (inl a))
    ]
    | inr b ↦ inr ((Reported-append r xs ys).1 (inr b))
  ],
)

report_if-Reported :
    (b : Bool) (pos q : ℕ) (message m : String)
    → Reported (q, m) (report_if b pos message) ↔ ((b ≡ true) × (q ≡ pos) × (m ≡ message))
report_if-Reported true pos q message m = (
  λ h. elim h [ inl e ↦ (refl, ap (λ r. r.0) e, ap (λ r. r.1) e) | inr e ↦ absurd e ],
  λ h. inl (λ i. (h.1 i, h.2 i)),
)
report_if-Reported false pos q message m = (λ h. absurd h, λ h. cc)

abbrev log_name : String
log_name = "log"

abbrev os_name : String
os_name = "os"

log-ne-os : log_name ≢ os_name
log-ne-os = ground (arith, eq_iff "log" "os")

-- The two selectors, by what is left to compare.
selector-tests :
    (in_main : Bool) (pkg sel m : String)
    → (((pkg == "log" && has_prefix "Fatal" sel) ≡ true)
        × (not in_main ≡ true)
        × (m ≡ String.◌++◌ "log." (String.◌++◌ sel " is forbidden outside main() of package main")))
      ⊎ (((pkg == "log" && has_prefix "Fatal" sel) ≡ false)
          × ((pkg == "os" && sel == "Exit") ≡ true)
          × (not in_main ≡ true)
          × (m ≡ "os.Exit is forbidden outside main() of package main"))
    → (in_main ≡ false)
      × (((pkg ≡ "log")
            × (has_prefix "Fatal" sel ≡ true)
            × (m
                ≡ String.◌++◌ "log."
                    (String.◌++◌ sel " is forbidden outside main() of package main")))
          ⊎ ((pkg ≡ "os")
              × (sel ≡ "Exit")
              × (m ≡ "os.Exit is forbidden outside main() of package main")))
selector-tests in_main pkg sel m h =
    ground (arith, eq_iff pkg "log", eq_iff pkg "os", eq_iff sel "Exit", log-ne-os)

selector-rules :
    (in_main : Bool) (pkg sel m : String)
    → (in_main ≡ false)
      × (((pkg ≡ "log")
            × (has_prefix "Fatal" sel ≡ true)
            × (m
                ≡ String.◌++◌ "log."
                    (String.◌++◌ sel " is forbidden outside main() of package main")))
          ⊎ ((pkg ≡ "os")
              × (sel ≡ "Exit")
              × (m ≡ "os.Exit is forbidden outside main() of package main")))
    → (((pkg == "log" && has_prefix "Fatal" sel) ≡ true)
        × (not in_main ≡ true)
        × (m ≡ String.◌++◌ "log." (String.◌++◌ sel " is forbidden outside main() of package main")))
      ⊎ (((pkg == "log" && has_prefix "Fatal" sel) ≡ false)
          × ((pkg == "os" && sel == "Exit") ≡ true)
          × (not in_main ≡ true)
          × (m ≡ "os.Exit is forbidden outside main() of package main"))
selector-rules in_main pkg sel m h =
    ground (arith, eq_iff pkg "log", eq_iff pkg "os", eq_iff sel "Exit", log-ne-os)

branches-Reported :
    (c d b : Bool) (pos q : ℕ) (m t u : String)
    → Reported (q, m) (if c then report_if b pos t else if d then report_if b pos u else []) ↔ (
        (q ≡ pos)
        × (((c ≡ true) × (b ≡ true) × (m ≡ t)) ⊎ ((c ≡ false) × (d ≡ true) × (b ≡ true) × (m ≡ u))))
branches-Reported true d b pos q m t u = (
  λ h. let (on, at, says) = (report_if-Reported b pos q t m).0 h in (at, inl (refl, on, says)),
  λ h. elim (h.1) [
    | inl (c, on, says) ↦ (report_if-Reported b pos q t m).1 (on, h.0, says)
    | inr clash ↦ cc
  ],
)
branches-Reported false true b pos q m t u = (
  λ h.
      let (on, at, says) = (report_if-Reported b pos q u m).0 h in (at, inr (refl, refl, on, says)),
  λ h. elim (h.1) [
    | inl clash ↦ cc
    | inr (c, d, on, says) ↦ (report_if-Reported b pos q u m).1 (on, h.0, says)
  ],
)
branches-Reported false false b pos q m t u =
    (λ h. absurd h, λ h. elim (h.1) [ inl clash ↦ cc | inr clash ↦ cc ])

selector-Reported :
    (in_main : Bool) (pos q : ℕ) (x : Node) (sel m : String)
    → Reported (q, m) (check_selector in_main pos x sel)
      ↔ ((q ≡ pos) × IsForbidden in_main (selector x sel) m)
selector-Reported in_main pos q (ident pkg) sel m =
    let both =
      branches-Reported (pkg == "log" && has_prefix "Fatal" sel) (pkg == "os" && sel == "Exit")
        (not in_main) pos q m
        (String.◌++◌ "log." (String.◌++◌ sel " is forbidden outside main() of package main"))
        "os.Exit is forbidden outside main() of package main" in
    (
      λ h. ((both.0 h).0, selector-tests in_main pkg sel m (both.0 h).1),
      λ h. both.1 (h.0, selector-rules in_main pkg sel m h.1),
    )
selector-Reported in_main pos q (call p f args) sel m = (λ h. absurd h, λ h. absurd h.1)
selector-Reported in_main pos q (selector y s) sel m = (λ h. absurd h, λ h. absurd h.1)
selector-Reported in_main pos q (other ns) sel m = (λ h. absurd h, λ h. absurd h.1)

pub check_call-Reported :
    (in_main : Bool) (pos q : ℕ) (f : Node) (m : String)
    → Reported (q, m) (check_call in_main pos f) ↔ ((q ≡ pos) × IsForbidden in_main f m)
unfolding check_call
check_call-Reported in_main pos q (ident name) m =
    let test = report_if-Reported (name == "panic") pos q "panic call is forbidden" m in
    (
      λ h. let (on, at, says) = test.0 h in (at, ((eq_iff name "panic").0 on, says)),
      λ h. test.1 ((eq_iff name "panic").1 h.1.0, h.0, h.1.1),
    )
check_call-Reported in_main pos q (selector x sel) m = selector-Reported in_main pos q x sel m
check_call-Reported in_main pos q (call p f args) m = (λ h. absurd h, λ h. absurd h.1)
check_call-Reported in_main pos q (other ns) m = (λ h. absurd h, λ h. absurd h.1)

-- ===== src/GoText/Cut.antt =====
-- Cutting a text at the first occurrence of a byte.
use Prim.Native.Char.{Char, code}
use Prim.Native.String
use text.Mathlib.TextLemmas.{nil-append, cons-append}
use go_yandex_practicum_metr.Prelude.{ℕ, String, some, ◌≡◌, ◌≢◌, arith}
use go_yandex_practicum_metr.GoText.{cut}

-- No character of the text is `b`.
abbrev pub Lacks : ℕ → String → Type 0
Lacks b String.[] = Unit
Lacks b (String.◌∷◌ c s) = (code c ≢ b) × Lacks b s

-- The first half stops before the first `b`, and the second half is all that follows it.
pub cut-append :
    (b : ℕ) (s : String) (c : Char) (rest : String)
    → Lacks b s
    → code c ≡ b
    → cut b (String.◌++◌ s (String.◌∷◌ c rest)) ≡ some (s, rest)
unfolding cut
cut-append b String.[] c rest h e = rw nil-append (ground arith)
cut-append b (String.◌∷◌ d s) c rest (h, k) e =
    rw cons-append (ground (arith, cut-append b s c rest k e))

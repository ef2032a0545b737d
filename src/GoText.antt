-- ===== src/GoText.antt =====
-- What the program uses of Go's `strings` package, over texts as lists of code points.
pub mod Cut
use Prim.Native.Char.{Char, code}
use Prim.Native.String
use go_yandex_practicum_metr.Prelude.{
  ℕ, String, Bool, ◌&&◌, ◌||◌, ◌==◌, eqb, leb, Option, none, some, true, false, if◌then◌else◌,
}

-- unicode.IsSpace
unfoldable pub is_space : ℕ → Bool
is_space c =
    (leb 9 c && leb c 13)
    || eqb c 32
    || eqb c 0x85
    || eqb c 0xa0
    || eqb c 0x1680
    || (leb 0x2000 c && leb c 0x200a)
    || eqb c 0x2028
    || eqb c 0x2029
    || eqb c 0x202f
    || eqb c 0x205f
    || eqb c 0x3000

unfoldable pub trim_left : String → String
trim_left String.[] = ""
trim_left (String.◌∷◌ c s) = if is_space (code c) then trim_left s else String.◌∷◌ c s

unfoldable pub trim_right : String → String
trim_right String.[] = ""
trim_right (String.◌∷◌ c s) =
    let rest = trim_right s in if is_space (code c) && rest == "" then "" else String.◌∷◌ c rest

-- strings.TrimSpace
unfoldable pub trim_space : String → String
trim_space s = trim_right (trim_left s)

-- `i := strings.IndexByte(s, b)` with the slices `s[:i]` and `s[i+1:]`, for an ASCII byte `b`;
-- `none` is a negative index.
unfoldable pub cut : ℕ → String → Option (String × String)
cut b String.[] = none
cut b (String.◌∷◌ c s) =
    let rest = cut b s in
    if eqb (code c) b
    then some ("", s)
    else elim rest [ none ↦ none | some (l, r) ↦ some (String.◌∷◌ c l, r) ]

-- strings.HasPrefix, the prefix first
unfoldable pub has_prefix : String → String → Bool
has_prefix String.[] s = true
has_prefix (String.◌∷◌ c p) String.[] = false
has_prefix (String.◌∷◌ c p) (String.◌∷◌ d s) =
    let rest = has_prefix p s in String.◌∷◌ c "" == String.◌∷◌ d "" && rest

-- strings.HasSuffix
unfoldable pub has_suffix : String → String → Bool
has_suffix String.[] suffix = "" == suffix
has_suffix (String.◌∷◌ c s) suffix =
    let rest = has_suffix s suffix in String.◌∷◌ c s == suffix || rest

-- strings.Contains
unfoldable pub contains : String → String → Bool
contains String.[] part = "" == part
contains (String.◌∷◌ c s) part =
    let rest = contains s part in has_prefix part (String.◌∷◌ c s) || rest

-- what follows a prefix
unfoldable pub after : String → String → Option String
after String.[] s = some s
after (String.◌∷◌ c p) String.[] = none
after (String.◌∷◌ c p) (String.◌∷◌ d s) =
    let rest = after p s in if String.◌∷◌ c "" == String.◌∷◌ d "" then rest else none

-- strings.TrimPrefix, the prefix first
unfoldable pub trim_prefix : String → String → String
trim_prefix p s = elim (after p s) [ none ↦ s | some rest ↦ rest ]

-- strings.TrimSuffix
unfoldable pub trim_suffix : String → String → String
trim_suffix String.[] suffix = ""
trim_suffix (String.◌∷◌ c s) suffix =
    let rest = trim_suffix s suffix in if String.◌∷◌ c s == suffix then "" else String.◌∷◌ c rest
